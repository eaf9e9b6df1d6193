-- ===== src/Schedule/Durations.antt =====
-- The durations of a valid range are written to JSON and read back exactly.
use null_private.Prelude.{ℕ, ◌*◌, ◌/◌, ◌%◌, ◌^◌, ◌≤◌, ◌≡◌, refl, subst, some, arith}
use null_private.Prelude.Int.{ℤ, pos}
use null_private.Schedule.{minute, max_day_range}
use null_private.Schedule.Codec.{Floats, nsec_per_msec, marshal_duration, unmarshal_duration}

-- Whole numbers up to 2^53 are exact in float64, also as quotients and products of whole numbers, and a
-- whole number that is formatted with as many digits as it needs is parsed to itself.
pub record IsExact {Float Text : Type 0} (floats : Floats Float Text) : Type 0 where
  pub to_int-of_int : (n : ℕ) → n ≤ 2 ^ 53 → floats.to_int (floats.of_int (pos n)) ≡ pos n
  pub quotient_exact :
      (n : ℕ)
      → n * nsec_per_msec ≤ 2 ^ 53
      → floats.quotient
          (floats.of_int (pos (n * nsec_per_msec)))
          (floats.of_int (pos nsec_per_msec))
        ≡ floats.of_int (pos n)
  pub product_exact :
      (n : ℕ)
      → n * nsec_per_msec ≤ 2 ^ 53
      → floats.product (floats.of_int (pos n)) (floats.of_int (pos nsec_per_msec))
        ≡ floats.of_int (pos (n * nsec_per_msec))
  pub parse-format :
      (n : ℕ)
      → n ≤ 2 ^ 53
      → floats.parse (floats.format (floats.of_int (pos n))) ≡ some (floats.of_int (pos n))

module _ {Float Text : Type 0} (floats : Floats Float Text) where
  abbrev pub IsReadBack : ℤ → Type 0
  IsReadBack d = unmarshal_duration floats (marshal_duration floats d) ≡ some d

  milliseconds-IsReadBack :
      IsExact floats → (k : ℕ) → k ≤ 86_400_000 → IsReadBack (pos (k * nsec_per_msec))
  unfolding marshal_duration unmarshal_duration
  milliseconds-IsReadBack exact k h =
      rw
        (
          unmarshal_duration,
          marshal_duration,
          exact.quotient_exact k (omega arith),
          exact.parse-format k (omega arith),
          exact.product_exact k (omega arith),
          exact.to_int-of_int (k * nsec_per_msec) (omega arith),
        )
        refl

  pub minutes-IsReadBack :
      IsExact floats → (n : ℕ) → n ≤ max_day_range → n % minute ≡ 0 → IsReadBack (pos n)
  minutes-IsReadBack exact n h whole =
      let back : n / nsec_per_msec * nsec_per_msec ≡ n = omega arith in
      subst (λ m. IsReadBack (pos m)) back
        (milliseconds-IsReadBack exact (n / nsec_per_msec) (omega arith))
