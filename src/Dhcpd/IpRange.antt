-- ===== src/Dhcpd/IpRange.antt =====
-- internal/dhcpd/iprange.go: an inclusive range of addresses. An address is the integer of its
-- 16-byte form, the `big.Int` of the code.
use null_private.Prelude.{
  ℕ, zero, suc, ◌+◌, ◌-◌, ◌^◌, ◌%◌, ◌≤◌, ◌<◌, ◌≡◌, ◌↔◌, Bool, true, false, ◌&&◌, Option, none, some,
  arith, ltb, leb, if◌then◌else◌, Bool-cases, inl, inr,
}

pub record IpRange : Type 0 where
  pub start : ℕ
  pub end : ℕ

pub data NewRange : Type 0 where
  range : IpRange → NewRange
  not_increasing too_large : NewRange

-- `math.MaxUint32`
abbrev pub max_range_len : ℕ
max_range_len = 4_294_967_295

unfoldable pub new_ip_range : ℕ → ℕ → NewRange
new_ip_range start end =
    if leb end start
    then not_increasing
    else if leb (2 ^ 64) (end - start)
    then too_large
    else if ltb max_range_len (end - start)
    then too_large
    else range (record { start = start; end = end })

unfoldable pub contains_int : IpRange → ℕ → Bool
contains_int r ip = leb r.start ip && leb ip r.end

-- `none` is a nil range.
unfoldable pub contains_ip : Option IpRange → ℕ → Bool
unfolding contains_int
contains_ip none ip = false
contains_ip (some r) ip = contains_int r ip

-- The loop of `find`, for `n` more addresses from `i` on.
unfoldable pub find_from : (ℕ → Bool) → ℕ → ℕ → Option ℕ
find_from p zero i = none
find_from p (suc n) i = let later = find_from p n (i + 1) in if p i then some i else later

-- The loop ends behind the last address of the range.
unfoldable pub find : Option IpRange → (ℕ → Bool) → Option ℕ
unfolding find_from
find none p = none
find (some r) p = find_from p (r.end + 1 - r.start) r.start

-- `none` is the result `false`.
unfoldable pub offset : Option IpRange → ℕ → Option ℕ
unfolding contains_int
offset none ip = none
offset (some r) ip = if contains_int r ip then some ((ip - r.start) % 2 ^ 64) else none

-- A range is made exactly of bounds the first of which is less than the second, by at most 2^32 - 1.
pub new_ip_range_iff :
    (a b : ℕ)
    → (new_ip_range a b ≡ range (record { start = a; end = b }))
      ↔ ((a < b) × (b - a ≤ max_range_len))
unfolding new_ip_range
new_ip_range_iff a b = ground arith

find_from-some :
    (p : ℕ → Bool) (n i ip j : ℕ)
    → find_from p n i ≡ some ip
    → (i ≤ ip) × (ip < i + n) × (p ip ≡ true) × ((leb i j && ltb j ip && p j) ≡ false)
unfolding find_from
find_from-some p zero i ip j e = ground arith
find_from-some p (suc n) i ip j e = elim (Bool-cases (p i)) [
  | inl here ↦ ground arith
  | inr later ↦ ground (arith, find_from-some p n (i + 1) ip j)
]

find_from-none :
    (p : ℕ → Bool) (n i j : ℕ) → find_from p n i ≡ none → i ≤ j → j < i + n → p j ≡ false
unfolding find_from
find_from-none p zero i j e le lt = ground arith
find_from-none p (suc n) i j e le lt = elim (Bool-cases (p i)) [
  | inl here ↦ absurd (ground arith)
  | inr later ↦ ground (arith, find_from-none p n (i + 1) j)
]

-- An address that is found is the least one of the range that satisfies the predicate.
pub find-least :
    (r : IpRange) (p : ℕ → Bool) (ip j : ℕ)
    → find (some r) p ≡ some ip
    → (contains_ip (some r) ip ≡ true)
      × (p ip ≡ true)
      × ((leb r.start j && ltb j ip && p j) ≡ false)
unfolding find contains_ip
find-least r p ip j e =
    let found = find_from-some p (r.end + 1 - r.start) r.start ip j e in ground (arith, found)

-- Where no address is found, none of the range satisfies the predicate.
pub find-none :
    (r : IpRange) (p : ℕ → Bool) (ip : ℕ)
    → find (some r) p ≡ none
    → contains_ip (some r) ip ≡ true
    → p ip ≡ false
unfolding find contains_ip
find-none r p ip e h =
    find_from-none p (r.end + 1 - r.start) r.start ip e (ground arith) (ground arith)
