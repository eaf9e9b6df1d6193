-- ===== src/Auth/Sessions/Codec.antt =====
-- The binary form of a session.
use null_private.Prelude.{
  ℕ, ◌*◌, ◌/◌, ◌%◌, ◌^◌, ◌<◌, ◌≡◌, ap, ◌∙◌, Bool-cases, inl, inr, none, some, List, [], ◌∷◌, arith,
  ltb, ◌==◌, length, if◌then◌else◌,
}
use null_private.Auth.Sessions.{
  Session, second, put_uint16, put_uint32, uint16, uint32, bbolt_encode, bbolt_decode,
}

uint32-put_uint32 :
    (n : ℕ)
    → n < 2 ^ 32
    → uint32 (n / 2 ^ 24 % 2 ^ 8) (n / 2 ^ 16 % 2 ^ 8) (n / 2 ^ 8 % 2 ^ 8) (n % 2 ^ 8) ≡ n
uint32-put_uint32 n h = omega arith

length_test :
    (n : ℕ) → (n == uint16 (n % 2 ^ 16 / 2 ^ 8 % 2 ^ 8) (n % 2 ^ 16 % 2 ^ 8)) ≡ ltb n (2 ^ 16)
length_test n = ground arith

-- Decoding what was encoded gives the login and the expiry back, the expiry in whole seconds and
-- modulo 2^32 of them, if the login has fewer than 2^16 bytes; it is an error if it has more.
pub bbolt_decode-bbolt_encode :
    (s : Session)
    → bbolt_decode (bbolt_encode s) ≡ (
        if ltb (length s.user_login) (2 ^ 16)
        then some (record {
          token = [];
          user_id = 0;
          user_login = s.user_login;
          expire = s.expire / second % 2 ^ 32 * second;
        })
        else none)
unfolding bbolt_decode bbolt_encode
bbolt_decode-bbolt_encode s =
    rw (length_test (length s.user_login))
      (rw (uint32-put_uint32 (s.expire / second % 2 ^ 32) (omega arith)))

abbrev pub AllBytes : List ℕ → Type 0
AllBytes [] = Unit {0}
AllBytes (b ∷ bs) = (b < 2 ^ 8) × AllBytes bs

uint32_bytes :
    (a b c d : ℕ)
    → a < 2 ^ 8
    → b < 2 ^ 8
    → c < 2 ^ 8
    → d < 2 ^ 8
    → put_uint32 (uint32 a b c d * second / second % 2 ^ 32) ≡ a ∷ b ∷ c ∷ d ∷ []
uint32_bytes a b c d h₁ h₂ h₃ h₄ =
    let n : uint32 a b c d * second / second % 2 ^ 32 ≡ uint32 a b c d = omega arith in
    ap put_uint32 n ∙ ground arith

uint16_bytes : (x y : ℕ) → x < 2 ^ 8 → y < 2 ^ 8 → put_uint16 (uint16 x y) ≡ x ∷ y ∷ []
uint16_bytes x y h₁ h₂ = ground arith

length_mod : (n x y : ℕ) → n ≡ uint16 x y → x < 2 ^ 8 → y < 2 ^ 8 → n % 2 ^ 16 ≡ uint16 x y
length_mod n x y e h₁ h₂ = omega arith

-- Bytes that decode are the encoding of the session that they decode to.
pub bbolt_encode-bbolt_decode :
    (bytes : List ℕ) (s : Session)
    → AllBytes bytes
    → bbolt_decode bytes ≡ some s
    → bbolt_encode s ≡ bytes
unfolding bbolt_decode bbolt_encode
bbolt_encode-bbolt_decode [] s h e = ground arith
bbolt_encode-bbolt_decode (a ∷ []) s h e = ground arith
bbolt_encode-bbolt_decode (a ∷ b ∷ []) s h e = ground arith
bbolt_encode-bbolt_decode (a ∷ b ∷ c ∷ []) s h e = ground arith
bbolt_encode-bbolt_decode (a ∷ b ∷ c ∷ d ∷ []) s h e = ground arith
bbolt_encode-bbolt_decode (a ∷ b ∷ c ∷ d ∷ x ∷ []) s h e = ground arith
bbolt_encode-bbolt_decode (a ∷ b ∷ c ∷ d ∷ x ∷ y ∷ name) s h e =
    elim (Bool-cases (length name == uint16 x y)) [
      | inl fits ↦
          let len : length name ≡ uint16 x y = ground arith in
          let result : s ≡ record {
            token = [];
            user_id = 0;
            user_login = name;
            expire = uint32 a b c d * second;
          } =
            ground arith in
          rw result (
            cc (
              uint32_bytes a b c d h.0 h.1.0 h.1.1.0 h.1.1.1.0,
              ap put_uint16 (length_mod (length name) x y len h.1.1.1.1.0 h.1.1.1.1.1.0),
              uint16_bytes x y h.1.1.1.1.0 h.1.1.1.1.1.0,
            ))
      | inr other ↦ absurd (ground arith)
    ]
