-- ===== src/Dhcpd/BitSet.antt =====
-- internal/dhcpd/bitset.go: a sparse set of bits, in words of 64.
use null_private.Prelude.{
  ℕ, zero, suc, ◌+◌, ◌*◌, ◌/◌, ◌%◌, ◌≡◌, refl, Bool, true, false, Option, none, some, [], arith,
  ◌==◌, if◌then◌else◌,
}
use null_private.Prelude.Map.{Map, lookup, insert, number_eq, lookup-insert}

-- The bit `i` of a word: `word & (1 << i) != 0`.
abbrev pub bit : ℕ → ℕ → Bool
bit zero word = word % 2 == 1
bit (suc i) word = bit i (word / 2)

-- The word with the bit `i` set, `word | 1 << i`, or unset, `word &^ 1 << i`.
abbrev pub with_bit : ℕ → Bool → ℕ → ℕ
with_bit zero ok word = word / 2 * 2 + (if ok then 1 else 0)
with_bit (suc i) ok word = word % 2 + with_bit i ok (word / 2) * 2

abbrev pub bits_per_word : ℕ
bits_per_word = 64

-- `none` is a nil set.
abbrev pub BitSet : Type 0
BitSet = Option (Map ℕ ℕ)

abbrev pub new_bit_set : BitSet
new_bit_set = some []

-- A word that is missing reads as zero.
abbrev pub word_of : Option ℕ → ℕ
word_of none = 0
word_of (some word) = word

unfoldable pub is_set : ℕ → BitSet → Bool
is_set n none = false
is_set n (some words) = elim (lookup (n / bits_per_word) words) [
  | none ↦ false
  | some word ↦ bit (n % bits_per_word) word
]

unfoldable pub set_bit : ℕ → Bool → BitSet → BitSet
set_bit n ok none = none
set_bit n ok (some words) =
    let word = word_of (lookup (n / bits_per_word) words) in
    some (insert (n / bits_per_word) (with_bit (n % bits_per_word) ok word) words)

bit-with_bit :
    (i j : ℕ) (ok : Bool) (word : ℕ)
    → bit j (with_bit i ok word) ≡ (if i == j then ok else bit j word)
bit-with_bit zero zero true word = ground arith
bit-with_bit zero zero false word = ground arith
bit-with_bit zero (suc j) ok word =
    let e : with_bit zero ok word / 2 ≡ word / 2 = ground arith in ground (arith, e)
bit-with_bit (suc i) zero ok word = ground arith
bit-with_bit (suc i) (suc j) ok word =
    let e : with_bit (suc i) ok word / 2 ≡ with_bit i ok (word / 2) = omega arith in
    ground (arith, e, bit-with_bit i j ok (word / 2))

bit_zero : (i : ℕ) → bit i 0 ≡ false
bit_zero zero = refl
bit_zero (suc i) = bit_zero i

-- A bit that was set or unset in a set that is not nil reads so, and every other bit as before.
pub is_set-set_bit :
    (n m : ℕ) (ok : Bool) (words : Map ℕ ℕ)
    → is_set m (set_bit n ok (some words)) ≡ (if n == m then ok else is_set m (some words))
unfolding is_set set_bit
is_set-set_bit n m ok words = ground (
  arith,
  lookup-insert (n / 64) (m / 64) (with_bit (n % 64) ok (word_of (lookup (n / 64) words))) words,
  bit-with_bit (n % 64) (m % 64) ok (word_of (lookup (n / 64) words)),
  bit_zero (m % 64),
)
