-- ===== src/Querylog/File/Scan.antt =====
-- The two loops of qlogfile.go that look for a line break, and what they find in a buffer that holds
-- a part of the file.
use null_private.Prelude.{
  ℕ, zero, suc, ◌+◌, ◌≤◌, ◌<◌, ◌≡◌, ◌≢◌, refl, ap₂, none, some, List, arith, length, take, drop,
  get_elem?, [], ◌∷◌,
}
use null_private.Querylog.File.{Buffer, line_start, line_end, slice, newline, copy}

-- A line of the text starts at the position.
abbrev pub StartsAt : Buffer → ℕ → Type 0
StartsAt c p = (i : ℕ) → suc i ≡ p → c i ≡ newline

pub line_start-le : (c : Buffer) (p : ℕ) → line_start c p ≤ p
unfolding line_start
line_start-le c zero = omega arith
line_start-le c (suc p) = ground (arith, line_start-le c p)

pub line_start-StartsAt : (c : Buffer) (p : ℕ) → StartsAt c (line_start c p)
unfolding line_start
line_start-StartsAt c zero i e = absurd (omega arith)
line_start-StartsAt c (suc p) i e = ground (arith, line_start-StartsAt c p i)

pub line_start-no_break : (c : Buffer) (p i : ℕ) → line_start c p ≤ i → i < p → c i ≢ newline
unfolding line_start
line_start-no_break c zero i h k = absurd (omega arith)
line_start-no_break c (suc p) i h k = ground (arith, line_start-no_break c p i)

-- A start of a line that is not past the position is not past the start of its line.
pub le-line_start : (c : Buffer) (s p : ℕ) → StartsAt c s → s ≤ p → s ≤ line_start c p
le-line_start c zero p h k = omega arith
le-line_start c (suc s) p h k =
    ground (arith, h s refl, line_start-no_break c p s, line_start-le c p)

pub line_end_lem :
    (c : Buffer) (i n e : ℕ)
    → line_end c i n ≡ some e
    → (i ≤ e) × (e < i + n) × (c e ≡ newline) × ((j : ℕ) → i ≤ j → j < e → c j ≢ newline)
unfolding line_end
line_end_lem c i zero e h = absurd (ground arith)
line_end_lem c i (suc n) e h = ground (arith, line_end_lem c (i + 1) n e)

-- A break that is there is found, and none before it.
pub line_end-some :
    (c : Buffer) (i n e : ℕ)
    → i ≤ e
    → e < i + n
    → c e ≡ newline
    → ((j : ℕ) → i ≤ j → j < e → c j ≢ newline)
    → line_end c i n ≡ some e
unfolding line_end
line_end-some c i zero e h k b none_before = absurd (omega arith)
line_end-some c i (suc n) e h k b none_before = ground (
  arith,
  none_before i,
  line_end-some c (i + 1) n e,
  λ (j : ℕ) (x : i + 1 ≤ j). none_before j (omega arith),
)

module _ (c b : Buffer) (s : ℕ) where
  -- `b` holds the bytes from `s` to before `s + n`.
  abbrev pub Holds : ℕ → Type 0
  Holds n = (i : ℕ) → i < n → b i ≡ c (s + i)

  pub line_start-Holds :
      (n : ℕ) → Holds n → s ≤ line_start c (s + n) → s + line_start b n ≡ line_start c (s + n)
  unfolding line_start
  line_start-Holds n h k = shift (s + n) n refl h k
    where
      shift :
          (m n : ℕ) → s + n ≡ m → Holds n → s ≤ line_start c m → s + line_start b n ≡ line_start c m
      shift m zero e h k = ground (arith, line_start-le c m)
      shift zero (suc n) e h k = absurd (omega arith)
      shift (suc m) (suc n) e h k =
          ground (arith, h n, shift m n, λ (i : ℕ) (x : i < n). h i (omega arith))

  pub slice-Holds : (n i k : ℕ) → Holds n → i + k ≤ n → slice b i k ≡ slice c (s + i) k
  unfolding slice
  slice-Holds n i k h le = shift (s + i) i k refl le
    where
      shift : (m i k : ℕ) → s + i ≡ m → i + k ≤ n → slice b i k ≡ slice c m k
      shift m i zero e le = refl
      shift m i (suc k) e le =
          ap₂ ◌∷◌ (grind (arith, h i)) (shift (m + 1) (i + 1) k (omega arith) (omega arith))

pub length-slice : (c : Buffer) (i n : ℕ) → length (slice c i n) ≡ n
unfolding slice
length-slice c i zero = refl
length-slice c i (suc n) = omega (arith, length-slice c (i + 1) n)

-- What a read of `k` bytes at `o` puts at an index of the buffer.
abbrev pub byte_of : List ℕ → Buffer
byte_of content i = elim (get_elem? content i) [ some v ↦ v | none ↦ 0 ]

get_elem?-take-drop :
    (content : List ℕ) (o k i j : ℕ)
    → i < k
    → o + i ≡ j
    → get_elem? (take k (drop o content)) i ≡ get_elem? content j
get_elem?-take-drop content o zero i j h e = absurd (omega arith)
get_elem?-take-drop [] zero (suc k) i j h e = refl
get_elem?-take-drop [] (suc o) (suc k) i j h e = refl
get_elem?-take-drop (x ∷ content) zero (suc k) zero zero h e = refl
get_elem?-take-drop (x ∷ content) zero (suc k) (suc i) (suc j) h e =
    get_elem?-take-drop content zero k i j (omega arith) (omega arith)
get_elem?-take-drop (x ∷ content) zero (suc k) (suc i) zero h e = absurd (omega arith)
get_elem?-take-drop (x ∷ content) zero (suc k) zero (suc j) h e = absurd (omega arith)
get_elem?-take-drop (x ∷ content) (suc o) (suc k) i zero h e = absurd (omega arith)
get_elem?-take-drop (x ∷ content) (suc o) (suc k) i (suc j) h e =
    get_elem?-take-drop content o (suc k) i j h (omega arith)

get_elem?-lt : (content : List ℕ) (i : ℕ) → i < length content → get_elem? content i ≢ none
get_elem?-lt [] i h = absurd (omega arith)
get_elem?-lt (x ∷ content) zero h = ground arith
get_elem?-lt (x ∷ content) (suc i) h = get_elem?-lt content i (omega arith)

pub copy-take-drop :
    (content : List ℕ) (b : Buffer) (o k i : ℕ)
    → i < k
    → o + i < length content
    → copy (take k (drop o content)) b i ≡ byte_of content (o + i)
copy-take-drop content b o k i h in_file =
    ground (
      arith,
      get_elem?-take-drop content o k i (o + i) h refl,
      get_elem?-lt content (o + i) in_file,
    )
