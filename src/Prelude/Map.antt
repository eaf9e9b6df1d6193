-- ===== src/Prelude/Map.antt =====
-- Go's maps, as association lists over keys with a Boolean equality: one entry to a key is read, a
-- write replaces, a missing key is `none`. Nothing here depends on Go's iteration order.
pub mod Agree
pub mod Keys
use null_private.Prelude.{
  ℕ, String, ◌≡◌, refl, ◌↔◌, Bool, true, false, ◌&&◌, ◌||◌, Option, none, some, List, [], ◌∷◌,
  arith, ◌==◌ as nat_eqb, ==_iff, str_eq, eq_iff, if◌then◌else◌,
}

pub record Eq (K : Type 0) : Type 0 where
  pub beq : K → K → Bool
  pub beq_iff : (a b : K) → (beq a b ≡ true) ↔ (a ≡ b)

infix 50 ◌==◌
abbrev pub ◌==◌ : {K : Type 0} ⦃e : Eq K⦄ → K → K → Bool
◌==◌ ⦃e⦄ = e.beq

instance abbrev pub number_eq : Eq ℕ
number_eq = record { beq_iff = ==_iff; beq = nat_eqb }

instance abbrev pub string_eq : Eq String
string_eq = record { beq = str_eq; beq_iff = eq_iff }

abbrev pub bytes_beq : List ℕ → List ℕ → Bool
bytes_beq [] [] = true
bytes_beq (a ∷ as') (b ∷ bs) = nat_eqb a b && bytes_beq as' bs
bytes_beq _ _ = false

pub bytes_beq_iff : (a b : List ℕ) → (bytes_beq a b ≡ true) ↔ (a ≡ b)
bytes_beq_iff [] [] = (λ h. refl, λ h. refl)
bytes_beq_iff [] (b ∷ bs) = ground arith
bytes_beq_iff (a ∷ xs) [] = ground arith
bytes_beq_iff (a ∷ xs) (b ∷ bs) = ground (arith, bytes_beq_iff xs bs)

instance abbrev pub bytes_eq : Eq (List ℕ)
bytes_eq = record { beq = bytes_beq; beq_iff = bytes_beq_iff }

-- Whether a key is in a list.
abbrev pub mem : {K : Type 0} ⦃e : Eq K⦄ → K → List K → Bool
mem key [] = false
mem key (k ∷ ks) = (k == key) || mem key ks

abbrev pub Map : Type 0 → Type 0 → Type 0
Map K V = List (K × V)

pub ==_self : {K : Type 0} ⦃e : Eq K⦄ (k : K) → (k == k) ≡ true
==_self ⦃e⦄ k = (e.beq_iff k k).1 refl

module _ {K V : Type 0} ⦃e : Eq K⦄ where
  -- `a` is the key of a call, `b` that of an entry.
  unfoldable pub lookup : K → Map K V → Option V
  lookup a [] = none
  lookup a ((b, x) ∷ rest) = let later = lookup a rest in if b == a then some x else later

  unfoldable pub insert : K → V → Map K V → Map K V
  insert a x [] = (a, x) ∷ []
  insert a x ((b, y) ∷ rest) =
      let later = insert a x rest in if b == a then (a, x) ∷ rest else (b, y) ∷ later

  unfoldable pub delete : K → Map K V → Map K V
  delete a [] = []
  delete a ((b, y) ∷ rest) = let later = delete a rest in if b == a then later else (b, y) ∷ later

  pub lookup-delete :
      (k c : K) (m : Map K V) → lookup c (delete k m) ≡ (if k == c then none else lookup c m)
  unfolding lookup delete
  lookup-delete k c [] = ground arith
  lookup-delete k c ((b, y) ∷ rest) =
      ground (arith, lookup-delete k c rest, e.beq_iff k c, e.beq_iff b c, e.beq_iff b k)

  pub lookup-insert :
      (k c : K) (x : V) (m : Map K V)
      → lookup c (insert k x m) ≡ (if k == c then some x else lookup c m)
  unfolding lookup insert
  lookup-insert k c x [] = refl
  lookup-insert k c x ((b, y) ∷ rest) =
      ground (arith, lookup-insert k c x rest, e.beq_iff k c, e.beq_iff b c, e.beq_iff b k)

pub ruleset map_laws = (lookup-insert, lookup-delete, ==_self)
