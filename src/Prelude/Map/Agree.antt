-- ===== src/Prelude/Map/Agree.antt =====
-- Two maps that index the same values, one by the key `f v` and the other by `g v`.
use mathlib.Core.Bool.{false≢true}
use null_private.Prelude.{
  ◌≡◌, ◌≢◌, sym, ap, ◌∙◌, false, Bool-cases, none, some, inl, inr, ◌⊎◌, arith,
}
use null_private.Prelude.Map.{
  Eq, Map, lookup, insert, delete, ◌==◌, lookup-insert, lookup-delete, ==_self,
}

-- Every value of `m` stands under its own key there, and under its other key in `n`.
abbrev pub Agree :
    {K J V : Type 0} ⦃e : Eq K⦄ ⦃d : Eq J⦄ → (V → K) → Map K V → (V → J) → Map J V → Type 0
Agree {K} {V = V} f m g n =
    (k : K) (v : V) → lookup k m ≡ some v → (f v ≡ k) × (lookup (g v) n ≡ some v)

pub ==_false : {K : Type 0} ⦃e : Eq K⦄ (k j : K) → k ≢ j → (k == j) ≡ false
==_false ⦃e⦄ k j h = elim (Bool-cases (k == j)) [
  | inl same ↦ absurd (h ((e.beq_iff k j).0 same))
  | inr apart ↦ apart
]

module _ {K V : Type 0} ⦃e : Eq K⦄ where
  pub lookup-insert_cases :
      (k j : K) (v x : V) (m : Map K V)
      → lookup j (insert k v m) ≡ some x
      → ((k ≡ j) × (v ≡ x)) ⊎ (((k == j) ≡ false) × (lookup j m ≡ some x))
  lookup-insert_cases k j v x m h = elim (Bool-cases (k == j)) [
    | inl same ↦ inl ((e.beq_iff k j).0 same, ground (arith, lookup-insert k j v m))
    | inr apart ↦ inr (apart, ground (arith, lookup-insert k j v m))
  ]

  pub lookup-insert_self : (k : K) (v : V) (m : Map K V) → lookup k (insert k v m) ≡ some v
  lookup-insert_self k v m = rw (lookup-insert k k v m, ==_self k)

  pub lookup-insert_ne :
      (k j : K) (v : V) (m : Map K V) → (k == j) ≡ false → lookup j (insert k v m) ≡ lookup j m
  lookup-insert_ne k j v m h = rw (lookup-insert k j v m, h)

  pub lookup-delete_cases :
      (k j : K) (x : V) (m : Map K V)
      → lookup j (delete k m) ≡ some x
      → ((k == j) ≡ false) × (lookup j m ≡ some x)
  lookup-delete_cases k j x m h = ground (arith, lookup-delete k j m)

  pub lookup-delete_ne :
      (k j : K) (m : Map K V) → (k == j) ≡ false → lookup j (delete k m) ≡ lookup j m
  lookup-delete_ne k j m h = rw (lookup-delete k j m, h)

  pub lookup-delete_self : (k : K) (m : Map K V) → lookup k (delete k m) ≡ none
  lookup-delete_self k m = rw (lookup-delete k k m, ==_self k)

  -- A key with a value is not a key without one.
  pub key_ne :
      (k j : K) (x : V) (m : Map K V) → lookup k m ≡ none → lookup j m ≡ some x → (k == j) ≡ false
  key_ne k j x m h₁ h₂ = elim (Bool-cases (k == j)) [
    | inl same ↦ absurd (cc ((e.beq_iff k j).0 same))
    | inr apart ↦ apart
  ]

module _ {K J V : Type 0} ⦃e : Eq K⦄ ⦃d : Eq J⦄ (f : V → K) (g : V → J) (m : Map K V)
    (n : Map J V) where
  pub Agree-insert :
      (v : V)
      → Agree f m g n
      → lookup (g v) n ≡ none
      → Agree f (insert (f v) v m) g (insert (g v) v n)
  Agree-insert v a free k x h = elim (lookup-insert_cases (f v) k v x m h) [
    | inl (here, same) ↦ (
      ap f (sym same) ∙ here,
      ap (λ y. lookup (g y) (insert (g v) v n)) (sym same)
          ∙ lookup-insert_self (g v) v n
          ∙ ap some same,
    )
    | inr (apart, there) ↦
        let (at, stands) = a k x there in
        (at, lookup-insert_ne (g v) (g x) v n (key_ne (g v) (g x) x n free stands) ∙ stands)
  ]

  pub Agree-delete :
      (v : V)
      → Agree f m g n
      → lookup (g v) n ≡ some v
      → Agree f (delete (f v) m) g (delete (g v) n)
  Agree-delete v a in_n k x h =
      let (apart, there) = lookup-delete_cases (f v) k x m h in
      let (at, stands) = a k x there in
      (
        at,
        lookup-delete_ne (g v) (g x) n (
              ==_false (g v) (g x) (λ same.
                let one : some v ≡ some x = sym in_n ∙ ap (λ j. lookup j n) same ∙ stands in
                let key : f v ≡ k = let vx : v ≡ x = cc in ap f vx ∙ at in
                false≢true (sym apart ∙ (e.beq_iff (f v) k).1 key)))
            ∙ stands,
      )

  -- Only what the maps return matters.
  pub Agree-ext :
      (m' : Map K V) (n' : Map J V)
      → ((k : K) → lookup k m' ≡ lookup k m)
      → ((j : J) → lookup j n' ≡ lookup j n)
      → Agree f m g n
      → Agree f m' g n'
  Agree-ext m' n' em en a k v h =
      let (at, stands) = a k v (sym (em k) ∙ h) in (at, en (g v) ∙ stands)
