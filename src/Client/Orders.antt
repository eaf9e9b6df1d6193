-- ===== src/Client/Orders.antt =====
-- An order of addresses as `netip.Addr.Compare` has it: the zero address, then IPv4, then IPv6, by
-- number, then by zone. It is what the tests take for it.
use Prim.Native.Nat.{Ordering, compare as compare_ℕ}
use Prim.Native.Nat.Ordering.{lt, eq, gt}
use Prim.Native.Char.{Char, code}
use Prim.Native.String.compare
use Prim.Native.String.{[], ◌∷◌, compare, then}
use null_private.Prelude.{String, ◌≡◌, refl, subst, ◌∙◌, arith}
use text.Mathlib.TextEquality.{path_by_compare}
use text.Mathlib.TextPositions.{compare_refl}
use null_private.Dhcp.Lease.{Addr, zero_addr, v4, v6}
use null_private.Aghalg.SortedMap.{IsOrder}

-- The clauses of the comparison of texts, as one equation each.
of_nil : (d : Char) (t : String) → compare [] (d ∷ t) ≡ lt
of_nil d t = compare.nil-cons d t

to_nil : (c : Char) (s : String) → compare (c ∷ s) [] ≡ gt
to_nil c s = compare.cons-nil c s

of_cons :
    (c d : Char) (s t : String)
    → compare (c ∷ s) (d ∷ t)
      ≡ elim (compare_ℕ (code c) (code d)) [ lt ↦ lt | eq ↦ compare s t | gt ↦ gt ]
of_cons c d s t = compare.cons-cons c d s t ∙ step (compare_ℕ (code c) (code d)) (compare s t)
  where
    step : (o r : Ordering) → then o r ≡ elim o [ lt ↦ lt | eq ↦ r | gt ↦ gt ]
    step lt r = refl
    step eq r = refl
    step gt r = refl

text_refl : (s : String) → compare s s ≡ eq
text_refl s = compare_refl s

flip :
    (s t : String) → (compare s t ≡ gt → compare t s ≡ lt) × (compare s t ≡ lt → compare t s ≡ gt)
flip [] [] = ground (arith, text_refl [])
flip [] (d ∷ t) = ground (arith, of_nil d t, to_nil d t)
flip (c ∷ s) [] = ground (arith, of_nil c s, to_nil c s)
flip (c ∷ s) (d ∷ t) = ground (arith, flip s t, of_cons c d s t, of_cons d c t s)

text_trans : (s t u : String) → compare s t ≡ lt → compare t u ≡ lt → compare s u ≡ lt
text_trans [] [] u = ground (arith, text_refl [])
text_trans [] (d ∷ t) [] = ground (arith, to_nil d t)
text_trans [] (d ∷ t) (e ∷ u) = ground (arith, of_nil e u)
text_trans (c ∷ s) [] u = ground (arith, to_nil c s)
text_trans (c ∷ s) (d ∷ t) [] = ground (arith, to_nil d t)
text_trans (c ∷ s) (d ∷ t) (e ∷ u) =
    ground (arith, of_cons c d s t, of_cons d e t u, of_cons c e s u, text_trans s t u)

abbrev pub addr_compare : Addr → Addr → Ordering
addr_compare zero_addr zero_addr = eq
addr_compare zero_addr _ = lt
addr_compare (v4 a) zero_addr = gt
addr_compare (v4 a) (v4 b) = compare_ℕ a b
addr_compare (v4 a) (v6 b z) = lt
addr_compare (v6 a y) (v6 b z) = elim (compare_ℕ a b) [ lt ↦ lt | eq ↦ compare y z | gt ↦ gt ]
addr_compare (v6 a y) _ = gt

pub addr_compare-IsOrder : IsOrder addr_compare
addr_compare-IsOrder = record {
  zero_iff = λ a b. (same a b, λ e. subst (λ x. addr_compare a x ≡ eq) e (self a));
  turned_iff = λ a b. ((turned a b).1, (turned b a).0);
  chained = chained;
}
  where
    self : (a : Addr) → addr_compare a a ≡ eq
    self zero_addr = refl
    self (v4 a) = ground arith
    self (v6 a z) = ground (arith, text_refl z)

    same : (a b : Addr) → addr_compare a b ≡ eq → a ≡ b
    same zero_addr b = ground arith
    same (v4 a) b = ground arith
    same (v6 a y) zero_addr = ground arith
    same (v6 a y) (v4 b) = ground arith
    same (v6 a y) (v6 b z) = ground (arith, path_by_compare y z)

    turned :
        (a b : Addr)
        → (addr_compare a b ≡ gt → addr_compare b a ≡ lt)
          × (addr_compare a b ≡ lt → addr_compare b a ≡ gt)
    turned zero_addr b = ground arith
    turned (v4 a) b = ground arith
    turned (v6 a y) zero_addr = ground arith
    turned (v6 a y) (v4 b) = ground arith
    turned (v6 a y) (v6 b z) = ground (arith, flip y z)

    chained : (a b c : Addr) → addr_compare a b ≡ lt → addr_compare b c ≡ lt → addr_compare a c ≡ lt
    chained zero_addr b c = ground arith
    chained (v4 a) b c = ground arith
    chained (v6 a x) zero_addr c = ground arith
    chained (v6 a x) (v4 b) c = ground arith
    chained (v6 a x) (v6 b y) zero_addr = ground arith
    chained (v6 a x) (v6 b y) (v4 c) = ground arith
    chained (v6 a x) (v6 b y) (v6 c z) = ground (arith, text_trans x y z)
