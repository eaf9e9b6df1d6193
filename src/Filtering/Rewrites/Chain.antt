-- ===== src/Filtering/Rewrites/Chain.antt =====
-- What the outcome of the rewrites says: a chain of CNAMEs, and the addresses at its end.
use mathlib.Core.List.{Memᴰ}
use mathlib.Core.List.Memᴰ
use mathlib.Core.List.Memᴰ.{head, tail}
use null_private.Prelude.{
  ℕ, ◌≡◌, refl, sym, subst, ◌⊎◌, inl, inr, true, ◌||◌, ◌&&◌, List, [], ◌∷◌, ◌++◌, arith,
  ◌==◌ as nat_eqb, Bool-cases,
}
use null_private.Dhcp.Lease.{Addr, zero_addr, addr_beq}
use null_private.Filtering.Outcome.{Outcome, rewritten, not_filtered_not_found}
use null_private.Filtering.Rewrites.{
  Text, LegacyRewrite, type_a, type_aaaa, type_cname, set_rewrite_result,
}
use null_private.Filtering.Rewrites.Select.{IsFor}

-- The host names that CNAMEs lead to.
pub data Chain (entries : List LegacyRewrite) (qtype : ℕ) : Text → Text → Type 0 where
  here : (host : Text) → Chain entries qtype host host
  hop :
      (host : Text) (r : LegacyRewrite) (end : Text)
      → IsFor entries host qtype r
      → nat_eqb r.type type_cname ≡ true
      → Chain entries qtype r.answer end
      → Chain entries qtype host end

pub Chain-trans :
    {entries : List LegacyRewrite} {qtype : ℕ} (a b c : Text)
    → Chain entries qtype a b
    → Chain entries qtype b c
    → Chain entries qtype a c
Chain-trans a b c (here h) after = after
Chain-trans a b c (hop h r e for_r cname before) after =
    hop a r c for_r cname (Chain-trans r.answer b c before after)

-- What the last step makes of the rewrites of a host.
pub record IsAnswer (P : LegacyRewrite → Type 0) (qtype : ℕ) (res res' : Outcome) : Type 0 where
  pub canon : res'.canon_name ≡ res.canon_name
  pub ips :
      (ip : Addr)
      → Memᴰ ip res'.ip_list
      → Memᴰ ip res.ip_list
        ⊎ ((x : LegacyRewrite) × P x × (nat_eqb x.type qtype ≡ true) × (x.ip ≡ ip))
  pub reason :
      (res'.reason ≡ res.reason)
      ⊎ ((x : LegacyRewrite) × P x
          × (nat_eqb x.type qtype ≡ true)
          × (addr_beq x.ip zero_addr ≡ true))

pub set_rewrite_result-IsAnswer :
    (P : LegacyRewrite → Type 0) (qtype : ℕ) (rws : List LegacyRewrite) (res : Outcome)
    → ((x : LegacyRewrite) → Memᴰ x rws → P x)
    → IsAnswer P qtype res (set_rewrite_result res rws qtype)
unfolding set_rewrite_result
set_rewrite_result-IsAnswer P qtype [] res all = record {
  canon = refl;
  ips = λ ip m. inl m;
  reason = inl refl;
}
set_rewrite_result-IsAnswer P qtype (r ∷ rws) res all =
    let all' : (x : LegacyRewrite) → Memᴰ x rws → P x = λ x m. all x (tail m) in
    let with_ip : Outcome = record res { ip_list = res.ip_list ++ (r.ip ∷ []) } in
    elim (Bool-cases (nat_eqb r.type qtype && (nat_eqb qtype type_a || nat_eqb qtype type_aaaa))) [
      | inr other ↦
          let out : set_rewrite_result res (r ∷ rws) qtype ≡ set_rewrite_result res rws qtype =
            rw other refl in
          subst (IsAnswer P qtype res) (sym out) (set_rewrite_result-IsAnswer P qtype rws res all')
      | inl typed ↦
          let typed' : nat_eqb r.type qtype ≡ true = ground (arith, typed) in
          elim (Bool-cases (addr_beq r.ip zero_addr)) [
            | inl zero ↦
                let out : set_rewrite_result res (r ∷ rws) qtype
                    ≡ record res { reason = not_filtered_not_found } =
                  rw (typed, zero) refl in
                subst (IsAnswer P qtype res) (sym out) (record {
                  canon = refl;
                  ips = λ ip m. inl m;
                  reason = inr (r, all r (head refl), typed', zero);
                })
            | inr real ↦
                let out : set_rewrite_result res (r ∷ rws) qtype
                    ≡ set_rewrite_result with_ip rws qtype =
                  rw (typed, real) refl in
                let rest = set_rewrite_result-IsAnswer P qtype rws with_ip all' in
                subst (IsAnswer P qtype res) (sym out) (record {
                  canon = rest.canon;
                  ips = λ ip m. elim (rest.ips ip m) [
                    | inr later ↦ inr later
                    | inl so_far ↦ elim (Memᴰ.append_cases res.ip_list so_far) [
                      | inl before ↦ inl before
                      | inr now ↦ inr (r, all r (head refl), typed', sym (Memᴰ.eq_of_singleton now))
                    ]
                  ];
                  reason = rest.reason;
                })
          ]
    ]

-- The outcome of a rewritten host: a chain of CNAMEs leads from the host to the canonical name, if one
-- is set; every address is that of an entry for the last host; and the outcome is "rewritten" except
-- where an entry for the last host is an exception of the question type.
pub record IsRewrite (entries : List LegacyRewrite) (qtype : ℕ) (host : Text) (res : Outcome)
    : Type 0 where
  pub last : Text
  pub chain : Chain entries qtype host last
  pub canon : (res.canon_name ≡ last) ⊎ ((res.canon_name ≡ []) × (last ≡ host))
  pub ips :
      (ip : Addr)
      → Memᴰ ip res.ip_list
      → (x : LegacyRewrite) × IsFor entries last qtype x
        × (nat_eqb x.type qtype ≡ true)
        × (x.ip ≡ ip)
  pub reason :
      (res.reason ≡ rewritten)
      ⊎ ((x : LegacyRewrite) × IsFor entries last qtype x
          × (nat_eqb x.type qtype ≡ true)
          × (addr_beq x.ip zero_addr ≡ true))
