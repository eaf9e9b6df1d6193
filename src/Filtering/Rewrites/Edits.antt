-- ===== src/Filtering/Rewrites/Edits.antt =====
-- internal/filtering/rewritehttp.go: what the requests that change the rewrites do to them, once their
-- JSON is read.
use null_private.Prelude.{
  ◌≡◌, refl, ap, ◌⊎◌, inl, inr, Bool, true, false, ◌&&◌, Option, none, some, List, [], ◌∷◌, ◌++◌,
  arith, if◌then◌else◌, Bool-cases,
}
use null_private.Prelude.Map.{◌==◌, bytes_eq}
use null_private.Dhcp.Lease.{zero_addr}
use null_private.Filtering.Rewrites.{Text, LegacyRewrite, Texts, equal, normalize}

abbrev pub new_rewrite : Text → Text → LegacyRewrite
new_rewrite domain answer = record { domain = domain; answer = answer; ip = zero_addr; type = 0 }

unfoldable pub handle_rewrite_add : Texts → Text → Text → List LegacyRewrite → List LegacyRewrite
handle_rewrite_add texts domain answer entries =
    entries ++ (normalize texts (new_rewrite domain answer) ∷ [])

abbrev remove_equal : LegacyRewrite → List LegacyRewrite → List LegacyRewrite
remove_equal gone [] = []
remove_equal gone (e ∷ entries) =
    let rest = remove_equal gone entries in if equal e gone then rest else e ∷ rest

unfoldable pub handle_rewrite_delete : Text → Text → List LegacyRewrite → List LegacyRewrite
handle_rewrite_delete domain answer entries = remove_equal (new_rewrite domain answer) entries

-- `slices.IndexFunc` and `slices.Replace`; `none` where there is no such entry.
abbrev replace_first :
    LegacyRewrite → LegacyRewrite → List LegacyRewrite → Option (List LegacyRewrite)
replace_first target new [] = none
replace_first target new (e ∷ entries) =
    let rest = replace_first target new entries in
    if equal target e
    then some (new ∷ entries)
    else elim rest [ none ↦ none | some es ↦ some (e ∷ es) ]

-- `none` is the error that the target is not found, which changes nothing.
unfoldable pub handle_rewrite_update :
    Texts → Text → Text → Text → Text → List LegacyRewrite → Option (List LegacyRewrite)
handle_rewrite_update texts domain answer new_domain new_answer entries =
    replace_first (new_rewrite domain answer) (normalize texts (new_rewrite new_domain new_answer))
      entries

-- Whether an entry has the domain and the answer.
abbrev pub is_listed : Text → Text → List LegacyRewrite → Bool
is_listed domain answer [] = false
is_listed domain answer (e ∷ entries) =
    if (e.domain == domain) && (e.answer == answer) then true else is_listed domain answer entries

normalize-names :
    (texts : Texts) (domain answer : Text)
    → ((normalize texts (new_rewrite domain answer)).domain ≡ texts.lower domain)
      × ((normalize texts (new_rewrite domain answer)).answer ≡ answer)
unfolding normalize
normalize-names texts domain answer = ground arith

remove_equal-add :
    (domain answer : Text) (added : LegacyRewrite) (entries : List LegacyRewrite)
    → is_listed domain answer entries ≡ false
    → added.domain ≡ domain
    → added.answer ≡ answer
    → remove_equal (new_rewrite domain answer) (entries ++ (added ∷ [])) ≡ entries
unfolding equal
remove_equal-add domain answer added [] new d a =
    ground (
      arith,
      (bytes_eq.beq_iff added.domain domain).1 d,
      (bytes_eq.beq_iff added.answer answer).1 a,
    )
remove_equal-add domain answer added (e ∷ entries) new d a =
    ground (arith, new, remove_equal-add domain answer added entries)

-- An added rewrite is found again under its lower-case domain and its answer: where there was none with
-- these, a deletion gives back the entries as they were before it was added.
pub handle_rewrite_delete-handle_rewrite_add :
    (texts : Texts) (domain answer : Text) (entries : List LegacyRewrite)
    → is_listed (texts.lower domain) answer entries ≡ false
    → handle_rewrite_delete
        (texts.lower domain)
        answer
        (handle_rewrite_add texts domain answer entries)
      ≡ entries
unfolding handle_rewrite_delete handle_rewrite_add
handle_rewrite_delete-handle_rewrite_add texts domain answer entries new =
    let (d, a) = normalize-names texts domain answer in
    remove_equal-add (texts.lower domain) answer (normalize texts (new_rewrite domain answer))
      entries new d a

-- An update changes the first entry with the domain and the answer, and no other; where there is none it
-- is refused.
pub handle_rewrite_update_lem :
    (texts : Texts) (domain answer new_domain new_answer : Text) (entries : List LegacyRewrite)
    → ((is_listed domain answer entries ≡ false)
        × (handle_rewrite_update texts domain answer new_domain new_answer entries ≡ none))
      ⊎ ((before after : List LegacyRewrite) × (e : LegacyRewrite) × (entries
            ≡ before ++ (e ∷ after))
          × (is_listed domain answer before ≡ false)
          × (e.domain ≡ domain)
          × (e.answer ≡ answer)
          × (handle_rewrite_update texts domain answer new_domain new_answer entries
              ≡ some (before ++ (normalize texts (new_rewrite new_domain new_answer) ∷ after))))
unfolding handle_rewrite_update equal
handle_rewrite_update_lem texts domain answer new_domain new_answer [] = inl (refl, refl)
handle_rewrite_update_lem texts domain answer new_domain new_answer (e ∷ entries) =
    elim (Bool-cases ((e.domain == domain) && (e.answer == answer))) [
      | inl here ↦ inr (
        [],
        entries,
        e,
        refl,
        refl,
        ground (arith, here, bytes_eq.beq_iff e.domain domain),
        ground (arith, here, bytes_eq.beq_iff e.answer answer),
        ground (
          arith,
          here,
          bytes_eq.beq_iff e.domain domain,
          bytes_eq.beq_iff domain e.domain,
          bytes_eq.beq_iff e.answer answer,
          bytes_eq.beq_iff answer e.answer,
        ),
      )
      | inr away ↦
          elim (handle_rewrite_update_lem texts domain answer new_domain new_answer entries) [
            | inl (absent, refused) ↦ inl (
              ground (arith, away, absent),
              ground (
                arith,
                away,
                refused,
                bytes_eq.beq_iff e.domain domain,
                bytes_eq.beq_iff domain e.domain,
                bytes_eq.beq_iff e.answer answer,
                bytes_eq.beq_iff answer e.answer,
              ),
            )
            | inr (before, after, x, split, absent, d, a, out) ↦ inr (
              e ∷ before,
              after,
              x,
              ap (◌∷◌ e) split,
              ground (arith, away, absent),
              d,
              a,
              ground (
                arith,
                away,
                out,
                bytes_eq.beq_iff e.domain domain,
                bytes_eq.beq_iff domain e.domain,
                bytes_eq.beq_iff e.answer answer,
                bytes_eq.beq_iff answer e.answer,
              ),
            )
          ]
    ]
