-- ===== src/Filtering/Rulelist/Again.antt =====
-- Which rules are written, and that they are parsed to themselves.
use null_private.Prelude.{
  ℕ, suc, ◌+◌, ◌≡◌, refl, sym, ap, ◌∙◌, subst, ◌⊎◌, inl, inr, Bool, true, false, not, ◌&&◌,
  if◌then◌else◌, Option, none, some, List, [], ◌∷◌, ◌++◌, arith, length, ◌==◌ as nat_eqb,
  Bool-cases,
}
use null_private.Filtering.Rewrites.{Text}
use null_private.Filtering.Rulelist.{
  Bytes, Parser, new_parser, ParseError, Line, rule, nothing, bad, parse_line, parse_line_title,
  with_rule, of_line, rule_or_bad, first_binary, Processed, kept, failed, is_html_line,
  process_line, parse,
}

-- A line that is neither empty nor a comment: comments start with `#`, 35, or with `!`, 33.
abbrev pub is_rule_line : Text → Bool
is_rule_line [] = false
is_rule_line (b ∷ bs) = not (nat_eqb b 35) && not (nat_eqb b 33)

-- The lines with a rule, trimmed.
abbrev pub rules_in : Bytes → List Text → List Text
rules_in bytes [] = []
rules_in bytes (line ∷ lines) =
    let later = rules_in bytes lines in
    let t : Text = bytes.trim_space line in if is_rule_line t then t ∷ later else later

parse_line-rule : (t : Text) → parse_line t ≡ rule → is_rule_line t ≡ true
unfolding parse_line
parse_line-rule [] h = absurd (ground (arith, h))
parse_line-rule (b ∷ bs) h = ground (arith, h)

rule_or_bad-nothing : (o : Option ℕ) → rule_or_bad o ≡ nothing → ⊥
rule_or_bad-nothing none h = ground (arith, h)
rule_or_bad-nothing (some i) h = ground (arith, h)

parse_line-nothing : (t : Text) → parse_line t ≡ nothing → is_rule_line t ≡ false
unfolding parse_line
parse_line-nothing [] h = refl
parse_line-nothing (b ∷ bs) h = ground (arith, h, rule_or_bad-nothing (first_binary (b ∷ bs)))

parse_line_title-nothing :
    (bytes : Bytes) (t : Text) (p : Parser)
    → (parse_line_title bytes t p).0 ≡ nothing
    → is_rule_line t ≡ false
unfolding parse_line_title
parse_line_title-nothing bytes [] p h = refl
parse_line_title-nothing bytes (b ∷ bs) p h =
    ground (arith, h, rule_or_bad-nothing (first_binary (b ∷ bs)))

-- Two parsers with the same counters.
pub record IsLike (p q : Parser) : Type 0 where
  pub rules_count : p.rules_count ≡ q.rules_count
  pub written : p.written ≡ q.written
  pub checksum : p.checksum ≡ q.checksum

IsLike-refl : (p : Parser) → IsLike p p
IsLike-refl p = record { rules_count = refl; written = refl; checksum = refl }

IsLike-with_rule :
    (bytes : Bytes) (t : Text) (p q : Parser)
    → IsLike p q
    → IsLike (with_rule bytes t p) (with_rule bytes t q)
IsLike-with_rule bytes t p q l = record {
  rules_count = ap suc l.rules_count;
  written = ap (λ n. n + suc (length t)) l.written;
  checksum = ap (λ c. bytes.crc_update c t) l.checksum;
}

module _ (bytes : Bytes) where
  -- With or without a title, the same lines are rules, and looking for a title changes no counter.
  title_of_rule :
      (t : Text) (p : Parser) → parse_line t ≡ rule → parse_line_title bytes t p ≡ (rule, p)
  unfolding parse_line parse_line_title
  title_of_rule [] p h = absurd (ground (arith, h))
  title_of_rule (b ∷ bs) p h = ground (arith, h)

  rule_of_title :
      (t : Text) (p : Parser) → (parse_line_title bytes t p).0 ≡ rule → parse_line t ≡ rule
  unfolding parse_line parse_line_title
  rule_of_title [] p h = absurd (ground (arith, h))
  rule_of_title (b ∷ bs) p h = ground (arith, h)

  title-IsLike : (t : Text) (p : Parser) → IsLike (parse_line_title bytes t p).1 p
  unfolding parse_line_title
  title-IsLike [] p = IsLike-refl p
  title-IsLike (b ∷ bs) p = record {
    rules_count = ground arith;
    written = ground arith;
    checksum = ground arith;
  }

  -- What a line that is not refused leaves.
  IsKept : Text → Parser → Parser → List Text → Type 0
  IsKept t p q rules =
      ((rules ≡ []) × IsLike q p × (is_rule_line t ≡ false))
      ⊎ ((rules ≡ t ∷ [])
          × (parse_line t ≡ rule)
          × ((nat_eqb p.written 0 && is_html_line bytes t) ≡ false)
          × IsLike q (with_rule bytes t p))

  of_line-IsKept :
      (t : Text) (p q : Parser) (rules : List Text) (l : Line × Parser)
      → (nat_eqb p.written 0 && is_html_line bytes t) ≡ false
      → IsLike l.1 p
      → (l.0 ≡ rule → parse_line t ≡ rule)
      → (l.0 ≡ nothing → is_rule_line t ≡ false)
      → of_line bytes t l ≡ kept q rules
      → IsKept t p q rules
  unfolding IsKept
  of_line-IsKept t p q rules (bad i, p') clean like is skipped h = absurd (ground (arith, h))
  of_line-IsKept t p q rules (nothing, p') clean like is skipped h =
      let same : q ≡ p' = ground (arith, h) in
      inl (ground (arith, h), subst (λ x. IsLike x p) (sym same) like, skipped refl)
  of_line-IsKept t p q rules (rule, p') clean like is skipped h =
      let same : q ≡ with_rule bytes t p' = ground (arith, h) in
      inr (
        ground (arith, h),
        is refl,
        clean,
        subst (λ x. IsLike x (with_rule bytes t p)) (sym same) (IsLike-with_rule bytes t p' p like),
      )

  process_line-IsKept :
      (line : Text) (p q : Parser) (rules : List Text)
      → process_line bytes line p ≡ kept q rules
      → IsKept (bytes.trim_space line) p q rules
  unfolding process_line
  process_line-IsKept line p q rules h =
      let t : Text = bytes.trim_space line in
      elim (Bool-cases (nat_eqb p.written 0 && is_html_line bytes t)) [
        | inl refused ↦ absurd (ground (arith, h, refused))
        | inr clean ↦ elim (Bool-cases p.title_found) [
          | inl found ↦
              of_line-IsKept t p q rules (parse_line t, p) clean (IsLike-refl p) (λ e. e)
                (parse_line-nothing t) (ground (arith, h, clean, found))
          | inr looking ↦
              of_line-IsKept t p q rules (parse_line_title bytes t p) clean (title-IsLike t p)
                (rule_of_title t p) (parse_line_title-nothing bytes t p)
                (ground (arith, h, clean, looking))
        ]
      ]

  -- A rule is processed to itself by a parser that looks for a title.
  rule_again :
      (t : Text) (p p' : Parser)
      → bytes.trim_space t ≡ t
      → parse_line t ≡ rule
      → (nat_eqb p.written 0 && is_html_line bytes t) ≡ false
      → IsLike p p'
      → p'.title_found ≡ false
      → process_line bytes t p' ≡ kept (with_rule bytes t p') (t ∷ [])
  unfolding process_line
  rule_again t p p' trimmed is clean like looking =
      let clean' : (nat_eqb p'.written 0 && is_html_line bytes t) ≡ false =
        subst (λ n. (nat_eqb n 0 && is_html_line bytes t) ≡ false) like.written clean in
      rw trimmed (ground (arith, clean', looking, title_of_rule t p' is))

  IsLike-trans : (p q r : Parser) → IsLike p q → IsLike q r → IsLike p r
  IsLike-trans p q r a b = record {
    rules_count = a.rules_count ∙ b.rules_count;
    written = a.written ∙ b.written;
    checksum = a.checksum ∙ b.checksum;
  }

  Processed-cases :
      (r : Processed)
      → ((q : Parser) × (rules : List Text) × (r ≡ kept q rules))
        ⊎ ((q : Parser) × (e : ParseError) × (r ≡ failed q e))
  Processed-cases (kept q rules) = inl (q, rules, refl)
  Processed-cases (failed q e) = inr (q, e, refl)

  -- How the loop goes on after a line.
  abbrev after : List Text → Processed → Parser × List Text × Option ParseError
  after lines (failed p e) = (p, [], some e)
  after lines (kept p rules) =
      ((parse bytes lines p).0, rules ++ (parse bytes lines p).1, (parse bytes lines p).2)

  parse_step :
      (line : Text) (lines : List Text) (p : Parser)
      → parse bytes (line ∷ lines) p ≡ after lines (process_line bytes line p)
  unfolding parse
  parse_step line lines p = elim (Processed-cases (process_line bytes line p)) [
    | inl (q, rules, keeps) ↦ ground (arith, keeps)
    | inr (q, e, fails) ↦ ground (arith, fails)
  ]

  -- The rules were written, and are written again, with the same counters.
  pub IsAgain : List Text → Parser → Parser × List Text × Option ParseError → Type 0
  IsAgain lines p' out =
      (out.1 ≡ rules_in bytes lines)
      × ((q' : Parser) × (parse bytes out.1 p' ≡ (q', out.1, none)) × IsLike out.0 q')

  parse-IsAgain :
      ((t : Text) → bytes.trim_space (bytes.trim_space t) ≡ bytes.trim_space t)
      → (lines : List Text) (p p' : Parser) → IsLike p p'
      → p'.title_found ≡ false
      → (parse bytes lines p).2 ≡ none
      → IsAgain lines p' (parse bytes lines p)
  unfolding parse IsAgain IsKept
  parse-IsAgain trims [] p p' like looking h = (refl, (p', refl, like))
  parse-IsAgain trims (line ∷ lines) p p' like looking h =
      elim (Processed-cases (process_line bytes line p)) [
        | inr (q, e, fails) ↦
            let step = parse_step line lines p ∙ ap (after lines) fails in
            absurd (ground (arith, sym (ap (λ x. x.2) step) ∙ h))
        | inl (p₁, rules, keeps) ↦
            let t : Text = bytes.trim_space line in
            let out : Parser × List Text × Option ParseError = parse bytes lines p₁ in
            let step : parse bytes (line ∷ lines) p ≡ (out.0, rules ++ out.1, out.2) =
              parse_step line lines p ∙ ap (after lines) keeps in
            let fine : out.2 ≡ none = sym (ap (λ x. x.2) step) ∙ h in
            elim (process_line-IsKept line p p₁ rules keeps) [
              | inl (no_rule, same, none_in) ↦
                  let step' : parse bytes (line ∷ lines) p ≡ out =
                    step ∙ ap (λ rs. (out.0, rs ++ out.1, out.2)) no_rule in
                  let (rules_eq, again) =
                    parse-IsAgain trims lines p₁ p' (IsLike-trans p₁ p p' same like) looking fine in
                  subst (IsAgain (line ∷ lines) p') (sym step')
                    (rules_eq ∙ ground (arith, none_in), again)
              | inr (one_rule, is, clean, same) ↦
                  let step' : parse bytes (line ∷ lines) p ≡ (out.0, t ∷ out.1, out.2) =
                    step ∙ ap (λ rs. (out.0, rs ++ out.1, out.2)) one_rule in
                  let again = rule_again t p p' (trims line) is clean like looking in
                  let (rules_eq, (q', rest, like')) =
                    parse-IsAgain trims lines p₁ (with_rule bytes t p')
                      (IsLike-trans p₁ (with_rule bytes t p) (with_rule bytes t p') same
                        (IsLike-with_rule bytes t p p' like))
                      looking fine in
                  let all : parse bytes (t ∷ out.1) p' ≡ (q', t ∷ out.1, none) =
                    parse_step t out.1 p'
                    ∙ ap (after out.1) again
                    ∙ ap (λ x. (x.0, t ∷ x.1, x.2)) rest in
                  subst (IsAgain (line ∷ lines) p') (sym step')
                    (ground (arith, rules_eq, parse_line-rule t is), (q', all, like'))
            ]
      ]

  -- Where a list is parsed without an error, the rules that are written are the trimmed lines, in order,
  -- without the empty ones and the comments, which start with `#` or `!`. When these rules are parsed,
  -- there is no error again, and they are written as they are, with the same number of rules, of bytes,
  -- and the same checksum. It is assumed that trimming a trimmed line changes nothing.
  pub parse-parse :
      ((t : Text) → bytes.trim_space (bytes.trim_space t) ≡ bytes.trim_space t)
      → (lines : List Text) → (parse bytes lines new_parser).2 ≡ none
      → IsAgain lines new_parser (parse bytes lines new_parser)
  parse-parse trims lines h =
      parse-IsAgain trims lines new_parser new_parser (IsLike-refl new_parser) refl h
