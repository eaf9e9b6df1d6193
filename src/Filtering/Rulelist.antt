-- ===== src/Filtering/Rulelist.antt =====
-- internal/filtering/rulelist/parser.go: what is kept of a list of filtering rules. A line is its bytes;
-- the lines are those that `bufio.Scanner` finds, and what is written is the list of rules. Writing does
-- not fail. `bytes.TrimSpace`, `bytes.EqualFold` and `crc32.Update` are parameters.
mod Examples
pub mod Again
use null_private.Prelude.{
  ℕ, zero, suc, ◌+◌, Bool, true, false, not, ◌&&◌, ◌||◌, Option, none, some, List, [], ◌∷◌, ◌++◌,
  length, take, drop, ltb, ◌==◌ as nat_eqb, if◌then◌else◌,
}
use null_private.Prelude.Map.{Eq, ◌==◌, bytes_eq}
use null_private.Filtering.Rewrites.{Text}

pub record Bytes : Type 0 where
  pub trim_space : Text → Text
  pub equal_fold : Text → Text → Bool
  pub crc_update : ℕ → Text → ℕ

pub record Parser : Type 0 where
  pub title : Text
  pub rules_count : ℕ
  pub written : ℕ
  pub checksum : ℕ
  pub title_found : Bool

abbrev pub new_parser : Parser
new_parser = record { title = []; rules_count = 0; written = 0; checksum = 0; title_found = false }

-- The index, in the trimmed line, of a byte of a binary file.
pub data ParseError : Type 0 where
  html : ParseError
  binary : ℕ → ParseError

-- `ParseResult`, which is returned with an error as well.
pub record ParseResult : Type 0 where
  pub parsed_title : Text
  pub parsed_count : ℕ
  pub bytes_written : ℕ
  pub parsed_checksum : ℕ

unfoldable pub result : Parser → ParseResult
result p = record {
  parsed_title = p.title;
  parsed_count = p.rules_count;
  bytes_written = p.written;
  parsed_checksum = p.checksum;
}

abbrev text_html : Text
text_html = 60 ∷ 104 ∷ 116 ∷ 109 ∷ 108 ∷ []

abbrev text_doctype : Text
text_doctype = 60 ∷ 33 ∷ 100 ∷ 111 ∷ 99 ∷ 116 ∷ 121 ∷ 112 ∷ 101 ∷ []

-- `! Title: `
abbrev title_pattern : Text
title_pattern = 33 ∷ 32 ∷ 84 ∷ 105 ∷ 116 ∷ 108 ∷ 101 ∷ 58 ∷ 32 ∷ []

unfoldable pub has_prefix_fold : Bytes → Text → Text → Bool
has_prefix_fold bytes b prefix =
    not (ltb (length b) (length prefix)) && bytes.equal_fold (take (length prefix) b) prefix

unfoldable pub is_html_line : Bytes → Text → Bool
is_html_line bytes line =
    has_prefix_fold bytes line text_html || has_prefix_fold bytes line text_doctype

unfoldable pub likely_binary : ℕ → Bool
likely_binary b =
    (ltb b 32 || nat_eqb b 127) && (not (nat_eqb b 10) && (not (nat_eqb b 13) && not (nat_eqb b 9)))

-- `slices.IndexFunc(line, likelyBinary)`
unfoldable pub first_binary : Text → Option ℕ
first_binary [] = none
first_binary (b ∷ bs) =
    let later = first_binary bs in
    if likely_binary b then some 0 else elim later [ none ↦ none | some i ↦ some (suc i) ]

-- What a line is: a rule, nothing, or binary at an index.
pub data Line : Type 0 where
  rule nothing : Line
  bad : ℕ → Line

abbrev pub rule_or_bad : Option ℕ → Line
rule_or_bad none = rule
rule_or_bad (some i) = bad i

-- `#` is 35, `!` is 33.
unfoldable pub parse_line : Text → Line
parse_line [] = nothing
parse_line (b ∷ bs) =
    if nat_eqb b 35 || nat_eqb b 33 then nothing else rule_or_bad (first_binary (b ∷ bs))

abbrev has_title : Text → Bool
has_title line = not (ltb (length line) 9) && (take 9 line == title_pattern)

-- A title of spaces only is nil, and is no title.
abbrev with_title : Bytes → Text → Parser → Parser
with_title bytes line p = elim (bytes.trim_space (drop 9 line)) [
  | [] ↦ p
  | b ∷ bs ↦ record p { title = b ∷ bs; title_found = true }
]

unfoldable pub parse_line_title : Bytes → Text → Parser → Line × Parser
parse_line_title bytes [] p = (nothing, p)
parse_line_title bytes (b ∷ bs) p =
    if nat_eqb b 35
    then (nothing, p)
    else if not (nat_eqb b 33)
    then (rule_or_bad (first_binary (b ∷ bs)), p)
    else if has_title (b ∷ bs)
    then (nothing, with_title bytes (b ∷ bs) p)
    else (nothing, p)

-- A line adds its rule, if it has one, or ends the parsing.
pub data Processed : Type 0 where
  kept : Parser → List Text → Processed
  failed : Parser → ParseError → Processed

abbrev pub with_rule : Bytes → Text → Parser → Parser
with_rule bytes trimmed p = record p {
  rules_count = suc p.rules_count;
  checksum = bytes.crc_update p.checksum trimmed;
  written = p.written + suc (length trimmed);
}

abbrev pub of_line : Bytes → Text → Line × Parser → Processed
of_line bytes trimmed (bad i, p) = failed p (binary i)
of_line bytes trimmed (nothing, p) = kept p []
of_line bytes trimmed (rule, p) = kept (with_rule bytes trimmed p) (trimmed ∷ [])

-- `processLine`, and the count of the bytes written in `Parse`.
unfoldable pub process_line : Bytes → Text → Parser → Processed
process_line bytes line p =
    let trimmed : Text = bytes.trim_space line in
    if nat_eqb p.written 0 && is_html_line bytes trimmed
    then failed p html
    else of_line bytes trimmed
        (if p.title_found then (parse_line trimmed, p) else parse_line_title bytes trimmed p)

-- The loop of `Parse`: the parser at the end, the rules written, and the error.
unfoldable pub parse : Bytes → List Text → Parser → Parser × List Text × Option ParseError
parse bytes [] p = (p, [], none)
parse bytes (line ∷ lines) p = elim (process_line bytes line p) [
  | failed p' e ↦ (p', [], some e)
  | kept p' rules ↦ (let (q, rest, e) = parse bytes lines p' in (q, rules ++ rest, e))
]
