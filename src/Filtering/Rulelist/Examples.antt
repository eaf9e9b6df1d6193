-- ===== src/Filtering/Rulelist/Examples.antt =====
-- A list of two rules with a comment and a title.
use null_private.Prelude.{◌+◌, ◌≡◌, refl, List, [], ◌∷◌, arith, length, ◌==◌, if◌then◌else◌}
use null_private.Prelude.Map.{bytes_beq}
use null_private.Filtering.Rewrites.{Text}
use null_private.Filtering.Rulelist.{
  Bytes, new_parser, parse, process_line, is_html_line, has_prefix_fold, parse_line,
  parse_line_title, first_binary, likely_binary,
}
use null_private.Filtering.Rulelist.Again.{IsAgain, parse-parse}

-- spaces at the front are trimmed
abbrev trim₀ : Text → Text
trim₀ [] = []
trim₀ (b ∷ bs) = let rest = trim₀ bs in if b == 32 then rest else b ∷ bs

trim₀_twice : (t : Text) → trim₀ (trim₀ t) ≡ trim₀ t
trim₀_twice [] = refl
trim₀_twice (b ∷ bs) = ground (arith, trim₀_twice bs)

abbrev bytes₀ : Bytes
bytes₀ = record { trim_space = trim₀; equal_fold = bytes_beq; crc_update = λ c t. c + length t }

-- ` ab`, `# c`, `! Title: x`, `d`
abbrev lines₀ : List Text
lines₀ =
    (32 ∷ 97 ∷ 98 ∷ [])
    ∷ (35 ∷ 32 ∷ 99 ∷ [])
    ∷ (33 ∷ 32 ∷ 84 ∷ 105 ∷ 116 ∷ 108 ∷ 101 ∷ 58 ∷ 32 ∷ 120 ∷ [])
    ∷ (100 ∷ [])
    ∷ []

parse-parse_example : IsAgain bytes₀ lines₀ new_parser (parse bytes₀ lines₀ new_parser)
unfolding parse process_line is_html_line has_prefix_fold parse_line parse_line_title first_binary
    likely_binary
parse-parse_example = parse-parse bytes₀ trim₀_twice lines₀ refl
