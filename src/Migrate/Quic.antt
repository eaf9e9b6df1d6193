-- ===== src/Migrate/Quic.antt =====
-- internal/configmigrate/v10.go: the port that is added to the addresses of QUIC upstreams.
use Prim.Native.Char.{code}
use mathlib.Core.Option
use null_private.Prelude.{
  ℕ, String, Bool, true, false, ◌||◌, Option, none, some, ◌==◌, str_eq, if◌then◌else◌,
}
use null_private.Migrate.Env.{Env, Url}
use null_private.Migrate.Yaml.{
  Value, str, arr, Yobj, put_in, unexpected_type, Outcome, ok, fail, ◌>>=◌, arr_r, field_val,
  on_found, each_item,
}

-- `strings.CutPrefix`: the text behind a prefix
strip_prefix : String → String → Option String
strip_prefix String.[] s = some s
strip_prefix (String.◌∷◌ p ps) String.[] = none
strip_prefix (String.◌∷◌ p ps) (String.◌∷◌ c s) =
    if code p == code c then strip_prefix ps s else none

-- `strings.Cut`: the texts before and behind the first occurrence of a separator
cut : String → String → Option (String × String)
unfolding strip_prefix
cut sep String.[] = Option.map (λ rest. ("", rest)) (strip_prefix sep "")
cut sep (String.◌∷◌ c s) =
    let later = cut sep s in
    elim (strip_prefix sep (String.◌∷◌ c s)) [
      | some rest ↦ some ("", rest)
      | none ↦ Option.map (λ found_at. (String.◌∷◌ c found_at.0, found_at.1)) later
    ]

concat : String → String → String
concat String.[] t = t
concat (String.◌∷◌ c s) t = String.◌∷◌ c (concat s t)

-- The part of a line of upstreams behind its domains, "[/domains/]upstream", and the text before it.
-- `none` where `strings.Split` does not give two parts.
split_domains : String → Option (String × String)
unfolding strip_prefix cut concat
split_domains ups = elim (strip_prefix "[/" ups) [
  | none ↦ some ("", ups)
  | some rest ↦ elim (cut "/]" rest) [
    | none ↦ none
    | some (doms, with_port) ↦ elim (cut "/]" with_port) [
      | none ↦ some (concat "[/" (concat doms "/]"), with_port)
      | some _ ↦ none
    ]
  ]
]

-- The first byte of a line is '#'.
is_comment : String → Bool
is_comment String.[] = false
is_comment (String.◌∷◌ c s) = code c == b'#'

-- The end of `addQUICPort`, for an upstream whose URL parsed.
quic_with_port : Env → String → String → String → Url → String
unfolding concat
quic_with_port env ups doms port url = elim (str_eq url.scheme "quic") [
  | false ↦ ups
  | true ↦ elim (env.split_host url.host) [
    | none ↦ ups
    | some host ↦
        if str_eq host url.host
        then concat doms (url.with_host (concat host (concat ":" port)))
        else ups
  ]
]

unfoldable pub add_quic_port : Env → String → String → String
unfolding split_domains is_comment quic_with_port cut
add_quic_port env port ups =
    if str_eq ups "" || is_comment ups then ups else elim (split_domains ups) [
      | none ↦ ups
      | some (doms, with_port) ↦ elim (cut "://" with_port) [
        | none ↦ ups
        | some _ ↦ elim (env.parse_url with_port) [
          | none ↦ ups
          | some url ↦ quic_with_port env ups doms port url
        ]
      ]
    ]

-- The body of the loop of `addQUICPorts`.
abbrev add_port_to : Env → ℕ → Value → Outcome Value
add_port_to env i (str u) = ok (str (add_quic_port env "784" u))
add_port_to env i v = fail (unexpected_type "upstream")

-- One of the two lists of upstreams in the map `dns`.
unfoldable pub add_quic_ports : Env → String → Yobj → Outcome Yobj
unfolding field_val
add_quic_ports env k dns =
    on_found (field_val arr_r dns k) k dns
      λ ups. do ups' ← each_item (add_port_to env) 0 ups; put_in k (arr ups') dns
