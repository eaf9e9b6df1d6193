-- ===== src/Filtering/Examples.antt =====
-- A host with a wildcard rewrite to another that has an address, and what the requests to change the
-- rewrites do.
use null_private.Prelude.{◌≡◌, refl, Bool, true, false, none, some, List, [], ◌∷◌, arith}
use null_private.Dhcp.Lease.{v4, zero_addr}
use null_private.Filtering.Outcome.{Outcome, no_outcome}
use null_private.Filtering.Rewrites.{
  Text, LegacyRewrite, Texts, type_a, type_cname, find_rewrites, process_rewrites, collect,
  match_domain_wildcard, is_wildcard, matches_qtype, cut, compare_rewrites,
}
use null_private.Filtering.Rewrites.Select.{is_known}
use null_private.Filtering.Rewrites.Priority.{IsSelection, find_rewrites-IsSelection}
use null_private.Filtering.Rewrites.Terminates.{IsOutcome, process_rewrites-IsOutcome}
use null_private.Filtering.Rewrites.Edits.{
  handle_rewrite_add, handle_rewrite_delete, handle_rewrite_delete-handle_rewrite_add,
}
use null_private.Filtering.Check.{Checked, HostChecker, check_host, IsChecked, check_host-IsChecked}
use null_private.Filtering.Sorting.{sort_rewrites, sort_rewrites-IsSort}

-- a.b, c.b, and *.b
abbrev a_b : Text
a_b = 97 ∷ 46 ∷ 98 ∷ []

abbrev c_b : Text
c_b = 99 ∷ 46 ∷ 98 ∷ []

abbrev all_b : Text
all_b = 42 ∷ 46 ∷ 98 ∷ []

abbrev rewrites₀ : List LegacyRewrite
rewrites₀ =
    record { domain = c_b; answer = []; ip = v4 3; type = type_a }
    ∷ record { domain = all_b; answer = c_b; ip = zero_addr; type = type_cname }
    ∷ record { domain = a_b; answer = []; ip = v4 1; type = type_a }
    ∷ []

find_rewrites-IsSelection_example :
    IsSelection rewrites₀ a_b type_a (find_rewrites sort_rewrites rewrites₀ a_b type_a).0
    × ((find_rewrites sort_rewrites rewrites₀ a_b type_a).1 ≡ is_known rewrites₀ a_b)
find_rewrites-IsSelection_example =
    find_rewrites-IsSelection sort_rewrites sort_rewrites-IsSort rewrites₀ a_b type_a

process_rewrites-IsOutcome_example :
    (res : Outcome) × (process_rewrites sort_rewrites rewrites₀ type_a 4 a_b ≡ some res)
    × IsOutcome rewrites₀ type_a a_b res
    × (is_known rewrites₀ a_b ≡ false → res ≡ no_outcome)
process_rewrites-IsOutcome_example =
    process_rewrites-IsOutcome sort_rewrites sort_rewrites-IsSort rewrites₀ type_a 4 a_b
      (omega arith)

-- The exact entry is not used where a wildcard names another host.
a_b_outcome :
    (find_rewrites sort_rewrites rewrites₀ a_b type_a).0
    ≡ record { domain = all_b; answer = c_b; ip = zero_addr; type = type_cname } ∷ []
unfolding find_rewrites collect match_domain_wildcard is_wildcard matches_qtype cut compare_rewrites
a_b_outcome = refl

abbrev texts₀ : Texts
texts₀ = record { lower = λ t. t; parse_addr = λ t. none }

handle_rewrite_delete-handle_rewrite_add_example :
    handle_rewrite_delete a_b c_b (handle_rewrite_add texts₀ a_b c_b rewrites₀) ≡ rewrites₀
handle_rewrite_delete-handle_rewrite_add_example =
    handle_rewrite_delete-handle_rewrite_add texts₀ a_b c_b rewrites₀ refl

abbrev silent : HostChecker Bool
silent = record { check = λ host qtype setts. some no_outcome; name = "silent" }

abbrev lower₀ : Text → Text
lower₀ t = t

abbrev enabled₀ : Bool → Bool
enabled₀ b = b

check_host-IsChecked_example :
    (c : Checked) × (check_host sort_rewrites lower₀ enabled₀
        (silent ∷ [])
        rewrites₀
        4
        a_b
        type_a
        true
      ≡ some c)
    × IsChecked sort_rewrites lower₀ enabled₀ (silent ∷ []) rewrites₀ 4 a_b type_a true c
check_host-IsChecked_example =
    check_host-IsChecked sort_rewrites sort_rewrites-IsSort lower₀ enabled₀ (silent ∷ []) rewrites₀
      4 a_b type_a true (omega arith)
