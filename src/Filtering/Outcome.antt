-- ===== src/Filtering/Outcome.antt =====
-- internal/filtering/filtering.go: the outcome of a check. What is left out of it are the rules that
-- matched and the records of a `$dnsrewrite` rule.
use null_private.Prelude.{ℕ, String, Bool, false, not, ◌||◌, List, [], ◌∷◌, ◌==◌ as nat_eqb}
use null_private.Dhcp.Lease.{Addr}

pub data Reason : Type 0 where
  not_filtered_not_found not_filtered_allow_list not_filtered_error : Reason
  filtered_block_list filtered_safe_browsing filtered_parental filtered_invalid : Reason
  filtered_safe_search filtered_blocked_service : Reason
  rewritten rewritten_auto_hosts rewritten_rule : Reason

abbrev pub number_of : Reason → ℕ
number_of not_filtered_not_found = 0
number_of not_filtered_allow_list = 1
number_of not_filtered_error = 2
number_of filtered_block_list = 3
number_of filtered_safe_browsing = 4
number_of filtered_parental = 5
number_of filtered_invalid = 6
number_of filtered_safe_search = 7
number_of filtered_blocked_service = 8
number_of rewritten = 9
number_of rewritten_auto_hosts = 10
number_of rewritten_rule = 11

abbrev pub reason_eqb : Reason → Reason → Bool
reason_eqb a b = nat_eqb (number_of a) (number_of b)

unfoldable pub name_of : Reason → String
name_of not_filtered_not_found = "NotFilteredNotFound"
name_of not_filtered_allow_list = "NotFilteredWhiteList"
name_of not_filtered_error = "NotFilteredError"
name_of filtered_block_list = "FilteredBlackList"
name_of filtered_safe_browsing = "FilteredSafeBrowsing"
name_of filtered_parental = "FilteredParental"
name_of filtered_invalid = "FilteredInvalid"
name_of filtered_safe_search = "FilteredSafeSearch"
name_of filtered_blocked_service = "FilteredBlockedService"
name_of rewritten = "Rewrite"
name_of rewritten_auto_hosts = "RewriteEtcHosts"
name_of rewritten_rule = "RewriteRule"

-- `Reason.In`
abbrev pub is_in : Reason → List Reason → Bool
is_in r [] = false
is_in r (a ∷ reasons) = reason_eqb a r || is_in r reasons

abbrev pub matched : Reason → Bool
matched r = not (reason_eqb r not_filtered_not_found)

-- `Result`. A host name is its bytes.
pub record Outcome : Type 0 where
  pub canon_name : List ℕ
  pub service_name : String
  pub ip_list : List Addr
  pub reason : Reason
  pub is_filtered : Bool

abbrev pub no_outcome : Outcome
no_outcome = record {
  canon_name = [];
  service_name = "";
  ip_list = [];
  reason = not_filtered_not_found;
  is_filtered = false;
}
