-- ===== src/Stats/Unit.antt =====
-- internal/stats/unit.go: the counters of a unit, which is an hour, and `Update` of stats.go, which
-- counts a request. Counters are 64 bits wide.
pub mod Counts
use null_private.Prelude.{
  ℕ, zero, suc, ◌+◌, ◌/◌, ◌%◌, ◌*◌, ◌^◌, String, Bool, true, false, not, ◌&&◌, ◌||◌, Option, none,
  some, List, [], ◌∷◌, ltb, leb, ◌==◌ as nat_eqb, str_eq, if◌then◌else◌,
}
use null_private.Prelude.Map.{Eq, Map, lookup, insert, string_eq}

abbrev pub r_not_filtered : ℕ
r_not_filtered = 1

abbrev result_last : ℕ
result_last = 6

-- `proxy.UpstreamStatistics`, as far as it is read: a duration in microseconds.
pub record UpstreamStatistics : Type 0 where
  pub address : String
  pub query_duration : ℕ
  pub is_cached : Bool
  pub failed : Bool

-- A result is not negative; the processing time is in microseconds.
pub record Entry : Type 0 where
  pub client : String
  pub domain : String
  pub upstream_stats : List UpstreamStatistics
  pub result : ℕ
  pub processing_time : ℕ

pub data EntryError : Type 0 where
  no_result empty_domain empty_client : EntryError
  unknown_result : ℕ → EntryError

unfoldable pub validate_entry : Entry → Option EntryError
validate_entry e =
    if nat_eqb e.result 0
    then some no_result
    else if leb result_last e.result
    then some (unknown_result e.result)
    else if str_eq e.domain ""
    then some empty_domain
    else if str_eq e.client ""
    then some empty_client
    else none

pub record StatsUnit : Type 0 where
  pub domains : Map String ℕ
  pub blocked_domains : Map String ℕ
  pub clients : Map String ℕ
  pub upstreams_responses : Map String ℕ
  pub upstreams_time_sum : Map String ℕ
  pub n_result : List ℕ
  pub id : ℕ
  pub n_total : ℕ
  pub time_sum : ℕ

abbrev pub new_unit : ℕ → StatsUnit
new_unit id = record {
  domains = [];
  blocked_domains = [];
  clients = [];
  upstreams_responses = [];
  upstreams_time_sum = [];
  n_result = 0 ∷ 0 ∷ 0 ∷ 0 ∷ 0 ∷ 0 ∷ [];
  id = id;
  n_total = 0;
  time_sum = 0;
}

abbrev pub add64 : ℕ → ℕ → ℕ
add64 a b = (a + b) % 2 ^ 64

-- A counter that is missing reads as zero.
abbrev pub count_of : String → Map String ℕ → ℕ
count_of k m = elim (lookup k m) [ none ↦ 0 | some n ↦ n ]

-- `m[k] += n`
unfoldable pub add_count : String → ℕ → Map String ℕ → Map String ℕ
add_count k n m = insert k (add64 (count_of k m) n) m

-- `ns[i]++`; an index out of range, at which the code panics, leaves the list. `Update` lets none pass.
abbrev pub inc_at : ℕ → List ℕ → List ℕ
inc_at i [] = []
inc_at zero (n ∷ ns) = add64 n 1 ∷ ns
inc_at (suc i) (n ∷ ns) = n ∷ inc_at i ns

-- The loop over the upstreams: the responses, and the sums of their times.
unfoldable pub add_upstreams :
    List UpstreamStatistics → Map String ℕ × Map String ℕ → Map String ℕ × Map String ℕ
add_upstreams [] ms = ms
add_upstreams (s ∷ stats) ms = add_upstreams stats (
    if s.is_cached || s.failed
    then ms
    else (add_count s.address 1 ms.0, add_count s.address s.query_duration ms.1))

unfoldable pub add_entry : Entry → StatsUnit → StatsUnit
add_entry e u =
    let ups = add_upstreams e.upstream_stats (u.upstreams_responses, u.upstreams_time_sum) in
    record {
      domains =
          if nat_eqb e.result r_not_filtered then add_count e.domain 1 u.domains else u.domains;
      blocked_domains =
          if nat_eqb e.result r_not_filtered
          then u.blocked_domains
          else add_count e.domain 1 u.blocked_domains;
      clients = add_count e.client 1 u.clients;
      upstreams_responses = ups.0;
      upstreams_time_sum = ups.1;
      n_result = inc_at e.result u.n_result;
      id = u.id;
      n_total = add64 u.n_total 1;
      time_sum = add64 u.time_sum e.processing_time;
    }

-- `Update`: nothing is counted while the statistics are off or have no limit, an entry that is not
-- valid is dropped, and so is one for which there is no current unit.
unfoldable pub update : Bool → ℕ → Entry → Option StatsUnit → Option StatsUnit
update enabled limit e curr =
    if not enabled || nat_eqb limit 0 then curr else elim (validate_entry e) [
      | some error ↦ curr
      | none ↦ elim curr [ none ↦ none | some u ↦ some (add_entry e u) ]
    ]
