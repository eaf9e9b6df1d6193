-- ===== src/Auth/RateLimiter.antt =====
-- internal/home/authratelimiter.go. Times and durations are counts of nanoseconds; the mutex makes
-- each call one step.
pub mod Blocking
use null_private.Prelude.{
  ℕ, ◌+◌, ◌*◌, ◌%◌, ◌^◌, String, Bool, true, false, Option, none, some, List, [], ◌∷◌, ltb, leb,
  if◌then◌else◌,
}
use null_private.Prelude.Int.{ℤ, pos, sub_ℕ}
use null_private.Prelude.Map.{Map, lookup, insert, delete, string_eq}

-- `failedAuthTTL`, one minute
abbrev pub failed_auth_ttl : ℕ
failed_auth_ttl = 60_000_000_000

pub record FailedAuth : Type 0 where
  pub until : ℕ
  pub num : ℕ

pub record AuthRateLimiter : Type 0 where
  pub failed_auths : Map String FailedAuth
  pub block_dur : ℕ
  pub max_attempts : ℕ

unfoldable pub new_auth_rate_limiter : ℕ → ℕ → AuthRateLimiter
new_auth_rate_limiter block_dur max_attempts = record {
  failed_auths = [];
  block_dur = block_dur;
  max_attempts = max_attempts;
}

-- The entries that the loop of `cleanupLocked` leaves.
unfoldable pub unexpired : ℕ → Map String FailedAuth → Map String FailedAuth
unexpired now [] = []
unexpired now ((k, v) ∷ m) =
    let rest = unexpired now m in if ltb v.until now then rest else (k, v) ∷ rest

unfoldable pub cleanup_locked : ℕ → AuthRateLimiter → AuthRateLimiter
unfolding unexpired
cleanup_locked now ab = record ab { failed_auths = unexpired now ab.failed_auths }

unfoldable pub check_locked : String → ℕ → AuthRateLimiter → ℤ
check_locked usr now ab = elim (lookup usr ab.failed_auths) [
  | none ↦ pos 0
  | some a ↦ if ltb a.num ab.max_attempts then pos 0 else sub_ℕ a.until now
]

-- The limiter after `check`, and the time left.
unfoldable pub check : String → ℕ → AuthRateLimiter → AuthRateLimiter × ℤ
check usr now ab = let ab' = cleanup_locked now ab in (ab', check_locked usr now ab')

-- `until` and `attNum` before the test against `maxAttempts`; `uint` wraps at 2^64.
abbrev next_failed : ℕ → Option FailedAuth → FailedAuth
next_failed now none = record { until = now + failed_auth_ttl; num = 1 }
next_failed now (some a) = record { until = a.until; num = (a.num + 1) % 2 ^ 64 }

unfoldable pub inc : String → ℕ → AuthRateLimiter → AuthRateLimiter
inc usr now ab =
    let a = next_failed now (lookup usr ab.failed_auths) in
    let until = if leb ab.max_attempts a.num then now + ab.block_dur else a.until in
    record ab { failed_auths = insert usr (record { until = until; num = a.num }) ab.failed_auths }

unfoldable pub remove : String → AuthRateLimiter → AuthRateLimiter
remove usr ab = record ab { failed_auths = delete usr ab.failed_auths }
