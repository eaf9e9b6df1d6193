-- ===== src/Auth/RateLimiter/Blocking.antt =====
-- When a user is blocked: by the last of `max_attempts` failures, and not before.
use null_private.Prelude.{
  ℕ, ◌+◌, ◌≤◌, ◌<◌, ◌^◌, ◌%◌, String, ◌≡◌, refl, ◌∙◌, Option, none, some, List, [], ◌∷◌, arith, ltb,
  leb, if◌then◌else◌, length, ◌==◌, eq_iff,
}
use null_private.Prelude.Int.{ℤ, pos, sub_ℕ}
use null_private.Prelude.Map.{Map, lookup, string_eq}
use null_private.Prelude.Map.Keys.{IsMap, insert-IsMap}
use null_private.Prelude.Map.Agree.{lookup-insert_self}
use null_private.Auth.RateLimiter.{
  FailedAuth, AuthRateLimiter, failed_auth_ttl, unexpired, cleanup_locked, check_locked, check, inc,
}

lookup-unexpired-none :
    (k : String) (now : ℕ) (m : Map String FailedAuth)
    → lookup k m ≡ none
    → lookup k (unexpired now m) ≡ none
unfolding lookup unexpired
lookup-unexpired-none k now [] h = refl
lookup-unexpired-none k now ((j, w) ∷ m) h = ground (arith, lookup-unexpired-none k now m)

-- The entry of a user after the clean-up.
abbrev pub kept : ℕ → Option FailedAuth → Option FailedAuth
kept now none = none
kept now (some a) = if ltb a.until now then none else some a

lookup-unexpired :
    (k : String) (now : ℕ) (m : Map String FailedAuth)
    → IsMap m
    → lookup k (unexpired now m) ≡ kept now (lookup k m)
unfolding lookup unexpired
lookup-unexpired k now [] h = refl
lookup-unexpired k now ((j, w) ∷ m) h =
    ground (arith, eq_iff j k, lookup-unexpired k now m, lookup-unexpired-none k now m)

unexpired-IsMap : (now : ℕ) (m : Map String FailedAuth) → IsMap m → IsMap (unexpired now m)
unfolding unexpired lookup
unexpired-IsMap now [] h = tt
unexpired-IsMap now ((j, w) ∷ m) h =
    ground (arith, unexpired-IsMap now m, lookup-unexpired-none j now m)

-- A failed login: the check that comes first, and the count.
abbrev pub attempt : String → AuthRateLimiter → ℕ → AuthRateLimiter
attempt usr ab now = inc usr now (check usr now ab).0

abbrev pub attempts : String → AuthRateLimiter → List ℕ → AuthRateLimiter
attempts usr ab [] = ab
attempts usr ab (now ∷ later) = attempts usr (attempt usr ab now) later

-- The entry of a user after a failed login, from the one before it.
abbrev pub failed_entry : ℕ → ℕ → ℕ → Option FailedAuth → FailedAuth
failed_entry max block now none = record {
  until = if leb max 1 then now + block else now + failed_auth_ttl;
  num = 1;
}
failed_entry max block now (some a) = record {
  until = if leb max ((a.num + 1) % 2 ^ 64) then now + block else a.until;
  num = (a.num + 1) % 2 ^ 64;
}

lookup-attempt :
    (usr : String) (ab : AuthRateLimiter) (now : ℕ)
    → IsMap ab.failed_auths
    → lookup usr (attempt usr ab now).failed_auths
      ≡ some (failed_entry ab.max_attempts ab.block_dur now (kept now (lookup usr ab.failed_auths)))
unfolding inc check cleanup_locked
lookup-attempt usr ab now h =
    lookup-insert_self usr _ _ ∙ ground (arith, lookup-unexpired usr now ab.failed_auths h)

attempt-limits :
    (usr : String) (ab : AuthRateLimiter) (now : ℕ)
    → ((attempt usr ab now).max_attempts ≡ ab.max_attempts)
      × ((attempt usr ab now).block_dur ≡ ab.block_dur)
unfolding inc check cleanup_locked
attempt-limits usr ab now = (refl, refl)

attempt-IsMap :
    (usr : String) (ab : AuthRateLimiter) (now : ℕ)
    → IsMap ab.failed_auths
    → IsMap (attempt usr ab now).failed_auths
unfolding inc check cleanup_locked
attempt-IsMap usr ab now h =
    insert-IsMap usr _ (unexpired now ab.failed_auths) (unexpired-IsMap now ab.failed_auths h)

abbrev pub last_of : ℕ → List ℕ → ℕ
last_of t [] = t
last_of t (u ∷ ts) = last_of u ts

abbrev pub AllBefore : ℕ → List ℕ → Type 0
AllBefore u [] = Unit {0}
AllBefore u (t ∷ ts) = (t ≤ u) × AllBefore u ts

-- Failures that follow one another while the entry has not expired, up to the limit.
attempts-entry :
    (usr : String) (ab : AuthRateLimiter) (num until t : ℕ) (ts : List ℕ)
    → IsMap ab.failed_auths
    → lookup usr ab.failed_auths ≡ some (record { until = until; num = num })
    → AllBefore until (t ∷ ts)
    → num + length (t ∷ ts) ≤ ab.max_attempts
    → ab.max_attempts < 2 ^ 64
    → lookup usr (attempts usr ab (t ∷ ts)).failed_auths
      ≡ some (record {
        until =
            if leb ab.max_attempts (num + length (t ∷ ts))
            then last_of t ts + ab.block_dur
            else until;
        num = num + length (t ∷ ts);
      })
attempts-entry usr ab num until t [] m h before le fits = lookup-attempt usr ab t m ∙ ground arith
attempts-entry usr ab num until t (u ∷ ts) m h before le fits =
    let next : lookup usr (attempt usr ab t).failed_auths
        ≡ some (record { until = until; num = num + 1 }) =
      lookup-attempt usr ab t m ∙ ground arith in
    let same = attempt-limits usr ab t in
    attempts-entry usr (attempt usr ab t) (num + 1) until u ts (attempt-IsMap usr ab t m) next
      (ground arith) (omega (arith, same.0)) (omega (arith, same.0))
    ∙ ground (arith, same.0, same.1)

-- The time left, for a user who is blocked until `until` and who checks at `now`.
abbrev pub time_left : ℕ → ℕ → ℤ
time_left until now = if ltb until now then pos 0 else sub_ℕ until now

attempts-limits :
    (usr : String) (ab : AuthRateLimiter) (ts : List ℕ)
    → ((attempts usr ab ts).max_attempts ≡ ab.max_attempts)
      × ((attempts usr ab ts).block_dur ≡ ab.block_dur)
attempts-limits usr ab [] = (refl, refl)
attempts-limits usr ab (t ∷ ts) =
    let (e₁, e₂) = attempt-limits usr ab t in
    let (h₁, h₂) = attempts-limits usr (attempt usr ab t) ts in (h₁ ∙ e₁, h₂ ∙ e₂)

attempts-IsMap :
    (usr : String) (ab : AuthRateLimiter) (ts : List ℕ)
    → IsMap ab.failed_auths
    → IsMap (attempts usr ab ts).failed_auths
attempts-IsMap usr ab [] m = m
attempts-IsMap usr ab (t ∷ ts) m =
    attempts-IsMap usr (attempt usr ab t) ts (attempt-IsMap usr ab t m)

check-entry :
    (usr : String) (ab : AuthRateLimiter) (now : ℕ) (a : FailedAuth)
    → IsMap ab.failed_auths
    → lookup usr ab.failed_auths ≡ some a
    → (check usr now ab).1 ≡ (if ltb a.num ab.max_attempts then pos 0 else time_left a.until now)
unfolding check check_locked cleanup_locked
check-entry usr ab now a m h = ground (arith, lookup-unexpired usr now ab.failed_auths m)

-- The entry after failures from the first on.
first-entry :
    (usr : String) (ab : AuthRateLimiter) (t : ℕ) (ts : List ℕ)
    → IsMap ab.failed_auths
    → lookup usr ab.failed_auths ≡ none
    → AllBefore (t + failed_auth_ttl) ts
    → length (t ∷ ts) ≤ ab.max_attempts
    → ab.max_attempts < 2 ^ 64
    → lookup usr (attempts usr ab (t ∷ ts)).failed_auths
      ≡ some (record {
        until =
            if leb ab.max_attempts (length (t ∷ ts))
            then last_of t ts + ab.block_dur
            else t + failed_auth_ttl;
        num = length (t ∷ ts);
      })
first-entry usr ab t [] m h before le fits = lookup-attempt usr ab t m ∙ ground arith
first-entry usr ab t (u ∷ ts) m h before le fits =
    let same = attempt-limits usr ab t in
    let next : lookup usr (attempt usr ab t).failed_auths
        ≡ some (record { until = t + failed_auth_ttl; num = 1 }) =
      lookup-attempt usr ab t m ∙ ground arith in
    attempts-entry usr (attempt usr ab t) 1 (t + failed_auth_ttl) u ts (attempt-IsMap usr ab t m)
      next before (omega (arith, same.0)) (omega (arith, same.0))
    ∙ ground (arith, same.0, same.1)

-- A user without an entry who fails to log in at most `max_attempts` times, each time within a minute
-- of the first, is blocked from the last of `max_attempts` failures on, for the time that is set, and
-- is not blocked after fewer.
pub check-attempts :
    (usr : String) (ab : AuthRateLimiter) (t : ℕ) (ts : List ℕ) (now : ℕ)
    → IsMap ab.failed_auths
    → lookup usr ab.failed_auths ≡ none
    → AllBefore (t + failed_auth_ttl) ts
    → length (t ∷ ts) ≤ ab.max_attempts
    → ab.max_attempts < 2 ^ 64
    → (check usr now (attempts usr ab (t ∷ ts))).1 ≡ (
        if length (t ∷ ts) == ab.max_attempts
        then time_left (last_of t ts + ab.block_dur) now
        else pos 0)
check-attempts usr ab t ts now m h before le fits =
    let (e₁, e₂) = attempts-limits usr ab (t ∷ ts) in
    check-entry usr (attempts usr ab (t ∷ ts)) now _ (attempts-IsMap usr ab (t ∷ ts) m)
      (first-entry usr ab t ts m h before le fits)
    ∙ ground (arith, e₁)
