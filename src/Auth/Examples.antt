-- ===== src/Auth/Examples.antt =====
-- Failed logins of one user, and the session of another.
use null_private.Prelude.{ℕ, ◌≡◌, refl, true, some, List, [], ◌∷◌, arith}
use null_private.Prelude.Int.{pos}
use null_private.Prelude.Map.{lookup, string_eq, bytes_eq}
use null_private.Auth.RateLimiter.{AuthRateLimiter, check}
use null_private.Auth.RateLimiter.Blocking.{attempts, check-attempts}
use null_private.Auth.Sessions.{
  Session, User, UserDb, SessionStorage, bbolt_encode, bbolt_decode, load_sessions, new_session,
}
use null_private.Auth.Sessions.Codec.{bbolt_decode-bbolt_encode}
use null_private.Auth.Sessions.Storage.{load-new_session}

-- two attempts, then 15 minutes
abbrev limiter₀ : AuthRateLimiter
limiter₀ = record { failed_auths = []; block_dur = 900_000_000_000; max_attempts = 2 }

-- Failures at 10 s and 20 s block a user at 30 s for the 890 s that are left.
check-attempts_example :
    (check "admin" 30_000_000_000
      (attempts "admin" limiter₀ (10_000_000_000 ∷ 20_000_000_000 ∷ []))).1
    ≡ pos 890_000_000_000
unfolding lookup
check-attempts_example =
    check-attempts "admin" limiter₀ 10_000_000_000 (20_000_000_000 ∷ []) 30_000_000_000 tt refl
      (ground arith) (omega arith) (omega arith)

-- the login "a", until 100.5 s
abbrev session₀ : Session
session₀ = record { token = 7 ∷ []; user_id = 1; user_login = 97 ∷ []; expire = 100_500_000_000 }

abbrev bytes₀ : List ℕ
bytes₀ = 0 ∷ 0 ∷ 0 ∷ 100 ∷ 0 ∷ 1 ∷ 97 ∷ []

abbrev decoded₀ : Session
decoded₀ = record { token = []; user_id = 0; user_login = 97 ∷ []; expire = 100_000_000_000 }

bbolt_decode-bbolt_encode_example : bbolt_decode (bbolt_encode session₀) ≡ some decoded₀
bbolt_decode-bbolt_encode_example = bbolt_decode-bbolt_encode session₀

decode₀ : bbolt_decode bytes₀ ≡ some decoded₀
unfolding bbolt_decode
decode₀ = refl

abbrev user₀ : User
user₀ = record { id = 1; login = 97 ∷ [] }

abbrev users₀ : UserDb
users₀ login = some user₀

abbrev storage₀ : SessionStorage
storage₀ = record { bucket = some []; sessions = []; session_ttl = 90_000_000_000 }

load-new_session_example :
    (ds' : SessionStorage) × (load_sessions true users₀ 90_000_000_000 50_000_000_000
        (new_session true (7 ∷ []) 10_500_000_000 user₀ storage₀).0.bucket
      ≡ some ds')
    × (lookup (7 ∷ []) ds'.sessions ≡ some (record decoded₀ { token = 7 ∷ []; user_id = 1 }))
load-new_session_example =
    load-new_session users₀ (7 ∷ []) 10_500_000_000 50_000_000_000 90_000_000_000 user₀ storage₀
      (λ entries e. ground (arith, e)) refl (omega arith) (omega arith) (omega arith)
