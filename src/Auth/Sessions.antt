-- ===== src/Auth/Sessions.antt =====
-- internal/aghuser/sessionstorage.go and session.go: web sessions, in memory and in the database.
-- The bbolt database is its one bucket, `none` until it is created; whether a transaction can be
-- begun and committed is an argument. Times are counts of nanoseconds.
pub mod Codec
pub mod Storage
use null_private.Prelude.{
  ℕ, zero, suc, ◌+◌, ◌-◌, ◌*◌, ◌/◌, ◌%◌, ◌^◌, String, Bool, true, false, not, Option, none, some,
  List, [], ◌∷◌, ◌++◌, ltb, ◌==◌, length, if◌then◌else◌,
}
use null_private.Prelude.Map.{Map, lookup, insert, delete, bytes_eq}

-- Tokens and logins are their bytes, a user's ID is a number.
pub record Session : Type 0 where
  pub token : List ℕ
  pub user_id : ℕ
  pub user_login : List ℕ
  pub expire : ℕ

pub record User : Type 0 where
  pub id : ℕ
  pub login : List ℕ

abbrev pub second : ℕ
second = 1_000_000_000

-- `binary.BigEndian.PutUint16` and `PutUint32`
abbrev pub put_uint16 : ℕ → List ℕ
put_uint16 n = (n / 2 ^ 8 % 2 ^ 8) ∷ (n % 2 ^ 8) ∷ []

abbrev pub put_uint32 : ℕ → List ℕ
put_uint32 n = (n / 2 ^ 24 % 2 ^ 8) ∷ (n / 2 ^ 16 % 2 ^ 8) ∷ (n / 2 ^ 8 % 2 ^ 8) ∷ (n % 2 ^ 8) ∷ []

-- `binary.BigEndian.Uint16` and `Uint32`, of bytes
abbrev pub uint16 : ℕ → ℕ → ℕ
uint16 a b = a * 2 ^ 8 + b

abbrev pub uint32 : ℕ → ℕ → ℕ → ℕ → ℕ
uint32 a b c d = a * 2 ^ 24 + b * 2 ^ 16 + c * 2 ^ 8 + d

-- `uint32(s.Expire.Unix())` and `uint16(len(s.UserLogin))`
unfoldable pub bbolt_encode : Session → List ℕ
bbolt_encode s =
    put_uint32 (s.expire / second % 2 ^ 32)
    ++ put_uint16 (length s.user_login % 2 ^ 16)
    ++ s.user_login

-- `none` is an error. The patterns are the test of the length.
unfoldable pub bbolt_decode : List ℕ → Option Session
bbolt_decode (a ∷ b ∷ c ∷ d ∷ e ∷ f ∷ name) =
    if length name == uint16 e f
    then some
        (record { token = []; user_id = 0; user_login = name; expire = uint32 a b c d * second })
    else none
bbolt_decode _ = none

pub record SessionStorage : Type 0 where
  pub bucket : Option (Map (List ℕ) (List ℕ))
  pub sessions : Map (List ℕ) Session
  pub session_ttl : ℕ

-- `now.After(s.Expire)`
abbrev pub expired : ℕ → Session → Bool
expired now s = ltb s.expire now

-- `userDB.ByLogin`
abbrev pub UserDb : Type 0
UserDb = List ℕ → Option User

-- The session that the handler of `bboltSessionHandler` keeps of an entry, `none` for an invalid one.
unfoldable pub stored_session : UserDb → ℕ → List ℕ → List ℕ → Option Session
stored_session users now k v = elim (bbolt_decode v) [
  | none ↦ none
  | some s ↦ elim (expired now s) [
    | true ↦ none
    | false ↦ elim (users s.user_login) [
      | none ↦ none
      | some u ↦ some (record s { token = k; user_id = u.id })
    ]
  ]
]

-- `bkt.ForEach` with the handler: the sessions that are loaded, and the entries that stay.
unfoldable pub process_sessions :
    UserDb → ℕ → Map (List ℕ) (List ℕ) → Map (List ℕ) Session × Map (List ℕ) (List ℕ)
process_sessions users now [] = ([], [])
process_sessions users now ((k, v) ∷ entries) =
    let (sessions, kept) = process_sessions users now entries in
    elim (stored_session users now k v) [
      | none ↦ (sessions, kept)
      | some s ↦ ((k, s) ∷ sessions, (k, v) ∷ kept)
    ]

-- `NewDefaultSessionStorage` over an opened database, with `loadSessions`. A transaction that fails
-- is an error and no storage; it is committed only if an entry is removed, and rolled back if not.
unfoldable pub load_sessions :
    Bool → UserDb → ℕ → ℕ → Option (Map (List ℕ) (List ℕ)) → Option SessionStorage
unfolding process_sessions
load_sessions commits users ttl now none =
    some (record { bucket = none; sessions = []; session_ttl = ttl })
load_sessions commits users ttl now (some entries) =
    let (sessions, kept) = process_sessions users now entries in
    if length kept == length entries
    then some (record { bucket = some entries; sessions = sessions; session_ttl = ttl })
    else if commits
    then some (record { bucket = some kept; sessions = sessions; session_ttl = ttl })
    else none

-- `store`, once the transaction is committed
abbrev with_entry : List ℕ → List ℕ → Option (Map (List ℕ) (List ℕ)) → Map (List ℕ) (List ℕ)
with_entry k v none = insert k v []
with_entry k v (some entries) = insert k v entries

-- `New`: the storage, and the session; `none` is an error of the database. `token` is what
-- `NewSessionToken` draws.
unfoldable pub new_session :
    Bool → List ℕ → ℕ → User → SessionStorage → SessionStorage × Option Session
new_session commits token now u ds =
    let s : Session = record {
      token = token;
      user_id = u.id;
      user_login = u.login;
      expire = now + ds.session_ttl;
    } in
    if commits
    then (
      record ds {
        bucket = some (with_entry token (bbolt_encode s) ds.bucket);
        sessions = insert token s ds.sessions;
      },
      some s,
    )
    else (ds, none)

-- `deleteByToken`: the storage, and whether there was no error. A missing bucket is an error.
unfoldable pub delete_by_token : Bool → List ℕ → SessionStorage → SessionStorage × Bool
delete_by_token commits t ds = elim ds.bucket [
  | none ↦ (ds, false)
  | some entries ↦
      if commits
      then (record ds { bucket = some (delete t entries); sessions = delete t ds.sessions }, true)
      else (ds, false)
]

-- What `FindByToken` returns beside the storage: a session, nil, or an error.
pub data Found : Type 0 where
  session : Session → Found
  nothing failed : Found

abbrev drop_result : SessionStorage × Bool → SessionStorage × Found
drop_result (ds, true) = (ds, nothing)
drop_result (ds, false) = (ds, failed)

unfoldable pub find_by_token : Bool → ℕ → List ℕ → SessionStorage → SessionStorage × Found
find_by_token commits now t ds = elim (lookup t ds.sessions) [
  | none ↦ (ds, nothing)
  | some s ↦ if expired now s then drop_result (delete_by_token commits t ds) else (ds, session s)
]
