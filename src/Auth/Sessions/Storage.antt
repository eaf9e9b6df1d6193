-- ===== src/Auth/Sessions/Storage.antt =====
-- Sessions over their life: created, found, expired, and loaded again after a restart.
use null_private.Prelude.{
  ℕ, ◌+◌, ◌*◌, ◌/◌, ◌%◌, ◌^◌, ◌≤◌, ◌<◌, ◌≡◌, refl, ap, ◌∙◌, Bool, true, Option, none, some, List,
  [], ◌∷◌, arith, ltb, ◌==◌, lt→ltb, length, if◌then◌else◌, Bool-cases, inl, inr,
}
use null_private.Prelude.Map.{Map, lookup, bytes_eq, bytes_beq_iff}
use null_private.Prelude.Map.Keys.{IsMap, insert-IsMap}
use null_private.Prelude.Map.Agree.{lookup-insert_self}
use null_private.Auth.Sessions.{
  Session, User, UserDb, second, bbolt_encode, SessionStorage, stored_session, process_sessions,
  load_sessions, with_entry, new_session, delete_by_token, session, nothing, failed, find_by_token,
  bbolt_decode,
}
use null_private.Auth.Sessions.Codec.{bbolt_decode-bbolt_encode}

-- A session that was created is found by its token until it expires; from then on nothing is found
-- by the token, or the database has failed.
pub find-new_session :
    (commits : Bool) (token : List ℕ) (now later : ℕ) (u : User) (ds : SessionStorage)
    → (find_by_token commits later token (new_session true token now u ds).0).1 ≡ (
        if ltb (now + ds.session_ttl) later
        then (if commits then nothing else failed)
        else session (record {
          token = token;
          user_id = u.id;
          user_login = u.login;
          expire = now + ds.session_ttl;
        }))
unfolding find_by_token new_session delete_by_token
find-new_session commits token now later u ds = ground (
  arith,
  lookup-insert_self token
      (record {
        token = token;
        user_id = u.id;
        user_login = u.login;
        expire = now + ds.session_ttl;
      })
      ds.sessions,
)

abbrev loaded : UserDb → ℕ → List ℕ → Option (List ℕ) → Option Session
loaded users now k none = none
loaded users now k (some v) = stored_session users now k v

lookup-process_sessions-none :
    (users : UserDb) (now : ℕ) (k : List ℕ) (entries : Map (List ℕ) (List ℕ))
    → lookup k entries ≡ none
    → lookup k (process_sessions users now entries).0 ≡ none
unfolding process_sessions lookup
lookup-process_sessions-none users now k [] h = refl
lookup-process_sessions-none users now k ((j, v) ∷ entries) h =
    ground (arith, lookup-process_sessions-none users now k entries)

-- The sessions that are loaded are those of the valid entries.
pub lookup-process_sessions :
    (users : UserDb) (now : ℕ) (k : List ℕ) (entries : Map (List ℕ) (List ℕ))
    → IsMap entries
    → lookup k (process_sessions users now entries).0 ≡ loaded users now k (lookup k entries)
unfolding process_sessions lookup
lookup-process_sessions users now k [] m = refl
lookup-process_sessions users now k ((j, v) ∷ entries) m = ground (
  arith,
  bytes_beq_iff j k,
  lookup-process_sessions users now k entries m.1,
  lookup-process_sessions-none users now k entries,
)

load_sessions-eq :
    (users : UserDb) (ttl now : ℕ) (entries : Map (List ℕ) (List ℕ))
    → (ds : SessionStorage) × (load_sessions true users ttl now (some entries) ≡ some ds)
      × (ds.sessions ≡ (process_sessions users now entries).0)
unfolding load_sessions
load_sessions-eq users ttl now entries =
    elim (Bool-cases (length (process_sessions users now entries).1 == length entries)) [
      | inl same ↦ (
        record {
          bucket = some entries;
          sessions = (process_sessions users now entries).0;
          session_ttl = ttl;
        },
        rw same,
        refl,
      )
      | inr fewer ↦ (
        record {
          bucket = some (process_sessions users now entries).1;
          sessions = (process_sessions users now entries).0;
          session_ttl = ttl;
        },
        rw fewer,
        refl,
      )
    ]

with_entry-IsMap :
    (k v : List ℕ) (b : Option (Map (List ℕ) (List ℕ)))
    → ((entries : Map (List ℕ) (List ℕ)) → b ≡ some entries → IsMap entries)
    → IsMap (with_entry k v b)
with_entry-IsMap k v none h = insert-IsMap k v [] tt
with_entry-IsMap k v (some entries) h = insert-IsMap k v entries (h entries refl)

lookup-with_entry :
    (k v : List ℕ) (b : Option (Map (List ℕ) (List ℕ))) → lookup k (with_entry k v b) ≡ some v
lookup-with_entry k v none = lookup-insert_self k v []
lookup-with_entry k v (some entries) = lookup-insert_self k v entries

stored_session-encode :
    (users : UserDb) (later : ℕ) (k : List ℕ) (s : Session) (u : User)
    → users s.user_login ≡ some u
    → length s.user_login < 2 ^ 16
    → s.expire / second < 2 ^ 32
    → later ≤ s.expire / second * second
    → stored_session users later k (bbolt_encode s)
      ≡ some (record {
        token = k;
        user_id = u.id;
        user_login = s.user_login;
        expire = s.expire / second * second;
      })
unfolding stored_session
stored_session-encode users later k s u known short fits before =
    let whole : s.expire / second % 2 ^ 32 ≡ s.expire / second = omega arith in
    let decoded : bbolt_decode (bbolt_encode s)
        ≡ some (record {
          token = [];
          user_id = 0;
          user_login = s.user_login;
          expire = s.expire / second * second;
        }) =
      bbolt_decode-bbolt_encode s ∙ rw (lt→ltb _ _ short, whole) in
    ground arith

-- A session survives a restart: it is loaded from the database, under its token, for its user, with
-- its expiry cut to whole seconds, unless that expiry has passed. The login must be of a known user and
-- have fewer than 2^16 bytes, and the expiry, in seconds, must fit 32 bits.
pub load-new_session :
    (users : UserDb) (token : List ℕ) (now later ttl : ℕ) (u : User) (ds : SessionStorage)
    → ((entries : Map (List ℕ) (List ℕ)) → ds.bucket ≡ some entries → IsMap entries)
    → users u.login ≡ some u
    → length u.login < 2 ^ 16
    → (now + ds.session_ttl) / second < 2 ^ 32
    → later ≤ (now + ds.session_ttl) / second * second
    → (ds' : SessionStorage) × (load_sessions true users ttl later
          (new_session true token now u ds).0.bucket
        ≡ some ds')
      × (lookup token ds'.sessions
          ≡ some (record {
            token = token;
            user_id = u.id;
            user_login = u.login;
            expire = (now + ds.session_ttl) / second * second;
          }))
unfolding new_session
load-new_session users token now later ttl u ds m known short fits before =
    let s : Session = record {
      token = token;
      user_id = u.id;
      user_login = u.login;
      expire = now + ds.session_ttl;
    } in
    let entries = with_entry token (bbolt_encode s) ds.bucket in
    let (ds', loads, sessions) = load_sessions-eq users ttl later entries in
    (
      ds',
      loads,
      ap (lookup token) sessions
          ∙ lookup-process_sessions users later token entries
              (with_entry-IsMap token (bbolt_encode s) ds.bucket m)
          ∙ ap (loaded users later token) (lookup-with_entry token (bbolt_encode s) ds.bucket)
          ∙ stored_session-encode users later token s u known short fits before,
    )
