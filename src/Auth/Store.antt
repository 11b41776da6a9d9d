-- ===== src/Auth/Store.antt =====
-- internal/auth/session.go: the store of sessions. Times are nanoseconds; every call of `time.Now` is
-- an argument, and so is the text that `generateUUID` returns. The background goroutine is the
-- operation `cleanup`; saving to a file is the backend's.
pub mod Laws
pub mod History
mod Tests
use mcp_zero_trust_proxy.Base.{
  ℕ, ◌+◌, ◌*◌, String, Bool, true, false, ◌&&◌, not, Option, none, some, List, [], ◌∷◌, ltb, ◌==◌,
  if◌then◌else◌, Dict, lookup, insert, remove, Result, ok, err, ℤ, pos, negsuc,
}
use mcp_zero_trust_proxy.Protocol.{Json, ClientIdentity}

-- `stored` is the field `Data`.
pub record Session : Type 0 where
  pub id : String
  pub client_id : String
  pub role : String
  pub email : String
  pub created_at : ℕ
  pub last_access : ℕ
  pub expires_at : ℕ
  pub stored : Dict Json

pub record SessionStore : Type 0 where
  pub sessions : Dict Session
  pub ttl : ℕ

pub data SessionError : Type 0 where
  not_found expired : SessionError

abbrev day : ℕ
day = 24 * 3600 * 1000000000

-- The TTL of the configuration, as `time.ParseDuration` gives it: an error, or one that is not
-- positive, stands for a day.
abbrev pub effective_ttl : Option ℤ → ℕ
effective_ttl none = day
effective_ttl (some (negsuc n)) = day
effective_ttl (some (pos ℕ.zero)) = day
effective_ttl (some (pos (ℕ.suc n))) = ℕ.suc n

abbrev restored_or_empty : Option (Dict Session) → Dict Session
restored_or_empty none = []
restored_or_empty (some sessions) = sessions

-- The store on what the backend restores; a backend that fails gives an empty store.
unfoldable pub new_store : Option ℤ → Option (Dict Session) → SessionStore
new_store ttl restored = record { sessions = restored_or_empty restored; ttl = effective_ttl ttl }

-- `id` is the new UUID, `none` where no random bytes could be read. The result is the session, the
-- identity with its `session_id` set, and the store.
abbrev pub new_session : String → ClientIdentity → ℕ → ℕ → Session
new_session id identity now ttl = record {
  id = id;
  client_id = identity.client_id;
  role = identity.role;
  email = identity.email;
  created_at = now;
  last_access = now;
  expires_at = now + ttl;
  stored = [];
}

unfoldable pub create :
    Option String
    → ClientIdentity
    → ℕ
    → SessionStore
    → Option (Session × ClientIdentity) × SessionStore
create none identity now s = (none, s)
create (some id) identity now s =
    let session = new_session id identity now s.ttl in
    (
      some (session, record identity { session_id = id }),
      record s { sessions = insert id session s.sessions },
    )

abbrev pub refreshed : Session → ℕ → ℕ → Session
refreshed session now ttl = record session { last_access = now; expires_at = now + ttl }

abbrev pub found :
    String → ℕ → ℕ → SessionStore → Option Session → Result SessionError Session × SessionStore
found id now later s none = (err not_found, s)
found id now later s (some session) =
    if ltb session.expires_at now
    then (err expired, record s { sessions = remove id s.sessions })
    else (
      ok (refreshed session later s.ttl),
      record s { sessions = insert id (refreshed session later s.ttl) s.sessions },
    )

-- `now` is the clock at the test of the expiry, `later` the one that the session is refreshed with.
unfoldable pub get : String → ℕ → ℕ → SessionStore → Result SessionError Session × SessionStore
get id now later s = found id now later s (lookup id s.sessions)

unfoldable pub delete : String → SessionStore → SessionStore
delete id s = record s { sessions = remove id s.sessions }

-- The loop over the map, in any order.
unfoldable pub active_of : String → ℕ → Dict Session → List Session
active_of client now [] = []
active_of client now ((id, session) ∷ rest) =
    let others = active_of client now rest in
    if session.client_id == client && ltb now session.expires_at then session ∷ others else others

unfoldable pub get_by_client_id : String → ℕ → SessionStore → List Session
get_by_client_id client now s = active_of client now s.sessions

-- Deleting the current key of a Go map while ranging over it is allowed, and leaves the rest.
unfoldable pub unexpired : ℕ → Dict Session → Dict Session
unexpired now [] = []
unexpired now ((id, session) ∷ rest) =
    let others = unexpired now rest in
    if ltb session.expires_at now then others else (id, session) ∷ others

unfoldable pub cleanup : ℕ → SessionStore → SessionStore
cleanup now s = record s { sessions = unexpired now s.sessions }
