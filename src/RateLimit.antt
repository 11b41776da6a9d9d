-- ===== src/RateLimit.antt =====
-- internal/ratelimit/limiter.go: the table of the clients' token buckets. The bucket of
-- golang.org/x/time/rate is a parameter; times are nanoseconds.
pub mod Isolation
mod Tests
use mcp_zero_trust_proxy.Base.{
  ℕ, ◌+◌, String, Bool, not, Option, none, some, List, [], ◌∷◌, ltb, if◌then◌else◌, Dict, lookup,
  insert, ℤ, pos, negsuc,
}

-- `new` is a full bucket for a rate, in requests per minute, and a burst; `allow` takes a token at a
-- time, if there is one; `available` is the number of whole tokens.
pub record Buckets (L : Type 0) : Type 0 where
  pub new : ℕ → ℕ → L
  pub allow : L → ℕ → Bool × L
  pub available : L → ℕ → ℤ

pub record ClientState (L : Type 0) : Type 0 where
  pub limiter : L
  pub last_access : ℕ

-- The default rate is in requests per minute.
pub record Limiter (L : Type 0) : Type 0 where
  pub default_rate : ℕ
  pub default_burst : ℕ
  pub clients : Dict (ClientState L)

-- The setting, or the default where it is not positive.
abbrev positive_or : ℕ → ℤ → ℕ
positive_or d (pos ℕ.zero) = d
positive_or d (pos (ℕ.suc n)) = ℕ.suc n
positive_or d (negsuc n) = d

unfoldable pub new_limiter : {L : Type 0} → ℤ → ℤ → Limiter L
new_limiter requests_per_minute burst_size = record {
  default_rate = positive_or 300 requests_per_minute;
  default_burst = positive_or 100 burst_size;
  clients = [];
}

module _ {L : Type 0} (b : Buckets L) where
  abbrev touched : ℕ → ℕ → Option (ClientState L) → L
  touched rate burst none = b.new rate burst
  touched rate burst (some client) = client.limiter

  -- The client's bucket; its last access is now.
  unfoldable pub get_or_create : String → ℕ → Limiter L → L × Limiter L
  get_or_create id now s =
      let limiter = touched s.default_rate s.default_burst (lookup id s.clients) in
      (
        limiter,
        record s {
          clients = insert id (record { limiter = limiter; last_access = now }) s.clients;
        },
      )

  -- The bucket is taken from in place.
  unfoldable pub allow : String → ℕ → Limiter L → Bool × Limiter L
  unfolding get_or_create
  allow id now s =
      let (limiter, s') = get_or_create id now s in
      let (answer, limiter') = b.allow limiter now in
      (
        answer,
        record s' {
          clients = insert id (record { limiter = limiter'; last_access = now }) s'.clients;
        },
      )

  abbrev at_least_zero : ℤ → ℕ
  at_least_zero (pos n) = n
  at_least_zero (negsuc n) = 0

  -- The number of remaining requests, of the headers.
  unfoldable pub get_headers : String → ℕ → Limiter L → ℕ × Limiter L
  get_headers id now s =
      let (limiter, s') = get_or_create id now s in (at_least_zero (b.available limiter now), s')

  unfoldable pub fresh_clients : ℕ → ℕ → Dict (ClientState L) → Dict (ClientState L)
  fresh_clients stale_after now [] = []
  fresh_clients stale_after now ((id, client) ∷ rest) =
      let others = fresh_clients stale_after now rest in
      if ltb (client.last_access + stale_after) now then others else (id, client) ∷ others

  unfoldable pub cleanup : ℕ → ℕ → Limiter L → Limiter L
  cleanup stale_after now s = record s { clients = fresh_clients stale_after now s.clients }
