-- ===== src/RateLimit/Tests.antt =====
-- Two clients on a bucket of a fixed number of tokens.
use mcp_zero_trust_proxy.Base.{
  ℕ, String, ◌≡◌, refl, Bool, true, false, List, [], ◌∷◌, pos, lookup, insert,
}
use mcp_zero_trust_proxy.RateLimit.{Buckets, Limiter, get_or_create, allow}
use mcp_zero_trust_proxy.RateLimit.Isolation.{answers, solo, times_of, bucket, answers-solo}

abbrev take_token : ℕ → ℕ → Bool × ℕ
take_token ℕ.zero now = (false, ℕ.zero)
take_token (ℕ.suc n) now = (true, n)

-- A bucket of `burst` tokens that is never filled again.
abbrev counting : Buckets ℕ
counting = record { new = λ rate burst. burst; allow = take_token; available = λ n now. pos n }

abbrev two_tokens : Limiter ℕ
two_tokens = record { default_rate = 60; default_burst = 2; clients = [] }

abbrev calls : List (String × ℕ)
calls = ("a", 1) ∷ ("b", 2) ∷ ("a", 3) ∷ ("b", 4) ∷ ("a", 5) ∷ []

third_refused : answers counting "a" calls two_tokens ≡ true ∷ true ∷ false ∷ []
unfolding answers allow get_or_create lookup insert
third_refused = refl

answers-solo_example :
    answers counting "a" calls two_tokens
    ≡ solo counting (times_of counting "a" calls) (bucket counting "a" two_tokens)
answers-solo_example = answers-solo counting "a" calls two_tokens
