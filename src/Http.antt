-- ===== src/Http.antt =====
-- internal/proxy/pipeline.go and handler.go: what the pipeline reads of an HTTP request. Header
-- values are lists of bytes, and an absent header is empty, as `Header.Get` returns it.
use mcp_zero_trust_proxy.Base.{
  ℕ, String, Bool, true, false, ◌&&◌, ◌||◌, not, Option, List, [], ◌∷◌, eqb, if◌then◌else◌,
  is_empty, ℤ,
}
use Prim.Native.Char.{code}
use mcp_zero_trust_proxy.Protocol.{Bytes}

-- The body: none, one whose read fails, or the bytes that a full read gives.
pub data Body : Type 0 where
  no_body unreadable : Body
  full : Bytes → Body

-- `content_length` is -1 for a chunked transfer; `resolved_server` is the context's value, if any.
pub record HttpRequest : Type 0 where
  pub http_method : String
  pub path : String
  pub authorization : String
  pub accept : Bytes
  pub forwarded_for : Bytes
  pub real_ip : Bytes
  pub remote_addr : Bytes
  pub content_length : ℤ
  pub body : Body
  pub resolved_server : Option String

abbrev pub bytes_of : String → Bytes
bytes_of String.[] = []
bytes_of (String.◌∷◌ c s) = code c ∷ bytes_of s

unfoldable pub same_bytes : Bytes → Bytes → Bool
same_bytes [] [] = true
same_bytes (a ∷ as') (b ∷ bs) = eqb a b && same_bytes as' bs
same_bytes _ _ = false

-- The white space that `TrimSpace` removes, over ASCII.
unfoldable pub is_blank : ℕ → Bool
is_blank c = eqb c 32 || eqb c 9 || eqb c 10 || eqb c 11 || eqb c 12 || eqb c 13

unfoldable pub trim_left : Bytes → Bytes
unfolding is_blank
trim_left [] = []
trim_left (c ∷ b) = let rest = trim_left b in if is_blank c then rest else c ∷ b

unfoldable pub trim_right : Bytes → Bytes
unfolding is_blank
trim_right [] = []
trim_right (c ∷ b) = let rest = trim_right b in if is_empty rest && is_blank c then [] else c ∷ rest

unfoldable pub trim_space : Bytes → Bytes
unfolding trim_left trim_right
trim_space b = trim_right (trim_left b)

-- The part before the first separator.
unfoldable pub before : ℕ → Bytes → Bytes
before sep [] = []
before sep (c ∷ b) = let rest = before sep b in if eqb c sep then [] else c ∷ rest

abbrev cons_head : ℕ → List Bytes → List Bytes
cons_head c [] = (c ∷ []) ∷ []
cons_head c (part ∷ parts) = (c ∷ part) ∷ parts

-- `Split`: at least one part.
unfoldable pub split_on : ℕ → Bytes → List Bytes
split_on sep [] = [] ∷ []
split_on sep (c ∷ b) =
    let rest = split_on sep b in if eqb c sep then [] ∷ rest else cons_head c rest

unfoldable pub media_type : Bytes → Bytes
unfolding trim_space before
media_type part = trim_space (before b';' (trim_space part))

unfoldable pub csv_parts : List Bytes → List Bytes
unfolding media_type
csv_parts [] = []
csv_parts (part ∷ parts) =
    let rest = csv_parts parts in
    if is_empty (media_type part) then rest else media_type part ∷ rest

unfoldable pub split_csv : Bytes → List Bytes
unfolding csv_parts split_on
split_csv s = csv_parts (split_on b',' s)

abbrev pub event_stream : Bytes
event_stream = bytes_of "text/event-stream"

unfoldable pub has_part : Bytes → List Bytes → Bool
unfolding same_bytes
has_part b [] = false
has_part b (part ∷ parts) = same_bytes part b || has_part b parts

unfoldable pub contains_sse_mime : Bytes → Bool
unfolding has_part split_csv
contains_sse_mime accept = has_part event_stream (split_csv accept)

unfoldable pub is_sse_request : HttpRequest → Bool
unfolding contains_sse_mime same_bytes
is_sse_request r = same_bytes r.accept event_stream || contains_sse_mime r.accept

abbrev first_part : List Bytes → Bytes
first_part [] = []
first_part (part ∷ parts) = part

unfoldable pub get_client_ip : HttpRequest → Bytes
unfolding trim_space split_on
get_client_ip r =
    if not (is_empty r.forwarded_for)
    then trim_space (first_part (split_on b',' r.forwarded_for))
    else if not (is_empty r.real_ip)
    then r.real_ip
    else r.remote_addr
