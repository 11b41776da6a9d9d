-- ===== src/Auth/Tokens.antt =====
-- internal/auth/oauth.go, `lruCache`: the cache of validated tokens. Its nodes are listed from the
-- front to the back; `items` only finds the node of a key, and is the search of that list.
pub mod Bounds
pub mod Entries
use mcp_zero_trust_proxy.Base.{
  ℕ, String, Bool, true, false, not, Option, none, some, List, [], ◌∷◌, ltb, leb, ◌==◌,
  if◌then◌else◌, keep, length,
}
use mcp_zero_trust_proxy.Protocol.{ClientIdentity}

pub record Node : Type 0 where
  pub key : String
  pub identity : ClientIdentity
  pub expires_at : ℕ

pub record Cache : Type 0 where
  pub max_size : ℕ
  pub nodes : List Node

unfoldable pub find : String → List Node → Option Node
find key [] = none
find key (node ∷ nodes) = let rest = find key nodes in if node.key == key then some node else rest

-- `Remove` of the node that `items` has under the key.
unfoldable pub without : String → List Node → List Node
without key [] = []
without key (node ∷ nodes) =
    let rest = without key nodes in if node.key == key then nodes else node ∷ rest

-- `Remove` of `Back()`.
unfoldable pub drop_back : List Node → List Node
drop_back [] = []
drop_back (node ∷ []) = []
drop_back (node ∷ next ∷ nodes) = node ∷ drop_back (next ∷ nodes)

abbrev pub put_by : Option Node → Node → Cache → Cache
put_by (some old) node c = record c { nodes = node ∷ without node.key c.nodes }
put_by none node c =
    if leb c.max_size (length c.nodes)
    then record c { nodes = node ∷ drop_back c.nodes }
    else record c { nodes = node ∷ c.nodes }

unfoldable pub put : Node → Cache → Cache
put node c = put_by (find node.key c.nodes) node c

abbrev pub get_by : String → ℕ → Option Node → Cache → Option ClientIdentity × Cache
get_by key now none c = (none, c)
get_by key now (some node) c =
    if ltb node.expires_at now
    then (none, record c { nodes = without key c.nodes })
    else (some node.identity, record c { nodes = node ∷ without key c.nodes })

unfoldable pub get : String → ℕ → Cache → Option ClientIdentity × Cache
get key now c = get_by key now (find key c.nodes) c

unfoldable pub delete : String → Cache → Cache
delete key c = record c { nodes = without key c.nodes }

unfoldable pub cleanup : ℕ → Cache → Cache
cleanup now c = record c { nodes = keep (λ node. not (ltb node.expires_at now)) c.nodes }
