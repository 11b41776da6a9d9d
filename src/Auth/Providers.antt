-- ===== src/Auth/Providers.antt =====
-- internal/auth/providers.go and NewAuthenticator's choice in internal/auth/oauth.go: the endpoints of
-- the identity providers, as lists of bytes. The answer to the discovery request of an issuer is a
-- parameter, `none` where the request, its status or its JSON fails.
use mathlib.Core.List.{reverse, reverse-append, reverse-reverse}
use mcp_zero_trust_proxy.Base.{
  ◌≡◌, refl, sym, ap, ◌∙◌, ℕ, String, Bool, true, false, ◌&&◌, ◌||◌, not, Option, none, some, List,
  [], ◌∷◌, ◌++◌, append_assoc, ◌==◌, eqb, arith, if◌then◌else◌, is_empty, All,
}
use mcp_zero_trust_proxy.Protocol.{Bytes}
use mcp_zero_trust_proxy.Http.{bytes_of, same_bytes}
use mcp_zero_trust_proxy.Config.{AuthConfig}
pub mod Entra

pub record OauthProvider : Type 0 where
  pub name : String
  pub auth_url : Bytes
  pub token_url : Bytes
  pub user_info_url : Bytes
  pub scopes : List String

abbrev openid_scopes : List String
openid_scopes = "openid" ∷ "email" ∷ "profile" ∷ []

abbrev pub github_provider : OauthProvider
github_provider = record {
  name = "github";
  auth_url = bytes_of "https://github.com/login/oauth/authorize";
  token_url = bytes_of "https://github.com/login/oauth/access_token";
  user_info_url = bytes_of "https://api.github.com/user";
  scopes = "read:user" ∷ "user:email" ∷ [];
}

abbrev pub google_provider : OauthProvider
google_provider = record {
  name = "google";
  auth_url = bytes_of "https://accounts.google.com/o/oauth2/v2/auth";
  token_url = bytes_of "https://oauth2.googleapis.com/token";
  user_info_url = bytes_of "https://openidconnect.googleapis.com/v1/userinfo";
  scopes = openid_scopes;
}

unfoldable pub strip_prefix : Bytes → Bytes → Option Bytes
strip_prefix [] text = some text
strip_prefix (c ∷ p) [] = none
strip_prefix (c ∷ p) (d ∷ text) = let rest = strip_prefix p text in if eqb c d then rest else none

abbrev reversed_or : Bytes → Option Bytes → Bytes
reversed_or text none = text
reversed_or text (some rest) = reverse rest

-- `strings.TrimSuffix`: a suffix is a prefix of the reversed text.
abbrev pub trim_suffix : Bytes → Bytes → Bytes
trim_suffix suffix text = reversed_or text (strip_prefix (reverse suffix) (reverse text))

abbrev pub onto_first : ℕ → List Bytes → List Bytes
onto_first c [] = (c ∷ []) ∷ []
onto_first c (part ∷ parts) = (c ∷ part) ∷ parts

-- `strings.Split(s, "/")`
unfoldable pub split_path : Bytes → List Bytes
split_path [] = [] ∷ []
split_path (c ∷ s) = let rest = split_path s in if eqb c b'/' then [] ∷ rest else onto_first c rest

abbrev pub slash : Bytes
slash = b'/' ∷ []

abbrev pub version_path : Bytes
version_path = bytes_of "/v2.0"

abbrev pub placeholder : Bytes
placeholder = bytes_of "{tenant_id}"

abbrev pub last_of : Bytes → List Bytes → Bytes
last_of part [] = part
last_of part (next ∷ parts) = last_of next parts

-- The last of at least two parts, unless it is empty.
abbrev pub last_part : List Bytes → Bytes
last_part [] = placeholder
last_part (only ∷ []) = placeholder
last_part (first ∷ second ∷ parts) =
    if is_empty (last_of second parts) then placeholder else last_of second parts

abbrev pub tenant_of : List Bytes → Bytes
tenant_of (a ∷ b ∷ c ∷ d ∷ tenant ∷ parts) =
    if same_bytes c (bytes_of "login")
      && same_bytes d (bytes_of "microsoftonline")
      && not (is_empty tenant)
    then tenant
    else last_part (a ∷ b ∷ c ∷ d ∷ tenant ∷ parts)
tenant_of parts = last_part parts

abbrev pub tenant_id : Bytes → Bytes
tenant_id issuer =
    if is_empty issuer
    then placeholder
    else tenant_of (split_path (trim_suffix version_path (trim_suffix slash issuer)))

abbrev pub microsoft : Bytes
microsoft = bytes_of "https://login.microsoftonline.com/"

unfoldable pub entra_provider : Bytes → OauthProvider
entra_provider issuer = record {
  name = "entra";
  auth_url = microsoft ++ (tenant_id issuer ++ bytes_of "/oauth2/v2.0/authorize");
  token_url = microsoft ++ (tenant_id issuer ++ bytes_of "/oauth2/v2.0/token");
  user_info_url = bytes_of "https://graph.microsoft.com/oidc/userinfo";
  scopes = openid_scopes;
}

pub record OidcDiscovery : Type 0 where
  pub authorization_endpoint : Bytes
  pub token_endpoint : Bytes
  pub user_info_endpoint : Bytes

abbrev discovered : Option OidcDiscovery → Option OauthProvider
discovered none = none
discovered (some doc) =
    if is_empty doc.authorization_endpoint || is_empty doc.token_endpoint
    then none
    else some (record {
      name = "oidc";
      auth_url = doc.authorization_endpoint;
      token_url = doc.token_endpoint;
      user_info_url = doc.user_info_endpoint;
      scopes = openid_scopes;
    })

unfoldable pub oidc_provider : (Bytes → Option OidcDiscovery) → Bytes → Option OauthProvider
oidc_provider fetch issuer =
    discovered (fetch (trim_suffix slash issuer ++ bytes_of "/.well-known/openid-configuration"))

-- The provider of `NewAuthenticator`.
unfoldable pub select_provider : (Bytes → Option OidcDiscovery) → AuthConfig → Option OauthProvider
select_provider fetch cfg =
    let oidc = oidc_provider fetch (bytes_of cfg.issuer_url) in
    if cfg.provider == "github"
    then some github_provider
    else if cfg.provider == ""
    then some github_provider
    else if cfg.provider == "google"
    then some google_provider
    else if cfg.provider == "entra"
    then some (entra_provider (bytes_of cfg.issuer_url))
    else if cfg.provider == "oidc"
    then oidc
    else none
