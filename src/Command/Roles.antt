-- ===== src/Command/Roles.antt =====
-- The roles of the users of a proxy that has started.
use mcp_zero_trust_proxy.Base.{◌≡◌, ◌≢◌, refl, ap, ◌∙◌, String, Option, none, some, ok, lookup}
use mcp_zero_trust_proxy.Protocol.{ClientIdentity}
use mcp_zero_trust_proxy.Rbac.{Permission}
use mcp_zero_trust_proxy.Auth.Store.{new_store}
use mcp_zero_trust_proxy.Auth.Login.{
  Outside, Authenticator, role_for, resolve_role, set_allow, compiled, set_user_restrictions,
}
use mcp_zero_trust_proxy.Config.{Config}
use mcp_zero_trust_proxy.Config.Defaults.{apply_defaults}
use mcp_zero_trust_proxy.Config.Known.{with_users, assigned_role_known}
use mcp_zero_trust_proxy.Command.{Machine, Started, new_authenticator, start}
use mcp_zero_trust_proxy.Command.Tls.{start-IsStarted}

restricted_same_role :
    (o : Outside) (allow deny : String) (a : Authenticator) (i : ClientIdentity)
    → role_for o (set_user_restrictions o allow deny a).1 i ≡ role_for o a i
unfolding set_user_restrictions resolve_role
restricted_same_role o allow deny a i = set_same (compiled o allow) (compiled o deny)
  where
    set_same :
        (allowed denied : Option (Option String))
        → role_for o (set_allow o allowed denied a).1 i ≡ role_for o a i
    set_same none denied = refl
    set_same (some x) none = refl
    set_same (some x) (some y) = refl

module _ (m : Machine) (cfg : Config) (s : Started m) where
  -- In a proxy that has started from a loaded configuration, its defaults filled in, whatever
  -- non-empty role the authenticator gives has permissions in the RBAC engine.
  pub started_role_known :
      start m (apply_defaults cfg) ≡ ok s
      → (i : ClientIdentity) → role_for m.outside s.authenticator i ≢ ""
      → (perm : Permission) × (lookup (role_for m.outside s.authenticator i) s.rbac.permissions
          ≡ some perm)
  started_role_known h i ne =
      let r = start-IsStarted m (apply_defaults cfg) s h in
      let users = (apply_defaults cfg).user_restrictions in
      let auth = (apply_defaults cfg).auth in
      let fresh =
        new_authenticator auth
          (new_store (m.parse_duration auth.session.ttl) (m.restore auth.session)) in
      let same : role_for m.outside s.authenticator i
          ≡ role_for m.outside (with_users m.outside (apply_defaults cfg).user_roles fresh) i =
        ap (λ a. role_for m.outside a i) r.authenticator
        ∙ restricted_same_role m.outside users.allow_regex users.deny_regex _ i in
      let (perm, found) =
        assigned_role_known m.checks cfg m.outside fresh i r.valid (λ q. ne (same ∙ q)) in
      let role =
        role_for m.outside (with_users m.outside (apply_defaults cfg).user_roles fresh) i in
      (
        perm,
        ap (λ role. lookup role s.rbac.permissions) same
            ∙ (ap (λ e. lookup role e.permissions) r.rbac ∙ found),
      )
