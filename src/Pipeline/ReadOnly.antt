-- ===== src/Pipeline/ReadOnly.antt =====
-- The pipeline over the RBAC engine of internal/rbac, which main.go wires in: what clients of role
-- `readonly`, among them the anonymous one, can bring upstream.
use mcp_zero_trust_proxy.Base.{String, ◌≡◌, ◌≢◌, refl, sym, subst, some, List, All, Result, ok, err}
use mcp_zero_trust_proxy.Protocol.{Codec, McpRequest, ClientIdentity, method_tools_call}
use mcp_zero_trust_proxy.Http.{HttpRequest}
use mcp_zero_trust_proxy.Rbac.{
  Engine, Denial, RoleConfig, ClassificationConfig, process, filter_tools_list, role_read_only,
}
use mcp_zero_trust_proxy.Rbac.Floors.{process-Raised}
use mcp_zero_trust_proxy.Rbac.Sessions.{Raised-trans}
use mcp_zero_trust_proxy.Rbac.Policy.{read_only_denied}
use mcp_zero_trust_proxy.Rbac.Roles.{Serves}
use mcp_zero_trust_proxy.Pipeline.{
  Pipeline, RbacEngine, RateLimiter, AuthHandler, Run, Forward, effective_identity,
}
use mcp_zero_trust_proxy.Pipeline.Mediation.{Yields, Guards, IsMediated}
use mcp_zero_trust_proxy.Pipeline.Guarded.{serve_http-IsSafe}
use mcp_zero_trust_proxy.Pipeline.Serve.{serve_http}

-- The engine's answer, beside the rest of the state.
abbrev pub with_rest : {T : Type 0} → T → Result Denial Engine → Result Denial (Engine × T)
with_rest t (ok e) = ok (e, t)
with_rest t (err d) = err d

-- The engine of internal/rbac behind the pipeline's interface; `T` is the state of the other parts.
abbrev pub rbac_engine : Codec → (T : Type 0) → RbacEngine (Engine × T)
rbac_engine json T = record {
  process = λ req i s. with_rest s.1 (process json s.0 req i);
  filter_tools_list = λ i b s. filter_tools_list json s.0 i b;
}

-- The request does not call a tool.
abbrev pub NotCall : McpRequest → Type 0
NotCall req = req.method ≢ method_tools_call

abbrev pub IsReadOnly : ClientIdentity → Type 0
IsReadOnly i = i.role ≡ role_read_only

-- The parts besides the RBAC engine leave its state alone.
pub record Others {T : Type 0} (p : Pipeline (Engine × T)) : Type 0 where
  pub auth_engine :
      (check : HttpRequest → Engine × T → Result String ClientIdentity × (Engine × T))
      (r : HttpRequest) (s : Engine × T)
      → p.auth ≡ some check
      → (check r s).1.0 ≡ s.0
  pub route_engine :
      (h : AuthHandler (Engine × T)) (r : HttpRequest) (s : Engine × T)
      → p.auth_handler ≡ some h
      → ((h.handle_auth_start r s).0 ≡ s.0)
        × ((h.handle_callback r s).0 ≡ s.0)
        × ((h.handle_logout r s).0 ≡ s.0)
  pub rate_engine :
      (l : RateLimiter (Engine × T)) (key : String) (s : Engine × T)
      → p.rate_limiter ≡ some l
      → (l.allow key s).1.0 ≡ s.0
  pub header_engine :
      (l : RateLimiter (Engine × T)) (key : String) (s : Engine × T)
      → p.rate_limiter ≡ some l
      → (l.get_headers key s).0 ≡ s.0
  pub upstream_engine : (f : Forward) (s : Engine × T) → (p.upstream f s).1.0 ≡ s.0

with_rest_inv :
    {T : Type 0} (t : T) (answer : Result Denial Engine) (s : Engine × T)
    → with_rest t answer ≡ ok s
    → answer ≡ ok s.0
with_rest_inv t (ok e) s h = cc
with_rest_inv t (err d) s h = cc

module _ (json : Codec) {T : Type 0} (p : Pipeline (Engine × T)) (roles : List RoleConfig)
    (classification : ClassificationConfig) where
  -- The engine serves the configuration.
  abbrev pub Configured : Engine × T → Type 0
  Configured s = Serves roles classification s.0

  allowed_lem :
      (req : McpRequest) (i : ClientIdentity) (s s' : Engine × T)
      → Configured s
      → IsReadOnly i
      → with_rest s.1 (process json s.0 req i) ≡ ok s'
      → Configured s' × NotCall req
  allowed_lem req i s s' serves role h =
      let allowed = with_rest_inv s.1 (process json s.0 req i) s' h in
      (
        Raised-trans serves (process-Raised json s.0 req i allowed),
        λ call.
            let (d, denied) =
              read_only_denied json roles classification s.0 serves req i role call in
            cc,
      )

  pub IsReadOnly-guards :
      p.rbac ≡ some (rbac_engine json T) → Others p → Guards p Configured IsReadOnly NotCall
  unfolding effective_identity
  IsReadOnly-guards wired others = record {
    auth_state = λ check r s there inv. rw (others.auth_engine check r s there) inv;
    auth_routes = λ h r s there inv.
        let (started, called, logged_out) = others.route_engine h r s there in
        (rw started inv, rw called inv, rw logged_out inv);
    anonymous = refl;
    rate = λ l key s there inv. rw (others.rate_engine l key s there) inv;
    headers = λ l key s there inv. rw (others.header_engine l key s there) inv;
    rbac_there = λ missing. cc;
    rbac = λ e req i s s' there inv role q.
        let same : rbac_engine json T ≡ e = cc in
        allowed_lem req i s s' inv role (subst (λ x. x.process req i s ≡ ok s') (sym same) q);
    upstream = λ f s inv. rw (others.upstream_engine f s) inv;
  }

  -- Let the pipeline run on the RBAC engine of internal/rbac, built from any configuration and
  -- perhaps used since, and let the other parts leave that engine's state alone. An HTTP request,
  -- single or batch, whose authentication gives an identity of role `readonly`, or fails, or is not
  -- configured, brings no request upstream that was parsed as a tools/call, if none was there
  -- before; the requests of other clients may. A body that does not parse is not spoken of.
  pub read_only_sends_no_call :
      (r : HttpRequest) (request_id : String) (s : Run (Engine × T))
      → p.rbac ≡ some (rbac_engine json T)
      → Others p
      → Yields p IsReadOnly r s.state
      → Configured s.state
      → All (IsMediated NotCall) s.trace
      → All (IsMediated NotCall) (serve_http json p r request_id s).1.trace
  read_only_sends_no_call r request_id s wired others yields serves clean =
      let after =
        serve_http-IsSafe json p (IsReadOnly-guards wired others) r request_id s yields
          (record { inv = serves; mediated = clean }) in
      after.mediated
