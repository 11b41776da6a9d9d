-- ===== src/Rbac/Sessions.antt =====
-- Sequences of requests against one engine: once a session has called a classified tool, the tools
-- below it stay closed to that session, whatever else the engine is asked in between.
use mcp_zero_trust_proxy.Base.{
  ℕ, ◌<◌, String, ◌≡◌, ap, ◌∙◌, true, Option, none, some, List, [], ◌∷◌, arith, Dict, lookup,
  Result, ok, err, Result-cases, inl, inr,
}
use mcp_zero_trust_proxy.Protocol.{
  Codec, McpRequest, ClientIdentity, extract_tool_name, method_tools_call,
}
use mcp_zero_trust_proxy.Rbac.{Engine, Denial, tool_rank, below_floor, process}
use mcp_zero_trust_proxy.Rbac.Floors.{
  FloorLe, FloorLe-trans, Raised, Raised-refl, process-Raised, process_floor,
}

pub Raised-trans : {a b c : Engine} → Raised a b → Raised b c → Raised a c
Raised-trans {a} {b} {c} h k = record {
  permissions = k.permissions ∙ h.permissions;
  level_rank = k.level_rank ∙ h.level_rank;
  tool_classification = k.tool_classification ∙ h.tool_classification;
  floors = λ s.
      FloorLe-trans (lookup s a.session_floors) (lookup s b.session_floors)
        (lookup s c.session_floors) (h.floors s) (k.floors s);
}

-- The engine after a request: a denial leaves it as it was.
abbrev pub after : Engine → Result Denial Engine → Engine
after e (ok e') = e'
after e (err d) = e

module _ (json : Codec) where
  pub run : Engine → List (McpRequest × ClientIdentity) → Engine
  run e [] = e
  run e ((req, i) ∷ rest) = run (after e (process json e req i)) rest

  after-Raised :
      (e : Engine) (req : McpRequest) (i : ClientIdentity)
      → Raised e (after e (process json e req i))
  after-Raised e req i = elim (Result-cases (process json e req i)) [
    | inl (e', p) ↦ rw p (process-Raised json e req i p)
    | inr (d, p) ↦ rw p (Raised-refl e)
  ]

  -- Whatever is asked of an engine, its rules stay and no session's floor falls.
  pub run-Raised : (e : Engine) (rest : List (McpRequest × ClientIdentity)) → Raised e (run e rest)
  unfolding run
  run-Raised e [] = Raised-refl e
  run-Raised e ((req, i) ∷ rest) =
      Raised-trans (after-Raised e req i) (run-Raised (after e (process json e req i)) rest)

  not_above :
      (rank n : ℕ) (o : Option ℕ) → FloorLe (some n) o → rank < n → below_floor rank o ≡ true
  not_above rank n none h lt = absurd h
  not_above rank n (some m) h lt = ground arith

  -- With classification active, after an allowed tools/call of a session and any further requests,
  -- the session's tools/call of a tool of lower rank is denied.
  pub no_declassification :
      (e : Engine) (ranks : Dict ℕ) (tools : Dict String) (high low : McpRequest)
      (i j : ClientIdentity) (rest : List (McpRequest × ClientIdentity)) {e' : Engine}
      → e.level_rank ≡ some ranks
      → e.tool_classification ≡ some tools
      → high.method ≡ method_tools_call
      → low.method ≡ method_tools_call
      → i.session_id ≡ j.session_id
      → process json e high i ≡ ok e'
      → tool_rank ranks tools (extract_tool_name json low)
        < tool_rank ranks tools (extract_tool_name json high)
      → (d : Denial) × (process json (run e' rest) low j ≡ err d)
  no_declassification e ranks tools high low i j rest {e'} hr ht mh ml same allowed lt =
      elim (Result-cases (process json (run e' rest) low j)) [
        | inr denied ↦ denied
        | inl (e'', p) ↦
            let first = process-Raised json e high i allowed in
            let later = run-Raised e' rest in
            let (_, set) = process_floor json e high i ranks tools hr ht mh allowed in
            let (above, _) =
              process_floor json (run e' rest) low j ranks tools
                (later.level_rank ∙ first.level_rank ∙ hr)
                (later.tool_classification ∙ first.tool_classification ∙ ht) ml p in
            let raised = rw (set) at (later.floors i.session_id) in
            let low_rank = tool_rank ranks tools (extract_tool_name json low) in
            let closed = not_above low_rank _ _ raised lt in
            cc (ap (λ s. below_floor low_rank (lookup s (run e' rest).session_floors)) same)
      ]
