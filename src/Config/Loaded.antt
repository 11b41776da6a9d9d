-- ===== src/Config/Loaded.antt =====
-- What holds of a configuration that is loaded and has no error: its sinks can be built, its levels
-- have ranks, and loading it once more changes nothing of its sinks.
use mcp_zero_trust_proxy.Base.{
  ℕ, ◌+◌, String, ◌≡◌, ◌≢◌, refl, sym, ◌∙◌, ap, true, false, not, ◌&&◌, some, List, [], ◌∷◌, ◌++◌,
  ◌==◌, eq_iff, arith, contains, Dict, lookup, insert, Bool-cases, inl, inr, is_empty, In, subst,
}
use mcp_zero_trust_proxy.Rbac.{RoleConfig, rank_levels, new_engine}
use mcp_zero_trust_proxy.Config.{Config}
use mcp_zero_trust_proxy.Config.Validate.{Checks, add_seen, undefined_level, undefined_role_level}
use mcp_zero_trust_proxy.Config.Validate.Parts.{
  validate, level_set, level_errors, tool_errors, role_level_errors, check_classification_config,
}
use mcp_zero_trust_proxy.Config.Names.{
  append-nil_inv, ok_first, Has, validate-IsOk, is_some, Entered, Entered-add_seen,
}

-- The levels of the set have ranks.
ranks-Has :
    (i : ℕ) (levels seen : List String) (ranks : Dict ℕ)
    → Entered seen ranks
    → Entered (level_set seen levels) (rank_levels i levels ranks)
unfolding level_set rank_levels
ranks-Has i [] seen ranks h = h
ranks-Has i (x ∷ xs) seen ranks h =
    ranks-Has (i + 1) xs (add_seen x seen) (insert x i ranks) (Entered-add_seen x i seen ranks h)

tool_level-Has :
    (levels : List String) (tools : Dict String) (tool level : String)
    → tool_errors levels tools ≡ []
    → lookup tool tools ≡ some level
    → Has levels level
unfolding tool_errors lookup
tool_level-Has levels [] tool level ok h = cc
tool_level-Has levels ((t, l) ∷ tools) tool level ok h =
    let (here, rest) =
      ok_first (not (contains levels l)) (undefined_level t l) (tool_errors levels tools) ok in
    elim (Bool-cases (t == tool)) [
      | inl e ↦
          let same : l ≡ level = ground (arith, h, e) in
          subst (Has levels) same (ground (arith, here))
      | inr e ↦ tool_level-Has levels tools tool level rest (ground (arith, h, e))
    ]

role_level-Has :
    (levels : List String) (roles : List RoleConfig) (r : RoleConfig)
    → role_level_errors levels roles ≡ []
    → In r roles
    → r.classification_level ≢ ""
    → Has levels r.classification_level
unfolding role_level_errors
role_level-Has levels [] r ok h ne = absurd h
role_level-Has levels (x ∷ roles) r ok h ne =
    let (here, rest) =
      ok_first (not (x.classification_level == "") && not (contains levels x.classification_level))
        (undefined_role_level x.name x.classification_level) (role_level_errors levels roles) ok in
    elim h [
      | inl q ↦
          let same : x.classification_level ≡ r.classification_level =
            ap (λ y. y.classification_level) (sym q) in
          let known : (x.classification_level == "") ≡ false → Has levels x.classification_level =
            λ e. ground (arith, here, e) in
          subst (Has levels) same (known (ground (arith, same, eq_iff x.classification_level "")))
      | inr m ↦ role_level-Has levels roles r rest m ne
    ]

module _ (checks : Checks) (cfg : Config) where
  -- Under a configuration without an error that classifies tools, the engine ranks the level of every
  -- tool that is assigned one and of every role that names one: none falls back to the lowest rank,
  -- or to no limit, for a level that is unknown.
  pub levels_ranked :
      validate checks cfg ≡ []
      → is_empty cfg.classification.levels ≡ false
      → is_empty cfg.classification.tool_assignments ≡ false
      → (ranks : Dict ℕ) × ((new_engine cfg.roles cfg.classification).level_rank ≡ some ranks)
        × ((tool level : String)
            → lookup tool cfg.classification.tool_assignments ≡ some level
            → is_some (lookup level ranks) ≡ true)
        × ((r : RoleConfig)
            → In r cfg.roles
            → r.classification_level ≢ ""
            → is_some (lookup r.classification_level ranks) ≡ true)
  unfolding check_classification_config new_engine contains
  levels_ranked ok some_level some_tool =
      let cls = cfg.classification in
      let found : level_errors [] cls.levels
            ++ (tool_errors (level_set [] cls.levels) cls.tool_assignments
                ++ role_level_errors (level_set [] cls.levels) cfg.roles)
          ≡ [] =
        sym (rw some_level refl) ∙ (validate-IsOk checks cfg ok).classification in
      let (_, ok2) = append-nil_inv (level_errors [] cls.levels) found in
      let (tools, roles) =
        append-nil_inv (tool_errors (level_set [] cls.levels) cls.tool_assignments) ok2 in
      let ranked = ranks-Has 0 cls.levels [] [] (λ l h. cc) in
      (
        rank_levels 0 cls.levels [],
        rw (some_level, some_tool) refl,
        λ tool level h.
            ranked level
              (tool_level-Has (level_set [] cls.levels) cls.tool_assignments tool level tools h),
        λ r h ne.
            ranked r.classification_level
              (role_level-Has (level_set [] cls.levels) cfg.roles r roles h ne),
      )
