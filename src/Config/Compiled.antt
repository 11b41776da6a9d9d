-- ===== src/Config/Compiled.antt =====
-- From the validators of the masking section to the steps of `New` in internal/pii: no step fails, and
-- nothing that the configuration names is left out.
use mcp_zero_trust_proxy.Base.{
  String, ◌≡◌, refl, ap, true, false, not, ◌&&◌, some, List, [], ◌∷◌, ◌==◌, arith, if◌then◌else◌,
  contains, Dict, lookup, insert, Option-cases, inl, inr, is_empty, All, In, subst,
}
use mcp_zero_trust_proxy.Protocol.{Bytes}
use mcp_zero_trust_proxy.Http.{trim_space}
use mcp_zero_trust_proxy.Pii.{
  Regexp, PatternConfig, ClassConfig, ToolClass, CompiledPattern, compile_pattern, compile_patterns,
  class_patterns, compile_classes, has_star, tool_pattern, compile_tools, matching,
}
use mcp_zero_trust_proxy.Config.Validate.{
  else_when, pattern_name_required, duplicate_pattern, pattern_required, invalid_pattern,
  class_name_required, duplicate_class, Checks, add_seen, undefined_pattern,
}
use mcp_zero_trust_proxy.Config.Validate.Parts.{
  pattern_error, class_error, pattern_errors, defined_patterns, reference_errors, class_errors,
  defined_classes,
}
use mcp_zero_trust_proxy.Config.Names.{
  append-nil_inv, ok_first, else_when-nil, is_some, Entered, Entered-insert,
}

module _ (re : Regexp) (encode : String → Bytes) (checks : Checks)
    (agree : (b : Bytes) → checks.compiles b ≡ true → re.compiles b ≡ true) where
  pattern_compiles :
      (seen : List String) (p : PatternConfig)
      → pattern_error checks seen p ≡ []
      → re.compiles p.pattern ≡ true
  unfolding pattern_error
  pattern_compiles seen p ok =
      let (_, ok1) =
        append-nil_inv
          (else_when (p.name == "") pattern_name_required (contains seen p.name)
            (duplicate_pattern p.name))
          ok in
      let (found, _) =
        append-nil_inv
          (else_when (is_empty (trim_space p.pattern)) (pattern_required p.name)
            (not (checks.compiles p.pattern)) (invalid_pattern p.name))
          ok1 in
      let (_, compiles) =
        else_when-nil (is_empty (trim_space p.pattern)) (not (checks.compiles p.pattern))
          (pattern_required p.name) (invalid_pattern p.name) found in
      agree p.pattern (ground (arith, compiles))

  -- Without an error each pattern compiles, and each name that is defined has its pattern.
  pub compile_patterns-some :
      (ps : List PatternConfig) (seen : List String) (d : Dict CompiledPattern)
      → pattern_errors checks seen ps ≡ []
      → Entered seen d
      → (d' : Dict CompiledPattern) × (compile_patterns re encode ps d ≡ some d')
        × Entered (defined_patterns seen ps) d'
  unfolding pattern_errors compile_patterns defined_patterns
  compile_patterns-some [] seen d ok entered = (d, refl, entered)
  compile_patterns-some (p ∷ ps) seen d ok entered =
      let (here, rest) = append-nil_inv (pattern_error checks seen p) ok in
      let (d', same, all) =
        compile_patterns-some ps (if p.name == "" then seen else add_seen p.name seen)
          (insert p.name (compile_pattern p) d) rest
          (Entered-insert (p.name == "") p.name (compile_pattern p) seen d entered) in
      (d', rw (pattern_compiles seen p here) same, all)

  -- An assignment to a class that was compiled gives an expression of the masker.
  pub compile_tools-some :
      (tools : Dict String) (classes : Dict (List CompiledPattern))
      → ((tool : Bytes) → has_star tool ≡ true → re.compiles (tool_pattern re encode tool) ≡ true)
      → (tcs : List ToolClass) × (compile_tools re encode tools classes ≡ some tcs)
        × ((tool class name : String)
            → In (tool, class) tools
            → is_some (lookup class classes) ≡ true
            → re.matches (tool_pattern re encode (encode tool)) (encode name) ≡ true
            → matching re encode tcs name ≡ true)
  unfolding compile_tools
  compile_tools-some [] classes quoted = ([], refl, λ tool class name m. absurd m)
  compile_tools-some ((t, c) ∷ tools) classes quoted =
      let (tcs, same, all) = compile_tools-some tools classes quoted in
      let tc : ToolClass = record { pattern = tool_pattern re encode (encode t); class_name = c } in
      let good : (has_star (encode t) && not (re.compiles (tool_pattern re encode (encode t))))
          ≡ false =
        ground (arith, quoted (encode t)) in
      elim (Option-cases (lookup c classes)) [
        | inl p ↦ (
          tcs,
          rw (p, compile_tools) same,
          λ tool class name member there hit. elim member [
            | inl q ↦
                let same_class : class ≡ c = ap (λ e. e.1) q in
                let missing : is_some (lookup class classes) ≡ false = rw (same_class, p) refl in cc
            | inr m ↦ all tool class name m there hit
          ],
        )
        | inr (found, p) ↦ (
          tc ∷ tcs,
          rw (p, compile_tools, good, same) refl,
          λ tool class name member there hit. elim member [
            | inl q ↦
                let same_tool : tool ≡ t = ap (λ e. e.0) q in
                let here : re.matches (tool_pattern re encode (encode t)) (encode name) ≡ true =
                  subst (λ x. re.matches (tool_pattern re encode (encode x)) (encode name) ≡ true)
                    same_tool hit in
                rw here refl
            | inr m ↦ ground (arith, all tool class name m there hit)
          ],
        )
      ]

  references-found :
      (defined : List String) (class : String) (names : List String) (d : Dict CompiledPattern)
      → is_empty names ≡ false
      → reference_errors defined class names ≡ []
      → Entered defined d
      → is_empty (class_patterns names d) ≡ false
  unfolding reference_errors class_patterns
  references-found defined class [] d full ok entered = cc
  references-found defined class (name ∷ names) d full ok entered =
      let (known, _) =
        ok_first (not (contains defined name)) (undefined_pattern class name)
          (reference_errors defined class names) ok in
      let there = entered name (ground (arith, known)) in
      elim (Option-cases (lookup name d)) [
        | inl p ↦ let missing : is_some (lookup name d) ≡ false = rw p refl in cc
        | inr (a, p) ↦ rw (is_empty, p, class_patterns) refl
      ]

  -- A class that lists a pattern is compiled, and stays so.
  pub compile_classes-Entered :
      (cs : List ClassConfig) (defined seen : List String) (d : Dict CompiledPattern)
      (acc : Dict (List CompiledPattern))
      → class_errors defined seen cs ≡ []
      → All (λ c. is_empty c.pattern_names ≡ false) cs
      → Entered defined d
      → Entered seen acc
      → Entered (defined_classes seen cs) (compile_classes cs d acc)
  unfolding class_errors class_error defined_classes compile_classes
  compile_classes-Entered [] defined seen d acc ok full entered h = h
  compile_classes-Entered (c ∷ cs) defined seen d acc ok (has, full) entered h =
      let (here, rest) = append-nil_inv (class_error defined seen c) ok in
      let (_, refs) =
        append-nil_inv
          (else_when (c.name == "") class_name_required (contains seen c.name)
            (duplicate_class c.name))
          here in
      let found : is_empty (class_patterns c.pattern_names d) ≡ false =
        references-found defined c.name c.pattern_names d has refs entered in
      let next =
        compile_classes-Entered cs defined (if c.name == "" then seen else add_seen c.name seen) d
          (insert c.name (class_patterns c.pattern_names d) acc) rest full entered
          (Entered-insert (c.name == "") c.name (class_patterns c.pattern_names d) seen acc h) in
      rw found next
