-- ===== src/Pii.antt =====
-- internal/pii/masker.go: the masker of personal data, and the part of internal/config/types.go that
-- configures it. `regexp`, the encoding of texts and `encoding/json` are parameters. A nil masker,
-- which masks nothing, is `none` in the pipeline.
pub mod Replace
pub mod Messages
mod Tests
use mcp_zero_trust_proxy.Base.{
  ℕ, String, Bool, true, false, ◌&&◌, ◌||◌, not, Option, none, some, List, [], ◌∷◌, ◌++◌, ◌==◌,
  if◌then◌else◌, eqb, is_empty, length, contains, Dict, lookup, insert, ℤ, pos, ltb_ℤ, repeat,
}
use mcp_zero_trust_proxy.Protocol.{Bytes}

-- A match in a text: its place, and the texts of its groups, that of the whole match first.
pub record Match : Type 0 where
  pub start : ℕ
  pub stop : ℕ
  pub groups : List Bytes

-- What the code calls of `regexp`, an expression first. `find_all` gives the matches of
-- `FindAllStringSubmatchIndex` with those of `FindAllStringSubmatch`.
pub record Regexp : Type 0 where
  pub compiles : Bytes → Bool
  pub matches : Bytes → Bytes → Bool
  pub find_all : Bytes → Bytes → List Match
  pub quote_meta : Bytes → Bytes

pub record PartialMaskConfig : Type 0 where
  pub show_first : ℤ
  pub show_last : ℤ
  pub filler : Bytes

pub record PatternConfig : Type 0 where
  pub name : String
  pub pattern : Bytes
  pub mask : Bytes
  pub partial_mask : Option PartialMaskConfig

pub record ClassConfig : Type 0 where
  pub name : String
  pub pattern_names : List String

pub record MaskingConfig : Type 0 where
  pub enabled : Bool
  pub patterns : List PatternConfig
  pub sensitivity_classes : List ClassConfig
  pub tool_class_assignments : Dict String

-- The filler is one byte.
pub record PartialMask : Type 0 where
  pub show_first : ℤ
  pub show_last : ℤ
  pub filler : ℕ

pub record CompiledPattern : Type 0 where
  pub name : String
  pub regexp : Bytes
  pub mask : Bytes
  pub partial_mask : Option PartialMask

pub record ToolClass : Type 0 where
  pub pattern : Bytes
  pub class_name : String

pub record Masker : Type 0 where
  pub global_enabled : Bool
  pub compiled_patterns : Dict CompiledPattern
  pub compiled_classes : Dict (List CompiledPattern)
  pub tool_class_assignments : Dict String
  pub tool_class_compilers : List ToolClass

pub data NewMasker : Type 0 where
  no_masker bad_pattern : NewMasker
  built : Masker → NewMasker

-- `***REDACTED***`
abbrev pub default_full_mask : Bytes
default_full_mask =
    b'*' ∷ b'*' ∷ b'*' ∷ b'R' ∷ b'E' ∷ b'D' ∷ b'A' ∷ b'C' ∷ b'T' ∷ b'E' ∷ b'D' ∷ b'*' ∷ b'*' ∷ b'*'
    ∷ []

abbrev filled : Option PartialMaskConfig → Bytes
filled none = default_full_mask
filled (some partial) =
    if is_empty partial.filler then default_full_mask else repeat 4 partial.filler

unfoldable pub resolve_mask : Bytes → Option PartialMaskConfig → Bytes
resolve_mask mask partial = if is_empty mask then filled partial else mask

abbrev pub resolve_filler : Bytes → ℕ
resolve_filler (c ∷ []) = c
resolve_filler _ = b'*'

abbrev compiled_partial : Option PartialMaskConfig → Option PartialMask
compiled_partial none = none
compiled_partial (some partial) =
    if ltb_ℤ (pos 0) partial.show_first || ltb_ℤ (pos 0) partial.show_last
    then some (record {
      show_first = partial.show_first;
      show_last = partial.show_last;
      filler = resolve_filler partial.filler;
    })
    else none

abbrev pub compile_pattern : PatternConfig → CompiledPattern
compile_pattern p = record {
  name = p.name;
  regexp = p.pattern;
  mask = resolve_mask p.mask p.partial_mask;
  partial_mask = compiled_partial p.partial_mask;
}

-- The patterns of a class that are defined.
unfoldable pub class_patterns : List String → Dict CompiledPattern → List CompiledPattern
class_patterns [] compiled = []
class_patterns (name ∷ names) compiled =
    let rest = class_patterns names compiled in
    elim (lookup name compiled) [ none ↦ rest | some p ↦ p ∷ rest ]

-- A class without a defined pattern is left out.
unfoldable pub compile_classes :
    List ClassConfig
    → Dict CompiledPattern
    → Dict (List CompiledPattern)
    → Dict (List CompiledPattern)
compile_classes [] compiled classes = classes
compile_classes (c ∷ cs) compiled classes =
    let found = class_patterns c.pattern_names compiled in
    compile_classes cs compiled (if is_empty found then classes else insert c.name found classes)

abbrev pub has_star : Bytes → Bool
has_star [] = false
has_star (c ∷ b) = eqb c b'*' || has_star b

-- `ReplaceAll` of `\*` by `.*`.
unfoldable pub replace_star : Bytes → Bytes
replace_star [] = []
replace_star (c ∷ []) = c ∷ []
replace_star (c ∷ d ∷ b) =
    let here = replace_star b in
    let next = replace_star (d ∷ b) in
    if eqb c 92 && eqb d b'*' then b'.' ∷ b'*' ∷ here else c ∷ next

module _ (re : Regexp) (encode : String → Bytes) where
  -- The loop over the patterns; the first that does not compile ends it.
  unfoldable pub compile_patterns :
      List PatternConfig → Dict CompiledPattern → Option (Dict CompiledPattern)
  compile_patterns [] compiled = some compiled
  compile_patterns (p ∷ ps) compiled =
      let rest = compile_patterns ps (insert p.name (compile_pattern p) compiled) in
      if re.compiles p.pattern then rest else none

  -- The expression of an assignment: a wildcard matches any text, line breaks included.
  unfoldable pub tool_pattern : Bytes → Bytes
  tool_pattern tool =
      if has_star tool
      then replace_star (b'(' ∷ b'?' ∷ b's' ∷ b')' ∷ b'^' ∷ re.quote_meta tool ++ b'$' ∷ [])
      else b'^' ∷ re.quote_meta tool ++ b'$' ∷ []

  abbrev pub with_tool_class : ToolClass → Option (List ToolClass) → Option (List ToolClass)
  with_tool_class tc none = none
  with_tool_class tc (some rest) = some (tc ∷ rest)

  -- The assignments to a class that was compiled. An expression without a wildcard is assumed to
  -- compile, as `MustCompile` does of a quoted text.
  unfoldable pub compile_tools : Dict String → Dict (List CompiledPattern) → Option (List ToolClass)
  compile_tools [] classes = some []
  compile_tools ((tool, class_name) ∷ rest) classes =
      let others = compile_tools rest classes in
      let pattern = tool_pattern (encode tool) in
      elim (lookup class_name classes) [
        | none ↦ others
        | some found ↦
            if has_star (encode tool) && not (re.compiles pattern)
            then none
            else with_tool_class (record { pattern = pattern; class_name = class_name }) others
      ]

  abbrev masker_of :
      MaskingConfig
      → Dict CompiledPattern
      → Dict (List CompiledPattern)
      → Option (List ToolClass)
      → NewMasker
  masker_of cfg compiled classes none = bad_pattern
  masker_of cfg compiled classes (some tools) = built (record {
    global_enabled = cfg.enabled;
    compiled_patterns = compiled;
    compiled_classes = classes;
    tool_class_assignments = cfg.tool_class_assignments;
    tool_class_compilers = tools;
  })

  abbrev masker_with : MaskingConfig → Option (Dict CompiledPattern) → NewMasker
  masker_with cfg none = bad_pattern
  masker_with cfg (some compiled) =
      let classes = compile_classes cfg.sensitivity_classes compiled [] in
      masker_of cfg compiled classes (compile_tools cfg.tool_class_assignments classes)

  -- `New`
  unfoldable pub new_masker : MaskingConfig → NewMasker
  new_masker cfg =
      if is_empty cfg.patterns
        && is_empty cfg.sensitivity_classes
        && is_empty cfg.tool_class_assignments
      then no_masker
      else masker_with cfg (compile_patterns cfg.patterns [])

  -- Whether an assignment matches the tool.
  abbrev pub matching : List ToolClass → String → Bool
  matching [] tool = false
  matching (tc ∷ tcs) tool = re.matches tc.pattern (encode tool) || matching tcs tool

  unfoldable pub should_mask_tool : Masker → String → Bool
  should_mask_tool m tool = matching m.tool_class_compilers tool

  unfoldable pub class_names : List ToolClass → String → List String
  class_names [] tool = []
  class_names (tc ∷ tcs) tool =
      let rest = class_names tcs tool in
      if re.matches tc.pattern (encode tool) then tc.class_name ∷ rest else rest

-- The names of the patterns that are not listed yet.
unfoldable pub add_names : List CompiledPattern → List String → List String
add_names [] fields = fields
add_names (p ∷ ps) fields =
    add_names ps (if contains fields p.name then fields else fields ++ p.name ∷ [])

unfoldable pub add_classes : List String → Dict (List CompiledPattern) → List String → List String
add_classes [] classes fields = fields
add_classes (name ∷ names) classes fields = elim (lookup name classes) [
  | none ↦ add_classes names classes fields
  | some patterns ↦ add_classes names classes (add_names patterns fields)
]

-- The set of the pattern names of the tool's classes, in one order that ranging over it may take.
unfoldable pub get_sensitive_fields : Regexp → (String → Bytes) → Masker → String → List String
get_sensitive_fields re encode m tool =
    add_classes (class_names re encode m.tool_class_compilers tool) m.compiled_classes []
