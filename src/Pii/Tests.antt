-- ===== src/Pii/Tests.antt =====
-- A masker with one pattern, which matches a text from its third byte on, and instances of the
-- masker's theorems on it.
use mcp_zero_trust_proxy.Base.{
  replace_from, ◌≡◌, refl, true, false, Bool-cases, inl, inr, Option, none, some, List, [], ◌∷◌,
  length, ltb, pos, drop, take, lookup, insert, contains, if◌then◌else◌, ◌==◌, eq_iff, ap, map,
  arith, ◌∙◌, sym, ok,
}
use mcp_zero_trust_proxy.Protocol.{
  Bytes, Json, str, null, bool, num, arr, obj, nil, cons, field, end,
}
use mcp_zero_trust_proxy.Protocol.{
  McpRequest, extract_tool_name, parse_request, parse_single, trim_left_space, is_space,
  is_batch_request,
}
use mcp_zero_trust_proxy.Protocol.Samples.{sample_codec, call_with, delete_call}
use mcp_zero_trust_proxy.Pipeline.{Pipeline, Run}
use mcp_zero_trust_proxy.Pipeline.Calls.{IsDecided}
use mcp_zero_trust_proxy.Pipeline.Stages.{initial_entry}
use mcp_zero_trust_proxy.Http.{HttpRequest, full}
use mcp_zero_trust_proxy.Pipeline.Single
use mcp_zero_trust_proxy.Pii.{
  Regexp, Masker, CompiledPattern, PartialMask, MaskingConfig, new_masker, built, compile_patterns,
  compile_classes, class_patterns, compile_tools, tool_pattern, replace_star, resolve_mask,
  should_mask_tool, get_sensitive_fields, class_names, add_classes, add_names,
}
use mcp_zero_trust_proxy.Pii.Replace.{
  slice, apply_patterns, write_matches, replace_groups, Texts, apply_pattern, replace_match,
}
use mcp_zero_trust_proxy.Pii.Replace.Segments.{Piece, weave, as_is, spans, apply_pattern-segments}
use mcp_zero_trust_proxy.Pii.Replace.Secrecy.{mask_noninterference}
use mcp_zero_trust_proxy.Pii.Messages.{Values, traverse, mask_text, pii_masker}
use mcp_zero_trust_proxy.Pii.Messages.Leaves.{leaves, shape, traverse-leaves}
use mcp_zero_trust_proxy.Pii.Messages.Wired.{IsReadBack, sent_masked}

abbrev sample_regexp : Regexp
sample_regexp = record {
  compiles = λ r. true;
  matches = λ r text. true;
  find_all = λ r text.
      if ltb 2 (length text)
      then record { start = 2; stop = length text; groups = drop 2 text ∷ [] } ∷ []
      else [];
  quote_meta = λ text. text;
}

abbrev sample_texts : Texts
sample_texts = record {
  encode = λ s. if s == "secret" then 1 ∷ 2 ∷ 3 ∷ 4 ∷ [] else [];
  decode = λ b. if ltb 0 (length b) then "***" else "";
  decimal = λ n. n ∷ [];
}

abbrev starred : CompiledPattern
starred = record { name = "p"; regexp = []; mask = b'*' ∷ []; partial_mask = none }

abbrev sample_config : MaskingConfig
sample_config = record {
  enabled = true;
  patterns = record { name = "p"; pattern = []; mask = b'*' ∷ []; partial_mask = none } ∷ [];
  sensitivity_classes = record { name = "c"; pattern_names = "p" ∷ [] } ∷ [];
  tool_class_assignments = ("delete_db", "c") ∷ [];
}

abbrev sample_masker : Masker
sample_masker = record {
  global_enabled = true;
  compiled_patterns = ("p", starred) ∷ [];
  compiled_classes = ("c", starred ∷ []) ∷ [];
  tool_class_assignments = ("delete_db", "c") ∷ [];
  tool_class_compilers = record { pattern = b'^' ∷ b'$' ∷ []; class_name = "c" } ∷ [];
}

-- The masker is the one that the configuration gives.
sample_built : new_masker sample_regexp sample_texts.encode sample_config ≡ built sample_masker
unfolding new_masker compile_patterns compile_classes class_patterns compile_tools tool_pattern
    replace_star resolve_mask lookup insert
sample_built = refl

-- Two texts that share their first two bytes.
abbrev piece_of : Bytes → Piece
piece_of inside = record { outside = 1 ∷ 2 ∷ []; inside = inside; groups = inside ∷ [] }

apply_pattern-segments_example :
    (ps : List Piece) × (tail : Bytes) × (weave as_is ps tail ≡ 1 ∷ 2 ∷ 3 ∷ [])
    × (spans 0 ps ≡ sample_regexp.find_all [] (1 ∷ 2 ∷ 3 ∷ []))
    × (apply_pattern sample_texts sample_regexp starred (1 ∷ 2 ∷ 3 ∷ [])
        ≡ weave (replace_match sample_texts starred) ps tail)
apply_pattern-segments_example =
    apply_pattern-segments sample_texts sample_regexp starred (1 ∷ 2 ∷ 3 ∷ [])
      (omega arith, omega arith, omega arith, tt)

mask_noninterference_example :
    apply_pattern sample_texts sample_regexp starred (1 ∷ 2 ∷ 3 ∷ [])
    ≡ apply_pattern sample_texts sample_regexp starred (1 ∷ 2 ∷ 7 ∷ 8 ∷ [])
unfolding drop
mask_noninterference_example =
    mask_noninterference sample_texts sample_regexp starred (piece_of (3 ∷ []) ∷ [])
      (piece_of (7 ∷ 8 ∷ []) ∷ []) [] ((λ q. omega arith), tt) refl (refl, tt) refl refl

abbrev one_shown : PartialMask
one_shown = record { show_first = pos 1; show_last = pos 1; filler = b'*' }

abbrev secret : Json
secret = obj (field "secret" (arr (cons (str "secret") nil)) end)

traverse-leaves_example :
    (leaves (traverse (λ s. "***") secret) ≡ "***" ∷ [])
    × (shape (traverse (λ s. "***") secret) ≡ shape secret)
unfolding leaves
traverse-leaves_example = traverse-leaves (λ s. "***") secret

-- The values that are a text: `secret`, and the text of stars, which is written as the byte 1.
abbrev read_text : Bytes → Option Json
read_text [] = none
read_text (c ∷ b) = some (str (if ltb 1 c then "secret" else "***"))

abbrev write_text : Json → Option Bytes
write_text (str s) = if s == "***" then some (1 ∷ []) else none
write_text j = none

abbrev sample_values : Values
sample_values = record { unmarshal = read_text; marshal = write_text }

sample-IsReadBack : IsReadBack sample_values
sample-IsReadBack (str s) b h = elim (Bool-cases (s == "***")) [
  | inl is_stars ↦
      let wrote : write_text (str s) ≡ some (1 ∷ []) = rw (is_stars) refl in
      let same : b ≡ 1 ∷ [] = cc in
      ap read_text same ∙ ap (λ x. some (str x)) (sym ((eq_iff s "***").0 is_stars))
  | inr other ↦ let wrote : write_text (str s) ≡ none = rw (other) refl in cc
]
sample-IsReadBack null b h = cc
sample-IsReadBack (bool _) b h = cc
sample-IsReadBack (num _) b h = cc
sample-IsReadBack (arr _) b h = cc
sample-IsReadBack (obj _) b h = cc

abbrev masking : Pipeline (Unit {0})
masking = record {
  upstream = λ f s. (record { status_code = 200; body = [] }, s);
  auth = none;
  rate_limiter = none;
  rbac = none;
  pii_masker =
      some (pii_masker sample_codec sample_values sample_texts sample_regexp (some sample_masker));
  audit_logger = true;
  auth_handler = none;
  tool_catalog = none;
  cache_tools_list = false;
  max_body_size = 0;
}

abbrev starred_call : McpRequest
starred_call = call_with (1 ∷ [])

abbrev call_body : Bytes
call_body = b'{' ∷ b'd' ∷ []

call_parsed : parse_request sample_codec call_body ≡ ok (delete_call ∷ [])
unfolding parse_request parse_single trim_left_space is_space is_batch_request
call_parsed = refl

abbrev call_post : HttpRequest
call_post = record {
  http_method = "POST";
  path = "/mcp";
  authorization = "";
  accept = [];
  forwarded_for = [];
  real_ip = [];
  remote_addr = [];
  content_length = pos 2;
  body = full call_body;
  resolved_server = none;
}

abbrev idle : Run (Unit {0})
idle = record { state = tt; trace = [] }

sent_masked_example :
    IsDecided sample_codec masking refl call_post
      (Single.request_entry sample_codec masking (initial_entry call_post "r1") (some delete_call))
      none
      starred_call
      (b'{' ∷ 1 ∷ [])
      tt
      []
      (Single.handle_single sample_codec masking call_post
        (initial_entry call_post "r1")
        none
        call_body
        idle).1.trace
    × ((j' : Json) × (read_text (1 ∷ []) ≡ some j')
        × (shape j' ≡ shape (str "secret"))
        × (leaves j'
            ≡ map
                (mask_text sample_codec sample_values sample_texts sample_regexp sample_masker
                  ("p" ∷ []))
                (leaves (str "secret"))))
unfolding extract_tool_name should_mask_tool get_sensitive_fields class_names add_classes add_names
    traverse apply_patterns apply_pattern write_matches replace_match replace_groups drop take slice
    replace_from lookup contains
sent_masked_example =
    sent_masked sample_codec sample_values sample_texts sample_regexp sample_masker masking
      delete_call (str "secret") call_body (1 ∷ []) (b'{' ∷ 1 ∷ []) refl sample-IsReadBack
      (refl, refl, refl, refl) refl refl refl refl refl call_parsed call_post
      (initial_entry call_post "r1") none idle
