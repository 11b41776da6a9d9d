-- ===== src/Pii/Messages.antt =====
-- internal/pii/masker.go, `MaskRequest` and `MaskResponse`: masking in the texts of JSON values.
pub mod Leaves
pub mod Wired
use mcp_zero_trust_proxy.Base.{
  String, Bool, true, false, ◌||◌, not, Option, none, some, List, [], ◌∷◌, ◌==◌, if◌then◌else◌,
  is_empty,
}
use mcp_zero_trust_proxy.Protocol.{
  Bytes, Json, str, arr, obj, null, Items, nil, cons, Fields, end, field, Codec, McpRequest,
  RpcResponse, extract_tool_name, method_tools_call, method_resources_read,
}
use mcp_zero_trust_proxy.Pipeline.{PiiMasker}
use mcp_zero_trust_proxy.Pii.{Regexp, Masker, should_mask_tool, get_sensitive_fields}
use mcp_zero_trust_proxy.Pii.Replace.{Texts, apply_patterns}

-- `json.Unmarshal` into, and `json.Marshal` of, a value of any shape. `none` is an error.
pub record Values : Type 0 where
  pub unmarshal : Bytes → Option Json
  pub marshal : Json → Option Bytes

-- `traverseAndMask`, which never fails: the texts are changed, the keys and the rest are not.
unfoldable mutual
  pub traverse : (String → String) → Json → Json
  traverse f (str s) = str (f s)
  traverse f (arr xs) = arr (traverse_items f xs)
  traverse f (obj fs) = obj (traverse_fields f fs)
  traverse f j = j

  pub traverse_items : (String → String) → Items → Items
  traverse_items f nil = nil
  traverse_items f (cons x xs) = cons (traverse f x) (traverse_items f xs)

  pub traverse_fields : (String → String) → Fields → Fields
  traverse_fields f end = end
  traverse_fields f (field k v fs) = field k (traverse f v) (traverse_fields f fs)

abbrev map_items : (Json → Json) → Items → Items
map_items f nil = nil
map_items f (cons x xs) = cons (f x) (map_items f xs)

-- A write to the key, if the object has it.
unfoldable pub at_key : String → (Json → Json) → Fields → Fields
at_key key f end = end
at_key key f (field k v fs) =
    let rest = at_key key f fs in if k == key then field k (f v) fs else field k v rest

abbrev on_text : (String → String) → Json → Json
on_text f (str s) = str (f s)
on_text f j = j

abbrev on_items : (Json → Json) → Json → Json
on_items f (arr xs) = arr (map_items f xs)
on_items f j = j

abbrev on_object : (Fields → Fields) → Json → Json
on_object f (obj fs) = obj (f fs)
on_object f j = j

abbrev pub utility_fields : List String
utility_fields =
    "url" ∷ "path" ∷ "key" ∷ "token" ∷ "password" ∷ "api_key" ∷ "access_token" ∷ "secret" ∷ []

abbrev at_keys : List String → (Json → Json) → Fields → Fields
at_keys [] f fs = fs
at_keys (key ∷ keys) f fs = at_keys keys f (at_key key f fs)

-- `maskUtilityFields`
unfoldable pub mask_utility_fields : (String → String) → Fields → Fields
mask_utility_fields f fs = at_keys utility_fields (on_text f) fs

-- One item of the content of a tools/call result: its text, and its annotations.
unfoldable pub mask_content : (String → String) → Fields → Fields
mask_content f fs =
    at_key "annotations"
      (on_object (at_key "anthropic_utility" (on_items (on_object (mask_utility_fields f)))))
      (at_key "text" (on_text f) fs)

-- One item of the contents of a resources/read result.
unfoldable pub mask_resource : (String → String) → Fields → Fields
mask_resource f fs = at_key "blob" (on_text f) (at_key "text" (on_text f) fs)

-- The result of a response, decoded as a map: an object, or null for the nil map. `none` is an error.
abbrev mask_result : String → (Fields → Fields) → Json → Option Json
mask_result key f (obj fs) = some (obj (at_key key (on_items (on_object f)) fs))
mask_result key f null = some null
mask_result key f j = none

abbrev pub or_req : McpRequest → Option Bytes → McpRequest
or_req req none = req
or_req req (some params) = record req { params = params }

module _ (json : Codec) (values : Values) (t : Texts) (re : Regexp) where
  -- `applyPatterns` on a text.
  abbrev pub mask_text : Masker → List String → String → String
  mask_text m fields s = t.decode (apply_patterns t re m fields (t.encode s))

  abbrev pub fields_of : Masker → String → List String
  fields_of m tool = get_sensitive_fields re t.encode m tool

  abbrev pub traversed : (String → String) → Option Json → Option Bytes
  traversed f none = none
  traversed f (some j) = values.marshal (traverse f j)

  -- `none` is an error.
  unfoldable pub mask_json_value : Masker → List String → Bytes → Option Bytes
  mask_json_value m fields value = traversed (mask_text m fields) (values.unmarshal value)

  -- A request that is not masked, or whose params cannot be, goes on as it is.
  unfoldable pub mask_request : Masker → McpRequest → McpRequest
  mask_request m req =
      if not (req.method == method_tools_call)
      then req
      else if extract_tool_name json req == ""
          || not (should_mask_tool re t.encode m (extract_tool_name json req))
      then req
      else if is_empty (fields_of m (extract_tool_name json req))
      then req
      else or_req req (mask_json_value m (fields_of m (extract_tool_name json req)) req.params)

  -- The response with its result replaced; on an error the response is left as it was, but for one of
  -- the last encoding, which is an error.
  abbrev with_result : Bytes → RpcResponse → Option Bytes → Option Bytes
  with_result response full none = some response
  with_result response full (some result) =
      json.marshal_response (record full { result = some result })

  abbrev marshalled : Option Json → Option Bytes
  marshalled none = none
  marshalled (some j) = values.marshal j

  abbrev decoded_result : String → (Fields → Fields) → Option Json → Option Bytes
  decoded_result key f none = none
  decoded_result key f (some j) = marshalled (mask_result key f j)

  abbrev pub mask_full :
      String → (Fields → Fields) → Bytes → List String → Option RpcResponse → Option Bytes
  mask_full key f response fields none = some response
  mask_full key f response fields (some full) = elim full.error [
    | some e ↦ some response
    | none ↦ elim full.result [
      | none ↦ some response
      | some result ↦
          if is_empty fields
          then some response
          else with_result response full (decoded_result key f (values.unmarshal result))
    ]
  ]

  unfoldable pub mask_tools_call_response : Masker → String → Bytes → Option Bytes
  mask_tools_call_response m tool response =
      mask_full "content" (mask_content (mask_text m (fields_of m tool))) response
        (fields_of m tool) (json.unmarshal_response response)

  unfoldable pub mask_resources_read_response : Masker → String → Bytes → Option Bytes
  mask_resources_read_response m uri response =
      mask_full "contents" (mask_resource (mask_text m (fields_of m uri))) response
        (fields_of m uri) (json.unmarshal_response response)

  unfoldable pub mask_response : Masker → String → String → Bytes → Option Bytes
  mask_response m method tool response =
      if method == method_tools_call
      then mask_tools_call_response m tool response
      else if method == method_resources_read
      then mask_resources_read_response m tool response
      else some response

  -- The masker behind the pipeline's interface; a nil masker leaves all as it is.
  abbrev pub pii_masker : Option Masker → PiiMasker
  pii_masker none = record {
    mask_request = λ req. some req;
    mask_response = λ method tool b. some b;
  }
  pii_masker (some m) = record {
    mask_request = λ req. some (mask_request m req);
    mask_response = λ method tool b. mask_response m method tool b;
  }
