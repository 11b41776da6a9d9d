-- ===== src/Protocol.antt =====
-- internal/proxy/interfaces.go and internal/proxy/jsonrpc.go: the messages that the parts of the
-- proxy exchange, and the parsing of a request body. `encoding/json` is a parameter, the record
-- `Codec`; a body is a list of bytes.
mod Values
pub mod Laws
pub mod Samples
mod Tests
pub use Values.*
use mcp_zero_trust_proxy.Base.{
  ℕ, String, Bool, true, false, ◌&&◌, ◌||◌, not, Option, none, some, List, [], ◌∷◌, eqb, ◌==◌,
  if◌then◌else◌, is_empty, Dict, Result, ok, err, ℤ, negsuc,
}

abbrev pub Bytes : Type 0
Bytes = List ℕ

abbrev pub method_initialize : String
method_initialize = "initialize"

abbrev pub method_tools_list : String
method_tools_list = "tools/list"

abbrev pub method_tools_call : String
method_tools_call = "tools/call"

abbrev pub method_resources_read : String
method_resources_read = "resources/read"

abbrev pub method_prompts_get : String
method_prompts_get = "prompts/get"

abbrev pub err_code_parse_error : ℤ
err_code_parse_error = negsuc 32699

abbrev pub err_code_internal_error : ℤ
err_code_internal_error = negsuc 32602

abbrev pub err_code_unauthorized : ℤ
err_code_unauthorized = negsuc 32000

abbrev pub err_code_forbidden : ℤ
err_code_forbidden = negsuc 32001

abbrev pub err_code_rate_limited : ℤ
err_code_rate_limited = negsuc 32002

abbrev pub err_code_request_too_large : ℤ
err_code_request_too_large = negsuc 32003

-- An absent `id` is `null`.
pub record McpRequest : Type 0 where
  pub jsonrpc : String
  pub method : String
  pub params : Bytes
  pub id : Json

pub record ClientIdentity : Type 0 where
  pub client_id : String
  pub immutable_id : String
  pub role : String
  pub session_id : String
  pub email : String
  pub claims : Dict Json

-- One tool of a tools/list result (`toolEntry` of internal/rbac/engine.go).
pub record ToolEntry : Type 0 where
  pub name : String
  pub description : String
  pub input_schema : Bytes

pub record RpcError : Type 0 where
  pub code : ℤ
  pub message : String

-- The shape that a JSON-RPC response is decoded into; an absent `result` is nil.
pub record RpcResponse : Type 0 where
  pub jsonrpc : String
  pub id : Json
  pub result : Option Bytes
  pub error : Option RpcError

-- What the code calls of `encoding/json`. `none` is an error.
pub record Codec : Type 0 where
  pub unmarshal_request : Bytes → Option McpRequest
  pub unmarshal_batch : Bytes → Option (List Bytes)
  pub unmarshal_tool_name : Bytes → Option String
  pub unmarshal_uri : Bytes → Option String
  pub unmarshal_tools : Bytes → Option (List ToolEntry)
  pub marshal_tools : List ToolEntry → Option Bytes
  pub marshal_request : McpRequest → Option Bytes
  -- Whether `json.Marshal` takes the bytes as a raw message.
  pub marshals_raw : Bytes → Bool
  pub unmarshal_response : Bytes → Option RpcResponse
  pub marshal_response : RpcResponse → Option Bytes

pub data ParseError : Type 0 where
  empty_body malformed missing_method : ParseError

unfoldable pub is_space : ℕ → Bool
is_space c = eqb c b' ' || eqb c 9 || eqb c 10 || eqb c 13

unfoldable pub trim_left_space : Bytes → Bytes
unfolding is_space
trim_left_space [] = []
trim_left_space (c ∷ b) = let rest = trim_left_space b in if not (is_space c) then c ∷ b else rest

abbrev starts_array : Bytes → Bool
starts_array [] = false
starts_array (c ∷ b) = eqb c b'['

unfoldable pub is_batch_request : Bytes → Bool
unfolding trim_left_space
is_batch_request body = starts_array (trim_left_space body)

abbrev cons_parsed :
    Result ParseError McpRequest
    → Result ParseError (List McpRequest)
    → Result ParseError (List McpRequest)
cons_parsed (err e) rest = err e
cons_parsed (ok req) (err e) = err e
cons_parsed (ok req) (ok reqs) = ok (req ∷ reqs)

abbrev parse_one : Result ParseError McpRequest → Result ParseError (List McpRequest)
parse_one (err e) = err e
parse_one (ok req) = ok (req ∷ [])

abbrev or_empty : Option String → String
or_empty none = ""
or_empty (some s) = s

module _ (json : Codec) where
  unfoldable pub parse_single : Bytes → Result ParseError McpRequest
  parse_single body = elim (json.unmarshal_request body) [
    | none ↦ err malformed
    | some req ↦ if req.method == "" then err missing_method else ok req
  ]

  -- The loop over the batch's items; the first bad item ends it.
  unfoldable pub parse_items : List Bytes → Result ParseError (List McpRequest)
  unfolding parse_single
  parse_items [] = ok []
  parse_items (raw ∷ batch) = cons_parsed (parse_single raw) (parse_items batch)

  unfoldable pub parse_request : Bytes → Result ParseError (List McpRequest)
  unfolding trim_left_space parse_single parse_items
  parse_request body =
      if is_empty (trim_left_space body)
      then err empty_body
      else if starts_array (trim_left_space body)
      then (elim (json.unmarshal_batch body) [
        | none ↦ err malformed
        | some batch ↦ parse_items batch
      ])
      else parse_one (parse_single body)

  unfoldable pub extract_tool_name : McpRequest → String
  extract_tool_name req =
      if not (req.method == method_tools_call)
      then ""
      else if is_empty req.params
      then ""
      else or_empty (json.unmarshal_tool_name req.params)

  unfoldable pub extract_resource_uri : McpRequest → String
  extract_resource_uri req =
      if not (req.method == method_resources_read)
      then ""
      else if is_empty req.params
      then ""
      else or_empty (json.unmarshal_uri req.params)
