-- ===== src/Protocol/Samples.antt =====
-- Concrete values for the tests: a small `Codec`, requests and identities. The codec reads a byte
-- `{` as the start of a request whose params are the rest, and splits an array into single bytes.
use mcp_zero_trust_proxy.Base.{
  String, true, Option, none, some, List, [], ◌∷◌, if◌then◌else◌, eqb, map,
}
use mcp_zero_trust_proxy.Protocol.{
  Bytes, null, Codec, McpRequest, ClientIdentity, method_tools_call, method_tools_list,
}

abbrev pub call_with : Bytes → McpRequest
call_with params = record {
  jsonrpc = "2.0";
  method = method_tools_call;
  params = params;
  id = null;
}

-- A call of `read_file` has the params `r`; any other call is one of `delete_db`.
abbrev pub read_call : McpRequest
read_call = call_with (b'r' ∷ [])

abbrev pub delete_call : McpRequest
delete_call = call_with (b'd' ∷ [])

abbrev pub list_request : McpRequest
list_request = record { jsonrpc = "2.0"; method = method_tools_list; params = []; id = null }

abbrev decode_request : Bytes → Option McpRequest
decode_request [] = none
decode_request (c ∷ b) =
    if eqb c b'{' then some (call_with b) else if eqb c b'l' then some list_request else none

abbrev decode_tool : Bytes → Option String
decode_tool [] = none
decode_tool (c ∷ b) = some (if eqb c b'r' then "read_file" else "delete_db")

abbrev decode_items : Bytes → Option (List Bytes)
decode_items [] = none
decode_items (c ∷ b) = some (map (λ x. x ∷ []) b)

abbrev pub sample_codec : Codec
sample_codec = record {
  unmarshal_request = decode_request;
  unmarshal_batch = decode_items;
  unmarshal_tool_name = decode_tool;
  unmarshal_uri = λ b. none;
  unmarshal_tools = λ b. some [];
  marshal_tools = λ tools. some [];
  marshal_request = λ req. some (b'{' ∷ req.params);
  marshals_raw = λ b. true;
  unmarshal_response = λ b. none;
  marshal_response = λ resp. some [];
}

abbrev pub client_of : String → String → ClientIdentity
client_of role session = record {
  client_id = "alice";
  immutable_id = "github:1";
  role = role;
  session_id = session;
  email = "alice@example.com";
  claims = [];
}
