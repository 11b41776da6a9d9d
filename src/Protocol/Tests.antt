-- ===== src/Protocol/Tests.antt =====
-- Runs of the parser on small bodies, over the codec of `Samples`.
use mcp_zero_trust_proxy.Base.{◌≡◌, refl, [], ◌∷◌, ok, err, ◌↔◌}
use mcp_zero_trust_proxy.Protocol.{Bytes, parse_request, empty_body}
use mcp_zero_trust_proxy.Protocol.Samples.{sample_codec, read_call, call_with, list_request}
use mcp_zero_trust_proxy.Protocol.Laws.{parse_request_iff, IsBody}

abbrev single_body : Bytes
single_body = b'{' ∷ b'r' ∷ []

abbrev batch_body : Bytes
batch_body = b'[' ∷ b'l' ∷ b'{' ∷ []

parse_single_body : parse_request sample_codec single_body ≡ ok (read_call ∷ [])
unfolding parse_request
parse_single_body = refl

parse_batch_body : parse_request sample_codec batch_body ≡ ok (list_request ∷ call_with [] ∷ [])
unfolding parse_request
parse_batch_body = refl

parse_blank : parse_request sample_codec (b' ' ∷ []) ≡ err empty_body
unfolding parse_request
parse_blank = refl

parse_request_iff_example :
    (parse_request sample_codec batch_body ≡ ok (list_request ∷ call_with [] ∷ []))
    ↔ IsBody sample_codec batch_body (list_request ∷ call_with [] ∷ [])
parse_request_iff_example =
    parse_request_iff sample_codec batch_body (list_request ∷ call_with [] ∷ [])
