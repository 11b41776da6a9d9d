-- ===== src/Protocol/Laws.antt =====
-- What `parse_request` accepts: one request, or a batch of requests in the order of its items,
-- each of which decodes and has a method.
use mcp_zero_trust_proxy.Base.{
  ◌≡◌, ◌≢◌, ◌↔◌, ◌⊎◌, inl, inr, refl, true, false, some, List, [], ◌∷◌, arith, eq_iff, Result, ok,
  err, Bool-cases, Option-cases, is_empty,
}
use mcp_zero_trust_proxy.Protocol.{
  Bytes, Codec, McpRequest, ParseError, cons_parsed, parse_one, starts_array, parse_single,
  parse_items, parse_request, is_batch_request, trim_left_space,
}

-- The item decodes to the request, and the request names a method.
abbrev pub Decodes : Codec → Bytes → McpRequest → Type 0
Decodes json raw req = (json.unmarshal_request raw ≡ some req) × (req.method ≢ "")

abbrev pub DecodeAll : Codec → List Bytes → List McpRequest → Type 0
DecodeAll json [] [] = Unit
DecodeAll json (raw ∷ raws) (req ∷ reqs) = Decodes json raw req × DecodeAll json raws reqs
DecodeAll json _ _ = ⊥

-- The body is one request, or an array of requests.
abbrev pub IsBody : Codec → Bytes → List McpRequest → Type 0
IsBody json body reqs =
    ((is_batch_request body ≡ true)
      × ((raws : List Bytes) × (json.unmarshal_batch body ≡ some raws) × DecodeAll json raws reqs))
    ⊎ ((is_batch_request body ≡ false)
        × (trim_left_space body ≢ [])
        × DecodeAll json (body ∷ []) reqs)

cons_parsed_inv :
    (r : Result ParseError McpRequest) (rs : Result ParseError (List McpRequest))
    {reqs : List McpRequest}
    → cons_parsed r rs ≡ ok reqs
    → (req : McpRequest) × (rest : List McpRequest) × (r ≡ ok req)
      × (rs ≡ ok rest)
      × (reqs ≡ req ∷ rest)
cons_parsed_inv (ok req) (ok rest) h = (req, rest, refl, refl, cc)
cons_parsed_inv (ok req) (err e) h = cc
cons_parsed_inv (err e) rs h = cc

parse_one_inv :
    (r : Result ParseError McpRequest) {reqs : List McpRequest}
    → parse_one r ≡ ok reqs
    → (req : McpRequest) × (r ≡ ok req) × (reqs ≡ req ∷ [])
parse_one_inv (ok req) h = (req, refl, cc)
parse_one_inv (err e) h = cc

module _ (json : Codec) where
  parse_single_sound :
      (raw : Bytes) (req : McpRequest) → parse_single json raw ≡ ok req → Decodes json raw req
  unfolding parse_single
  parse_single_sound raw req h = elim (Option-cases (json.unmarshal_request raw)) [
    | inl e ↦ cc (rw (e, parse_single) at h)
    | inr (r, e) ↦ ground (arith, eq_iff r.method "")
  ]

  parse_single_complete :
      (raw : Bytes) (req : McpRequest) → Decodes json raw req → parse_single json raw ≡ ok req
  unfolding parse_single
  parse_single_complete raw req (e, m) = rw (e, parse_single) (ground (arith, eq_iff req.method ""))

  parse_items_sound :
      (raws : List Bytes) (reqs : List McpRequest)
      → parse_items json raws ≡ ok reqs
      → DecodeAll json raws reqs
  unfolding parse_items
  parse_items_sound [] [] h = tt
  parse_items_sound [] (r ∷ rs) h = cc
  parse_items_sound (raw ∷ raws) reqs h =
      let (req, rest, one, all, e) = cons_parsed_inv (parse_single json raw) _ h in
      rw e (parse_single_sound raw req one, parse_items_sound raws rest all)

  parse_items_complete :
      (raws : List Bytes) (reqs : List McpRequest)
      → DecodeAll json raws reqs
      → parse_items json raws ≡ ok reqs
  unfolding parse_items
  parse_items_complete [] [] h = refl
  parse_items_complete [] (r ∷ rs) h = absurd h
  parse_items_complete (raw ∷ raws) [] h = absurd h
  parse_items_complete (raw ∷ raws) (req ∷ reqs) (d, ds) =
      rw (parse_single_complete raw req d, parse_items_complete raws reqs ds)

  parse_request_sound :
      (body : Bytes) (reqs : List McpRequest)
      → parse_request json body ≡ ok reqs
      → IsBody json body reqs
  unfolding parse_request is_batch_request
  parse_request_sound body reqs h = elim (Bool-cases (is_empty (trim_left_space body))) [
    | inl e ↦ cc (rw (e, parse_request) at h)
    | inr full ↦ elim (Bool-cases (starts_array (trim_left_space body))) [
      | inl batch ↦ elim (Option-cases (json.unmarshal_batch body)) [
        | inl e ↦ cc (rw (full, batch, e, parse_request) at h)
        | inr (raws, e) ↦ inl (
          batch,
          (raws, e, parse_items_sound raws reqs (rw (full, batch, e, parse_request) at h)),
        )
      ]
      | inr single ↦
          let (req, one, e) =
            parse_one_inv (parse_single json body) (rw (full, single, parse_request) at h) in
          inr (single, (λ blank. cc (rw blank at full)), rw e (parse_single_sound body req one, tt))
    ]
  ]

  is_empty_of_ne : (b : Bytes) → b ≢ [] → is_empty b ≡ false
  is_empty_of_ne [] h = absurd (h refl)
  is_empty_of_ne (c ∷ b) h = refl

  batch_not_empty : (b : Bytes) → starts_array b ≡ true → is_empty b ≡ false
  batch_not_empty [] h = cc
  batch_not_empty (c ∷ b) h = refl

  parse_request_complete :
      (body : Bytes) (reqs : List McpRequest)
      → IsBody json body reqs
      → parse_request json body ≡ ok reqs
  unfolding parse_request is_batch_request
  parse_request_complete body reqs (inl (batch, (raws, e, all))) =
      rw (batch_not_empty _ batch, batch, e, parse_request) (parse_items_complete raws reqs all)
  parse_request_complete body (req ∷ []) (inr (single, full, (d, _))) =
      rw (is_empty_of_ne _ full, single, parse_single_complete body req d, parse_request) refl
  parse_request_complete body [] (inr (_, _, d)) = absurd d
  parse_request_complete body (req ∷ r ∷ rs) (inr (_, _, (_, d))) = absurd d

  -- `parse_request` accepts a body exactly when, after leading white space, it starts with `[` and
  -- decodes to an array whose items all decode to requests with a method, in that order, or it is
  -- not blank, does not start with `[` and decodes to one request with a method.
  pub parse_request_iff :
      (body : Bytes) (reqs : List McpRequest)
      → (parse_request json body ≡ ok reqs) ↔ IsBody json body reqs
  parse_request_iff body reqs = (parse_request_sound body reqs, parse_request_complete body reqs)
