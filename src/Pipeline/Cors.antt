-- ===== src/Pipeline/Cors.antt =====
-- internal/proxy/pipeline.go: `applyCORS`, the headers of a response to a page of another origin. The
-- headers are a list of names and values, of which a name has one; `join` is `strings.Join` with
-- a comma, and `decimal` writes a number, both parameters.
use mcp_zero_trust_proxy.Base.{
  ◌≡◌, refl, ◌∙◌, ℤ, pos, ltb_ℤ, String, Bool, true, false, not, ◌&&◌, ◌||◌, Option, none, some,
  List, [], ◌∷◌, ◌==◌, arith, if◌then◌else◌, is_empty, contains, Dict, lookup, insert,
  lookup-insert,
}
use mcp_zero_trust_proxy.Config.{CorsConfig}

module _ (join : List String → String) (decimal : ℤ → String) where
  abbrev set_if : Bool → String → String → Dict String → Dict String
  set_if test name value hs = if test then insert name value hs else hs

  -- The headers for an origin that is allowed.
  abbrev granted : CorsConfig → String → Dict String → Dict String
  granted cfg origin hs =
      set_if (ltb_ℤ (pos 0) cfg.max_age) "Access-Control-Max-Age" (decimal cfg.max_age) (
        set_if (not (is_empty cfg.allowed_headers)) "Access-Control-Allow-Headers"
          (join cfg.allowed_headers)
          (set_if (not (is_empty cfg.allowed_methods)) "Access-Control-Allow-Methods"
            (join cfg.allowed_methods) (insert "Access-Control-Allow-Origin" origin hs)))

  unfoldable pub try_origins : List String → CorsConfig → String → Dict String → Dict String
  try_origins [] cfg origin hs = hs
  try_origins (allowed ∷ rest) cfg origin hs =
      let later = try_origins rest cfg origin hs in
      if allowed == "*" || allowed == origin then granted cfg origin hs else later

  -- `origin` is the header `Origin` of the request.
  unfoldable pub apply_cors : Option CorsConfig → String → Dict String → Dict String
  apply_cors none origin hs = hs
  apply_cors (some cfg) origin hs =
      if is_empty cfg.allowed_origins
      then hs
      else if origin == ""
      then hs
      else try_origins cfg.allowed_origins cfg origin hs

  set_if-other :
      (test : Bool) (name other value : String) (hs : Dict String)
      → (name == other) ≡ false
      → lookup other (set_if test name value hs) ≡ lookup other hs
  set_if-other true name other value hs h = rw (lookup-insert name other value hs, h) refl
  set_if-other false name other value hs h = refl

  granted_origin :
      (cfg : CorsConfig) (origin : String) (hs : Dict String)
      → lookup "Access-Control-Allow-Origin" (granted cfg origin hs) ≡ some origin
  granted_origin cfg origin hs =
      set_if-other _ "Access-Control-Max-Age" "Access-Control-Allow-Origin" _ _ refl
      ∙ (set_if-other _ "Access-Control-Allow-Headers" "Access-Control-Allow-Origin" _ _ refl
          ∙ (set_if-other _ "Access-Control-Allow-Methods" "Access-Control-Allow-Origin" _ _ refl
              ∙ lookup-insert "Access-Control-Allow-Origin" "Access-Control-Allow-Origin" origin
                  hs))

  tried :
      (origins : List String) (cfg : CorsConfig) (origin : String) (hs : Dict String)
      → lookup "Access-Control-Allow-Origin" (try_origins origins cfg origin hs) ≡ (
          if contains origins "*" || contains origins origin
          then some origin
          else lookup "Access-Control-Allow-Origin" hs)
  unfolding try_origins contains
  tried [] cfg origin hs = refl
  tried (allowed ∷ rest) cfg origin hs =
      ground (arith, tried rest cfg origin hs, granted_origin cfg origin hs)

  -- After `applyCORS` on a response's headers, the header of the allowed origin is the origin that the
  -- request names, if it names one and the configuration lists it or the wildcard; else it is as it
  -- was. The headers of the upstream's response, which are added later, are not spoken of.
  pub origin_allowed :
      (cfg : CorsConfig) (origin : String) (hs : Dict String)
      → lookup "Access-Control-Allow-Origin" (apply_cors (some cfg) origin hs) ≡ (
          if not (origin == "")
            && (contains cfg.allowed_origins "*" || contains cfg.allowed_origins origin)
          then some origin
          else lookup "Access-Control-Allow-Origin" hs)
  unfolding apply_cors contains
  origin_allowed cfg origin hs = ground (arith, tried cfg.allowed_origins cfg origin hs)
