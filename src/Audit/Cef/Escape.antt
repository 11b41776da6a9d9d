-- ===== src/Audit/Cef/Escape.antt =====
-- `sanitizeCEF` byte by byte, and what it keeps of a text.
use mcp_zero_trust_proxy.Base.{
  ℕ, ◌≡◌, ◌≢◌, refl, ◌∙◌, ap, false, ◌||◌, [], ◌∷◌, ◌++◌, if◌then◌else◌, eqb, arith, All,
  replace_all, replace_all-byte, swap, flat_map, flat_map-flat_map, has_byte, has_byte-append,
}
use mcp_zero_trust_proxy.Protocol.{Bytes}
use mcp_zero_trust_proxy.Audit.Cef.{sanitize_cef}

-- What a byte becomes.
unfoldable pub escaped_byte : ℕ → Bytes
escaped_byte c =
    if eqb 92 c || eqb b'|' c || eqb b'=' c || eqb b':' c
    then 92 ∷ c ∷ []
    else if eqb 10 c || eqb 13 c
    then []
    else if eqb 9 c || eqb 32 c
    then b'_' ∷ []
    else c ∷ []

flat_map-same : (f g : ℕ → Bytes) (a : Bytes) → ((c : ℕ) → f c ≡ g c) → flat_map f a ≡ flat_map g a
unfolding flat_map
flat_map-same f g [] h = refl
flat_map-same f g (c ∷ a) h = cc (h c, flat_map-same f g a h)

-- After the first four calls.
quoted : ℕ → Bytes
quoted c = if eqb 92 c || eqb b'|' c || eqb b'=' c || eqb b':' c then 92 ∷ c ∷ [] else c ∷ []

quoted_lem :
    (c : ℕ)
    → flat_map (swap b':' (92 ∷ b':' ∷ [])) (
        flat_map
          (swap b'=' (92 ∷ b'=' ∷ []))
          (flat_map (swap b'|' (92 ∷ b'|' ∷ [])) (swap 92 (92 ∷ 92 ∷ []) c)))
      ≡ quoted c
unfolding flat_map quoted
quoted_lem c = ground arith

-- After the last four calls.
escaped_byte_lem :
    (c : ℕ)
    → flat_map
        (swap 32 (b'_' ∷ []))
        (flat_map (swap 9 (b'_' ∷ [])) (flat_map (swap 13 []) (flat_map (swap 10 []) (quoted c))))
      ≡ escaped_byte c
unfolding flat_map quoted escaped_byte
escaped_byte_lem c = ground arith

-- Two replacements in a row.
replace_twice :
    (old : ℕ) (new : Bytes) (f : ℕ → Bytes) (s : Bytes)
    → replace_all (old ∷ []) new (flat_map f s) ≡ flat_map (λ c. flat_map (swap old new) (f c)) s
replace_twice old new f s =
    replace_all-byte old new (flat_map f s) ∙ flat_map-flat_map (swap old new) f s

pub sanitize_cef-flat_map : (s : Bytes) → sanitize_cef s ≡ flat_map escaped_byte s
unfolding sanitize_cef
sanitize_cef-flat_map s =
    rw
      (
        replace_all-byte 92 (92 ∷ 92 ∷ []) s,
        replace_twice b'|' (92 ∷ b'|' ∷ []) (swap 92 (92 ∷ 92 ∷ [])) s,
        replace_twice b'=' (92 ∷ b'=' ∷ []) _ s,
        replace_twice b':' (92 ∷ b':' ∷ []) _ s,
        flat_map-same _ _ s quoted_lem,
        replace_twice 10 [] quoted s,
        replace_twice 13 [] _ s,
        replace_twice 9 (b'_' ∷ []) _ s,
        replace_twice 32 (b'_' ∷ []) _ s,
      )
      (flat_map-same _ _ s escaped_byte_lem)

-- A reader of the value: a backslash stands for the byte after it.
unfoldable pub unescape : Bytes → Bytes
unescape [] = []
unescape (c ∷ []) = c ∷ []
unescape (c ∷ d ∷ s) =
    let after = unescape s in
    let next = unescape (d ∷ s) in if eqb 92 c then d ∷ after else c ∷ next

-- A byte that is neither dropped nor replaced.
abbrev pub IsKept : ℕ → Type 0
IsKept c = (c ≢ 10) × (c ≢ 13) × (c ≢ 9) × (c ≢ 32)

unescape-escaped_byte :
    (c : ℕ) (s : Bytes) → IsKept c → unescape (escaped_byte c ++ s) ≡ c ∷ unescape s
unfolding unescape escaped_byte
unescape-escaped_byte c [] (h1, h2, h3, h4) = ground arith
unescape-escaped_byte c (d ∷ s) (h1, h2, h3, h4) = ground arith

unescape-flat_map : (s : Bytes) → All IsKept s → unescape (flat_map escaped_byte s) ≡ s
unfolding flat_map unescape
unescape-flat_map [] kept = refl
unescape-flat_map (c ∷ s) (k, kept) =
    unescape-escaped_byte c (flat_map escaped_byte s) k ∙ ap (λ x. c ∷ x) (unescape-flat_map s kept)

-- A text without line breaks, tabs and spaces is read back from its sanitized form.
pub unescape-sanitize_cef : (s : Bytes) → All IsKept s → unescape (sanitize_cef s) ≡ s
unescape-sanitize_cef s kept = ap unescape (sanitize_cef-flat_map s) ∙ unescape-flat_map s kept

no_break : (c : ℕ) → has_byte 10 (escaped_byte c) ≡ false
unfolding has_byte escaped_byte
no_break c = ground arith

breaks-flat_map : (s : Bytes) → has_byte 10 (flat_map escaped_byte s) ≡ false
unfolding flat_map has_byte
breaks-flat_map [] = refl
breaks-flat_map (c ∷ s) =
    has_byte-append 10 (escaped_byte c) (flat_map escaped_byte s)
    ∙ rw (no_break c, breaks-flat_map s) refl

-- A sanitized text is one line.
pub breaks-sanitize_cef : (s : Bytes) → has_byte 10 (sanitize_cef s) ≡ false
breaks-sanitize_cef s = ap (has_byte 10) (sanitize_cef-flat_map s) ∙ breaks-flat_map s
