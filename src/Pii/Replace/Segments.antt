-- ===== src/Pii/Replace/Segments.antt =====
-- A text as pieces: what a pattern leaves alone and what it replaces.
use mcp_zero_trust_proxy.Base.{
  ℕ, ◌+◌, ◌-◌, ◌≤◌, ◌≡◌, refl, sym, ◌∙◌, ap, subst, List, [], ◌∷◌, ◌++◌, append_assoc, arith,
  length, length-append, drop, take_prefix, drop_prefix, drop_zero, drop-drop, take-append-drop,
  length-take, length-drop,
}
use mcp_zero_trust_proxy.Protocol.{Bytes}
use mcp_zero_trust_proxy.Pii.{Match, Regexp, CompiledPattern}
use mcp_zero_trust_proxy.Pii.Replace.{Texts, slice, replace_match, write_matches, apply_pattern}

-- A match with the text between it and the match before.
pub record Piece : Type 0 where
  pub outside : Bytes
  pub inside : Bytes
  pub groups : List Bytes

-- The text whose matches are replaced by `f`; `tail` follows the last match.
abbrev pub weave : (Bytes → List Bytes → Bytes) → List Piece → Bytes → Bytes
weave f [] tail = tail
weave f (p ∷ ps) tail = p.outside ++ (f p.inside p.groups ++ weave f ps tail)

abbrev pub as_is : Bytes → List Bytes → Bytes
as_is match groups = match

-- Where the pieces' matches stand, from `n` on.
abbrev pub spans : ℕ → List Piece → List Match
spans n [] = []
spans n (p ∷ ps) =
    record {
      start = n + length p.outside;
      stop = n + length p.outside + length p.inside;
      groups = p.groups;
    }
    ∷ spans (n + length p.outside + length p.inside) ps

-- The matches stand one after the other, within the text: what `regexp` promises.
abbrev pub IsOrdered : ℕ → ℕ → List Match → Type 0
IsOrdered from len [] = Unit
IsOrdered from len (m ∷ ms) =
    (from ≤ m.start) × (m.start ≤ m.stop) × (m.stop ≤ len) × IsOrdered m.stop len ms

slice_middle :
    (n k : ℕ) (before middle after : Bytes)
    → length before ≡ n
    → n + length middle ≡ k
    → slice n k (before ++ (middle ++ after)) ≡ middle
unfolding slice
slice_middle n k before middle after h q =
    let e : k - n ≡ length middle = omega arith in
    rw (e, sym h, drop_prefix before (middle ++ after)) (take_prefix middle after)

module _ (t : Texts) (pattern : CompiledPattern) where
  write_matches-weave :
      (ps : List Piece) (before tail : Bytes) (n : ℕ)
      → length before ≡ n
      → write_matches t pattern (before ++ weave as_is ps tail) n (spans n ps)
        ≡ weave (replace_match t pattern) ps tail
  unfolding write_matches
  write_matches-weave [] before tail n h = rw (sym h) (drop_prefix before tail)
  write_matches-weave (p ∷ ps) before tail n h =
      let rest = weave as_is ps tail in
      let a = n + length p.outside in
      let b = n + length p.outside + length p.inside in
      let past = before ++ p.outside in
      let text = before ++ (p.outside ++ (p.inside ++ rest)) in
      let at_inside : text ≡ past ++ (p.inside ++ rest) =
        sym (append_assoc before p.outside (p.inside ++ rest)) in
      let at_rest : text ≡ (past ++ p.inside) ++ rest =
        at_inside ∙ sym (append_assoc past p.inside rest) in
      let len_past : length past ≡ a = omega (arith, length-append before p.outside) in
      let len_all : length (past ++ p.inside) ≡ b = omega (arith, length-append past p.inside) in
      let outside : slice n a text ≡ p.outside =
        slice_middle n a before p.outside (p.inside ++ rest) h refl in
      let inside : slice a b text ≡ p.inside =
        ap (slice a b) at_inside ∙ slice_middle a b past p.inside rest len_past refl in
      let follows : write_matches t pattern text b (spans b ps)
          ≡ weave (replace_match t pattern) ps tail =
        ap (λ x. write_matches t pattern x b (spans b ps)) at_rest
        ∙ write_matches-weave ps (past ++ p.inside) tail b len_all in
      cc (outside, inside, follows)

  -- If a pattern's matches in a text are those of the pieces, they are replaced one by one, and
  -- nothing else changes.
  pub apply_pattern-weave :
      (re : Regexp) (ps : List Piece) (tail : Bytes)
      → re.find_all pattern.regexp (weave as_is ps tail) ≡ spans 0 ps
      → apply_pattern t re pattern (weave as_is ps tail) ≡ weave (replace_match t pattern) ps tail
  unfolding apply_pattern
  apply_pattern-weave re [] tail found = rw found refl
  apply_pattern-weave re (p ∷ ps) tail found =
      rw found (write_matches-weave (p ∷ ps) [] tail 0 refl)

-- Ordered matches cut the text into pieces.
pub cut :
    (text : Bytes) (from : ℕ) (ms : List Match)
    → IsOrdered from (length text) ms
    → from ≤ length text
    → (ps : List Piece) × (tail : Bytes) × (weave as_is ps tail ≡ drop from text)
      × (spans from ps ≡ ms)
unfolding slice
cut text from [] order le = ([], drop from text, refl, refl)
cut text from (m ∷ ms) (le1, le2, le3, order) le =
    let (ps, tail, same, places) = cut text m.stop ms order le3 in
    let outside = slice from m.start text in
    let inside = slice m.start m.stop text in
    let piece : Piece = record { outside = outside; inside = inside; groups = m.groups } in
    let len1 : length outside ≡ m.start - from =
      length-take (m.start - from) (drop from text) (omega (arith, length-drop from text)) in
    let len2 : length inside ≡ m.stop - m.start =
      length-take (m.stop - m.start) (drop m.start text)
        (omega (arith, length-drop m.start text)) in
    let start : from + length outside ≡ m.start = omega arith in
    let stop : from + length outside + length inside ≡ m.stop = omega arith in
    let e1 : from + (m.start - from) ≡ m.start = omega arith in
    let e2 : m.start + (m.stop - m.start) ≡ m.stop = omega arith in
    let two : inside ++ drop m.stop text ≡ drop m.start text =
      ap (λ x. inside ++ x)
        (ap (λ k. drop k text) (sym e2) ∙ sym (drop-drop (m.stop - m.start) m.start text))
      ∙ take-append-drop (m.stop - m.start) (drop m.start text) in
    let one : outside ++ drop m.start text ≡ drop from text =
      ap (λ x. outside ++ x)
        (ap (λ k. drop k text) (sym e1) ∙ sym (drop-drop (m.start - from) from text))
      ∙ take-append-drop (m.start - from) (drop from text) in
    let woven : outside ++ (inside ++ weave as_is ps tail) ≡ drop from text =
      ap (λ x. outside ++ (inside ++ x)) same ∙ ap (λ x. outside ++ x) two ∙ one in
    (piece ∷ ps, tail, woven, cc (start, stop, places))

-- Whatever the text, if the expression's matches stand in order and within the text, as `regexp`
-- promises, then masking cuts the text into pieces at those matches, replaces each match by
-- `replaceMatch`, and leaves every byte outside them.
pub apply_pattern-segments :
    (t : Texts) (re : Regexp) (pattern : CompiledPattern) (text : Bytes)
    → IsOrdered 0 (length text) (re.find_all pattern.regexp text)
    → (ps : List Piece) × (tail : Bytes) × (weave as_is ps tail ≡ text)
      × (spans 0 ps ≡ re.find_all pattern.regexp text)
      × (apply_pattern t re pattern text ≡ weave (replace_match t pattern) ps tail)
apply_pattern-segments t re pattern text order =
    let (ps, tail, same, places) =
      cut text 0 (re.find_all pattern.regexp text) order (omega arith) in
    let whole : weave as_is ps tail ≡ text = same ∙ drop_zero text in
    (
      ps,
      tail,
      whole,
      places,
      subst (λ x. apply_pattern t re pattern x ≡ weave (replace_match t pattern) ps tail) whole
          (apply_pattern-weave t pattern re ps tail
            (ap (re.find_all pattern.regexp) whole ∙ sym places)),
    )
