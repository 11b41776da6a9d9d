-- ===== src/Pii/Replace/Secrecy.antt =====
-- What masking lets through of a match.
use mcp_zero_trust_proxy.Base.{
  replace_from, ℕ, ◌+◌, ◌-◌, ◌≤◌, ◌<◌, suc, ◌≡◌, ◌≢◌, refl, sym, ◌∙◌, ap, true, false, none, List,
  [], ◌∷◌, ◌++◌, arith, All, length, length-append, leb, ltb, pos, take, drop, repeat, length-take,
  length-drop, length-repeat_one,
}
use mcp_zero_trust_proxy.Protocol.{Bytes}
use mcp_zero_trust_proxy.Pii.{Regexp, CompiledPattern, PartialMask}
use mcp_zero_trust_proxy.Pii.Replace.{
  Texts, replace_groups, partial_replacement, replace_match, apply_pattern, smaller, last_part,
}
use mcp_zero_trust_proxy.Pii.Replace.Segments.{Piece, weave, as_is, spans, apply_pattern-weave}

-- No group is referred to.
abbrev pub IsPlain : Bytes → Type 0
IsPlain mask = All (λ c. c ≢ b'$') mask

replace_plain : (new old text : Bytes) → IsPlain text → replace_from 0 (b'$' ∷ old) new text ≡ text
unfolding replace_from
replace_plain new old [] h = refl
replace_plain new old (c ∷ text) (ne, h) = let rest = replace_plain new old text h in ground arith

module _ (t : Texts) where
  replace_groups_plain :
      (i : ℕ) (groups : List Bytes) (mask : Bytes)
      → IsPlain mask
      → replace_groups t i groups mask ≡ mask
  unfolding replace_groups
  replace_groups_plain i [] mask h = refl
  replace_groups_plain i (g ∷ gs) mask h =
      ap (replace_groups t (i + 1) gs) (replace_plain g _ mask h)
      ∙ replace_groups_plain (i + 1) gs mask h

  weave_const :
      (pattern : CompiledPattern) (ps : List Piece) (tail : Bytes)
      → IsPlain pattern.mask
      → pattern.partial_mask ≡ none
      → weave (replace_match t pattern) ps tail ≡ weave (λ match groups. pattern.mask) ps tail
  unfolding replace_match
  weave_const pattern [] tail h full = refl
  weave_const pattern (p ∷ ps) tail h full =
      rw (full, replace_groups_plain 0 p.groups pattern.mask h)
        (ap (λ x. p.outside ++ (pattern.mask ++ x)) (weave_const pattern ps tail h full))

-- The same text between the matches, and as many matches.
abbrev pub SameOutside : List Piece → List Piece → Type 0
SameOutside [] [] = Unit
SameOutside (p ∷ ps) (q ∷ qs) = (p.outside ≡ q.outside) × SameOutside ps qs
SameOutside _ _ = ⊥

const_same :
    (mask : Bytes) (ps qs : List Piece) (tail : Bytes)
    → SameOutside ps qs
    → weave (λ match groups. mask) ps tail ≡ weave (λ match groups. mask) qs tail
const_same mask [] [] tail h = refl
const_same mask (p ∷ ps) (q ∷ qs) tail (e, h) = cc (e, const_same mask ps qs tail h)
const_same mask [] (q ∷ qs) tail h = absurd h
const_same mask (p ∷ ps) [] tail h = absurd h

-- A full mask that refers to no group tells nothing of what it hides: two texts that differ only in
-- their matches are masked to the same text.
pub mask_noninterference :
    (t : Texts) (re : Regexp) (pattern : CompiledPattern) (ps qs : List Piece) (tail : Bytes)
    → IsPlain pattern.mask
    → pattern.partial_mask ≡ none
    → SameOutside ps qs
    → re.find_all pattern.regexp (weave as_is ps tail) ≡ spans 0 ps
    → re.find_all pattern.regexp (weave as_is qs tail) ≡ spans 0 qs
    → apply_pattern t re pattern (weave as_is ps tail)
      ≡ apply_pattern t re pattern (weave as_is qs tail)
mask_noninterference t re pattern ps qs tail plain full same found found' =
    apply_pattern-weave t pattern re ps tail found
    ∙ weave_const t pattern ps tail plain full
    ∙ const_same pattern.mask ps qs tail same
    ∙ sym (weave_const t pattern qs tail plain full)
    ∙ sym (apply_pattern-weave t pattern re qs tail found')

drop_all : (xs : Bytes) → drop (length xs) xs ≡ []
unfolding drop
drop_all [] = refl
drop_all (x ∷ xs) = drop_all xs

smaller_self : (a n : ℕ) → a ≤ n → smaller a n ≡ a
unfolding smaller
smaller_self a n h = ground arith

smaller_bound : (a b n : ℕ) → n ≤ a + b → leb (n + 0 + 0) (smaller a n + smaller b n) ≡ true
unfolding smaller
smaller_bound a b n h = ground arith

last_shown :
    (a b : ℕ) (match : Bytes)
    → a + b < length match
    → last_part a b 0 match ≡ drop (length match - b) match
unfolding last_part
last_shown a ℕ.zero match lt =
    let q : length match - 0 ≡ length match = omega arith in
    sym (ap (λ k. drop k match) q ∙ drop_all match)
last_shown a (suc b) match lt =
    let below : ltb a (length match + 0) ≡ true = ground arith in
    let some_last : ltb 0 (suc b) ≡ true = ground arith in rw (some_last, below) refl

module _ (t : Texts) (p : PartialMask) (a b : ℕ) (match : Bytes) where
  -- A partial mask with `a` bytes to show at the front and `b` at the back, on a longer match, keeps
  -- the match's length and shows exactly those bytes; each other byte is the filler.
  pub partial_shows :
      p.show_first ≡ pos a
      → p.show_last ≡ pos b
      → a + b < length match
      → (partial_replacement t p match
          ≡ take a match
            ++ repeat (length match - (a + b)) (p.filler ∷ [])
            ++ drop (length match - b) match)
        × (length (partial_replacement t p match) ≡ length match)
  unfolding partial_replacement
  partial_shows ha hb lt =
      let n = length match in
      let more : leb (n + 0 + 0) (a + b) ≡ false = ground arith in
      let e : n + 0 + 0 - (a + b) ≡ n - (a + b) = omega arith in
      let shown : partial_replacement t p match
          ≡ take a match ++ repeat (n - (a + b)) (p.filler ∷ []) ++ drop (n - b) match =
        rw
          (
            ha,
            hb,
            smaller_self a n (omega arith),
            smaller_self b n (omega arith),
            more,
            e,
            last_shown a b match lt,
          )
          refl in
      let len1 = length-take a match (omega arith) in
      let len2 = length-repeat_one (n - (a + b)) p.filler in
      let len3 = length-drop (n - b) match in
      (
        shown,
        ap (λ x. length x) shown
            ∙ omega (
              arith,
              len1,
              len2,
              len3,
              length-append (take a match ++ repeat (n - (a + b)) (p.filler ∷ []))
                  (drop (n - b) match),
              length-append (take a match) (repeat (n - (a + b)) (p.filler ∷ [])),
            ),
      )

  -- On a match that is no longer than the bytes to show, a partial mask hides nothing.
  pub partial_leaks :
      p.show_first ≡ pos a
      → p.show_last ≡ pos b
      → length match ≤ a + b
      → partial_replacement t p match ≡ match
  unfolding partial_replacement
  partial_leaks ha hb le = rw (ha, hb, smaller_bound a b (length match) le) refl
