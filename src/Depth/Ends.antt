-- ===== src/Depth/Ends.antt =====
-- The steps of the walk end, if the walks that they go on with do.
use mcp_zero_trust_proxy.Base.{
  ℕ, suc, ◌≤◌, Bool, true, false, [], ◌∷◌, if◌then◌else◌, eqb, length, arith,
}
use mcp_zero_trust_proxy.Protocol.{Bytes}
use mcp_zero_trust_proxy.Depth.{
  Walk, out_of_fuel, rejected, rest, skip_ws, skip_string, skip_primitive, and_then, after_item,
  at_open, at_colon, at_key, at_value,
}

-- A walk that has ended, with at most `l` bytes left.
abbrev pub Ends : ℕ → Walk → Type 0
Ends l out_of_fuel = ⊥
Ends l rejected = Unit
Ends l (rest s) = length s ≤ l

pub Ends-if : (l : ℕ) (b : Bool) (x y : Walk) → Ends l x → Ends l y → Ends l (if b then x else y)
Ends-if l true x y h k = h
Ends-if l false x y h k = k

pub Ends-weaken : (l l' : ℕ) (w : Walk) → Ends l w → l ≤ l' → Ends l' w
Ends-weaken l l' out_of_fuel h le = h
Ends-weaken l l' rejected h le = h
Ends-weaken l l' (rest s) h le = omega arith

-- The walks that start within `l` bytes end.
abbrev pub EndsWithin : ℕ → (Bytes → Walk) → Type 0
EndsWithin l k = (s : Bytes) → length s ≤ l → Ends l (k s)

-- The walks that start with fewer than `l` bytes end.
abbrev pub EndsBelow : ℕ → (Bytes → Walk) → Type 0
EndsBelow l k = (s : Bytes) → suc (length s) ≤ l → Ends l (k s)

pub skip_ws-length : (s : Bytes) → length (skip_ws s) ≤ length s
unfolding skip_ws
skip_ws-length [] = omega arith
skip_ws-length (c ∷ s) = let h = skip_ws-length s in ground arith

pub skip_primitive-length : (s : Bytes) → length (skip_primitive s) ≤ length s
unfolding skip_primitive
skip_primitive-length [] = omega arith
skip_primitive-length (c ∷ s) = let h = skip_primitive-length s in ground arith

pub skip_string-Ends : (s : Bytes) → Ends (length s) (skip_string s)
unfolding skip_string
skip_string-Ends [] = tt
skip_string-Ends (c ∷ []) =
    Ends-if 1 (eqb c 92) rejected (if eqb c 34 then rest [] else rejected) tt
      (Ends-if 1 (eqb c 34) (rest []) rejected (omega arith) tt)
skip_string-Ends (c ∷ d ∷ s) =
    let past =
      Ends-weaken (length s) (length (c ∷ d ∷ s)) (skip_string s) (skip_string-Ends s)
        (omega arith) in
    let next =
      Ends-weaken (length (d ∷ s)) (length (c ∷ d ∷ s)) (skip_string (d ∷ s))
        (skip_string-Ends (d ∷ s)) (omega arith) in
    let n = length (c ∷ d ∷ s) in
    Ends-if n (eqb c 92) (skip_string s) (if eqb c 34 then rest (d ∷ s) else skip_string (d ∷ s))
      past (Ends-if n (eqb c 34) (rest (d ∷ s)) (skip_string (d ∷ s)) (omega arith) next)

pub and_then-Ends :
    (l : ℕ) (w : Walk) (k : Bytes → Walk) → Ends l w → EndsWithin l k → Ends l (and_then w k)
and_then-Ends l out_of_fuel k h e = h
and_then-Ends l rejected k h e = tt
and_then-Ends l (rest s) k h e = e s h

pub after_item-Ends :
    (l close : ℕ) (next : Bytes → Walk) (s : Bytes)
    → length s ≤ l
    → EndsBelow l next
    → Ends l (after_item close next s)
unfolding after_item
after_item-Ends l close next [] h e = tt
after_item-Ends l close next (c ∷ s) h e =
    Ends-if l (eqb c close) (rest s) (if eqb c b',' then next s else rejected) (omega arith)
      (Ends-if l (eqb c b',') (next s) rejected (e s h) tt)

pub at_open-Ends :
    (l close : ℕ) (items : Bytes → Walk) (s : Bytes)
    → length s ≤ l
    → EndsWithin l items
    → Ends l (at_open close items s)
unfolding at_open
at_open-Ends l close items [] h e = e [] h
at_open-Ends l close items (c ∷ s) h e =
    Ends-if l (eqb c close) (rest s) (items (c ∷ s)) (omega arith) (e (c ∷ s) h)

pub at_colon-Ends :
    (l : ℕ) (value : Bytes → Walk) (s : Bytes)
    → length s ≤ l
    → EndsWithin l value
    → Ends l (at_colon value s)
unfolding at_colon
at_colon-Ends l value [] h e = tt
at_colon-Ends l value (c ∷ s) h e = Ends-if l (eqb c b':') (value s) rejected (e s (omega arith)) tt

pub at_key-Ends :
    (l : ℕ) (value : Bytes → Walk) (s : Bytes)
    → length s ≤ l
    → EndsWithin l value
    → Ends l (at_key value s)
unfolding at_key
at_key-Ends l value [] h e = tt
at_key-Ends l value (c ∷ s) h e =
    let k : Bytes → Walk = λ t. at_colon value (skip_ws t) in
    Ends-if l (eqb c 34) (and_then (skip_string s) k) rejected
      (and_then-Ends l (skip_string s) k
        (Ends-weaken (length s) l (skip_string s) (skip_string-Ends s) (omega arith))
        (λ t le. at_colon-Ends l value (skip_ws t) (let h' = skip_ws-length t in omega arith) e))
      tt

pub at_value-Ends :
    (l : ℕ) (array object : Bytes → Walk) (s : Bytes)
    → length s ≤ l
    → EndsBelow l array
    → EndsBelow l object
    → Ends l (at_value array object s)
unfolding at_value
at_value-Ends l array object [] h a o = tt
at_value-Ends l array object (c ∷ s) h a o =
    let word = skip_primitive (c ∷ s) in
    let p = skip_primitive-length (c ∷ s) in
    let in_word : length word ≤ l = omega arith in
    let in_string = Ends-weaken (length s) l (skip_string s) (skip_string-Ends s) (omega arith) in
    let texts = if eqb c 34 then skip_string s else rest word in
    Ends-if l (eqb c b'[') (array s) (if eqb c b'{' then object s else texts) (a s h) (
      Ends-if l (eqb c b'{') (object s) texts (o s h)
        (Ends-if l (eqb c 34) (skip_string s) (rest word) in_string in_word))
