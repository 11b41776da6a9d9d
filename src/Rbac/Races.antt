-- ===== src/Rbac/Races.antt =====
-- Concurrent calls of `checkClassification`: a call reads the session's floor under the read lock,
-- checks, and writes under the write lock later, so other calls can stand in between.
use mcp_zero_trust_proxy.Base.{
  if_same, ℕ, ltb, ◌<◌, ◌≤◌, String, ◌≡◌, ◌≢◌, refl, sym, subst, false, Option, none, some, List,
  [], ◌∷◌, ◌++◌, arith, ◌==◌, eq_iff, if◌then◌else◌, lookup, lookup-insert, All, Bool-cases, inl,
  inr, ==_self,
}
use mcp_zero_trust_proxy.Rbac.{Engine, below_floor, raises, write_floor}
use mcp_zero_trust_proxy.Rbac.Floors.{FloorLe, FloorLe-refl, FloorLe-trans}

-- A call that has passed its check and has not written yet, with the floor that it read.
pub record Pending : Type 0 where
  pub session : String
  pub rank : ℕ
  pub held : Option ℕ

pub record World : Type 0 where
  pub engine : Engine
  pub pending : List Pending

pub data Step : World → World → Type 0 where
  read :
      (w : World) (session : String) (rank : ℕ)
      → below_floor rank (lookup session w.engine.session_floors) ≡ false
      → Step w (record w {
        pending =
            record { session = session; rank = rank; held = lookup session w.engine.session_floors }
            ∷ w.pending;
      })
  write :
      (w : World) (p : Pending) (front back : List Pending)
      → w.pending ≡ front ++ p ∷ back
      → Step w (record w {
        engine = write_floor w.engine p.session p.rank p.held;
        pending = front ++ back;
      })

pub data Reach (w : World) : World → Type 0 where
  here : Reach w w
  next : {v u : World} → Reach w v → Step v u → Reach w u

-- A pending call of the session has read a floor.
abbrev pub HoldsFloor : String → Pending → Type 0
HoldsFloor s p = p.session ≡ s → p.held ≢ none

-- The session has a floor, and its pending calls have read one.
pub record IsSettled (s : String) (w : World) : Type 0 where
  pub has_floor : lookup s w.engine.session_floors ≢ none
  pub holds : All (HoldsFloor s) w.pending

All-split {ℓ κ} :
    {A : Type ℓ} (P : A → Type κ) (front : List A) (p : A) (back : List A)
    → All P (front ++ p ∷ back)
    → P p × All P (front ++ back)
All-split P [] p back h = h
All-split P (q ∷ front) p back (hq, h) =
    let (hp, rest) = All-split P front p back h in (hp, (hq, rest))

-- A write by a call that has read a floor does not lower the floor.
raise_or_keep :
    (rank : ℕ) (held floor : Option ℕ)
    → held ≢ none
    → floor ≢ none
    → FloorLe floor (if raises rank held floor then some rank else floor)
raise_or_keep rank none floor h k = absurd (h refl)
raise_or_keep rank (some n) none h k = absurd (k refl)
raise_or_keep rank (some n) (some m) h k = elim (Bool-cases (ltb m rank)) [
  | inl more ↦ rw more (ground arith)
  | inr less ↦ rw less (omega arith)
]

lookup-write_floor :
    (e : Engine) (s session : String) (rank : ℕ) (held : Option ℕ)
    → lookup s (write_floor e session rank held).session_floors ≡ (
        if raises rank held (lookup session e.session_floors)
        then if session == s then some rank else lookup s e.session_floors
        else lookup s e.session_floors)
unfolding write_floor
lookup-write_floor e s session rank held =
    ground (arith, lookup-insert session s rank e.session_floors)

write_floor-FloorLe :
    (e : Engine) (s session : String) (rank : ℕ) (held : Option ℕ)
    → (session ≡ s → held ≢ none)
    → lookup s e.session_floors ≢ none
    → FloorLe
        (lookup s e.session_floors)
        (lookup s (write_floor e session rank held).session_floors)
write_floor-FloorLe e s session rank held h k =
    rw lookup-write_floor (elim (Bool-cases (session == s)) [
      | inl same ↦
          let q = (eq_iff session s).0 same in
          rw (same, q) (raise_or_keep rank held (lookup s e.session_floors) (h q) k)
      | inr other ↦ rw (other, if_same) (FloorLe-refl (lookup s e.session_floors))
    ])

FloorLe-ne_none : (a b : Option ℕ) → FloorLe a b → a ≢ none → b ≢ none
FloorLe-ne_none none b h k = absurd (k refl)
FloorLe-ne_none (some n) none h k = absurd h
FloorLe-ne_none (some n) (some m) h k = cc

module _ (s : String) where
  Step-FloorLe :
      {w v : World}
      → Step w v
      → IsSettled s w
      → IsSettled s v
        × FloorLe (lookup s w.engine.session_floors) (lookup s v.engine.session_floors)
  Step-FloorLe (read w session rank low) h = (
    record {
      has_floor = h.has_floor;
      holds = (
        (λ q. subst (λ t. lookup t w.engine.session_floors ≢ none) (sym q) h.has_floor),
        h.holds,
      );
    },
    FloorLe-refl (lookup s w.engine.session_floors),
  )
  Step-FloorLe (write w p front back e) h =
      let (held, rest) =
        All-split (HoldsFloor s) front p back (subst (All (HoldsFloor s)) e h.holds) in
      let le = write_floor-FloorLe w.engine s p.session p.rank p.held held h.has_floor in
      (record { has_floor = FloorLe-ne_none _ _ le h.has_floor; holds = rest }, le)

  -- Once a session has a floor, which all its pending calls have read, no interleaving of reads and
  -- writes, of any sessions, lowers it.
  pub Reach-FloorLe :
      {w v : World}
      → IsSettled s w
      → Reach w v
      → IsSettled s v
        × FloorLe (lookup s w.engine.session_floors) (lookup s v.engine.session_floors)
  Reach-FloorLe {w} h here = (h, FloorLe-refl (lookup s w.engine.session_floors))
  Reach-FloorLe {w} h (next {v} {u} r st) =
      let (settled, le) = Reach-FloorLe h r in
      let (settled', le') = Step-FloorLe st settled in
      (
        settled',
        FloorLe-trans (lookup s w.engine.session_floors) (lookup s v.engine.session_floors)
            (lookup s u.engine.session_floors) le le',
      )

module _ (e : Engine) (s : String) (low high : ℕ) where
  -- A call of rank `low` reads, one of rank `high` reads and writes, and the first one writes.
  abbrev pending_low : Pending
  pending_low = record { session = s; rank = low; held = lookup s e.session_floors }

  abbrev pending_high : Pending
  pending_high = record { session = s; rank = high; held = lookup s e.session_floors }

  abbrev high_written : World
  high_written = record {
    engine = write_floor e s high (lookup s e.session_floors);
    pending = pending_low ∷ [];
  }

  abbrev low_written : World
  low_written = record {
    engine = write_floor high_written.engine s low (lookup s e.session_floors);
    pending = [];
  }

  Reach-high :
      ((rank : ℕ) → below_floor rank (lookup s e.session_floors) ≡ false)
      → Reach (record { engine = e; pending = [] }) high_written
  Reach-high open_to =
      next
        (next (next here (read (record { engine = e; pending = [] }) s low (open_to low)))
          (read (record { engine = e; pending = pending_low ∷ [] }) s high (open_to high)))
        (write (record { engine = e; pending = pending_high ∷ pending_low ∷ [] }) pending_high []
          (pending_low ∷ []) refl)

  Reach-low : Reach high_written low_written
  Reach-low = next here (write high_written pending_low [] [] refl)

  -- On a session without a floor some interleaving of two calls that both pass their checks lowers
  -- the floor: the call of rank `high` sets it to `high`, and then the call of rank `low` sets it
  -- to `low`.
  pub floor_race :
      lookup s e.session_floors ≡ none
      → low < high
      → (mid last : World) × Reach (record { engine = e; pending = [] }) mid
        × (lookup s mid.engine.session_floors ≡ some high)
        × Reach mid last
        × (lookup s last.engine.session_floors ≡ some low)
        × ¬ FloorLe (lookup s mid.engine.session_floors) (lookup s last.engine.session_floors)
  floor_race fresh lt =
      (high_written, low_written, Reach-high (λ rank. rw fresh), at_high, Reach-low, at_low, falls)
    where
      at_high : lookup s high_written.engine.session_floors ≡ some high
      at_high = simp (lookup-write_floor, fresh, ==_self)

      at_low : lookup s low_written.engine.session_floors ≡ some low
      at_low = simp (lookup-write_floor, fresh, ==_self)

      falls :
          ¬ FloorLe
            (lookup s high_written.engine.session_floors)
            (lookup s low_written.engine.session_floors)
      falls le = let h : high ≤ low = (rw (at_high, at_low) at le) in absurd (omega arith)
