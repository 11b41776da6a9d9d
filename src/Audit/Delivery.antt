-- ===== src/Audit/Delivery.antt =====
-- Which sinks record an entry.
use mcp_zero_trust_proxy.Base.{
  String, ◌≡◌, sym, false, ◌++◌, ◌==◌, eq_iff, subst, ◌↔◌, ◌⊎◌, inl, inr, refl, Bool, true, ◌&&◌,
  ◌||◌, Option, none, some, List, [], ◌∷◌, is_empty, contains, In, In-keep, arith, Bool-cases,
}
use mcp_zero_trust_proxy.Protocol.{Bytes}
use mcp_zero_trust_proxy.Http.{bytes_of}
use mcp_zero_trust_proxy.Pipeline.{AuditEntry}
use mcp_zero_trust_proxy.Audit.{
  Filter, Sink, AuditEngine, SinkConfig, create_external_sink, match_any, matches_entry, accepts,
  accepts_by, log, result_of, escaped, match_string,
}

-- A list of a filter selects a value: it is empty, or `P` holds.
abbrev pub Selects : List String → Type 0 → Type 0
Selects list P = (list ≡ []) ⊎ P

Selects-iff :
    (list : List String) (test : Bool) {P : Type 0}
    → (test ≡ true) ↔ P
    → ((is_empty list || test) ≡ true) ↔ Selects list P
Selects-iff [] test p = (λ h. inl refl, λ h. refl)
Selects-iff (x ∷ list) test (to, from) =
    (λ h. inr (to h), λ h. elim h [ inl q ↦ cc | inr q ↦ from q ])

and_iff :
    (a b c d : Bool)
    → ((a && b && c && d) ≡ true) ↔ ((a ≡ true) × (b ≡ true) × (c ≡ true) × (d ≡ true))
and_iff a b c d = (λ h. ground arith, λ h. ground arith)

contains_iff_In : (xs : List String) (s : String) → (contains xs s ≡ true) ↔ In s xs
unfolding contains
contains_iff_In [] s = (λ h. cc, λ h. absurd h)
contains_iff_In (x ∷ xs) s =
    let (to, from) = contains_iff_In xs s in
    (
      λ h. elim (Bool-cases (x == s)) [
        | inl e ↦ inl (sym ((eq_iff x s).0 e))
        | inr e ↦ inr (to (ground (arith, h, e)))
      ],
      λ h. elim h [
        | inl e ↦ let same = (eq_iff x s).1 (sym e) in ground (arith, same)
        | inr m ↦ let rest = from m in ground (arith, rest)
      ],
    )

-- The words for the two results.
abbrev pub IsResult : AuditEntry → String → Type 0
IsResult entry word =
    ((entry.allowed ≡ true) × (word ≡ "allowed")) ⊎ ((entry.allowed ≡ false) × (word ≡ "denied"))

result_of-IsResult : (entry : AuditEntry) → IsResult entry (result_of entry)
result_of-IsResult entry = elim (Bool-cases entry.allowed) [
  | inl e ↦ inl (e, rw e refl)
  | inr e ↦ inr (e, rw e refl)
]

word_determined :
    (entry : AuditEntry) (word : String) → IsResult entry word → word ≡ result_of entry
word_determined entry word (inl (e, q)) = rw e q
word_determined entry word (inr (e, q)) = rw e q

module _ (regexp : Bytes → Bytes → Bool) (entry : AuditEntry) where
  -- The text matches the pattern: the whole of it, with the pattern's dots and stars escaped.
  abbrev pub Fits : String → String → Type 0
  Fits pattern s = regexp (b'^' ∷ escaped (bytes_of pattern) ++ b'$' ∷ []) (bytes_of s) ≡ true

  -- What a sink's filter asks of the entry.
  abbrev pub Wants : Option Filter → Type 0
  Wants none = Unit
  Wants (some f) =
      Selects f.methods (In entry.method f.methods)
      × Selects f.tools ((pattern : String) × In pattern f.tools × Fits pattern entry.tool_name)
      × Selects f.results ((word : String) × In word f.results × IsResult entry word)
      × Selects f.client_ids (In entry.client_id f.client_ids)

  match_any_iff :
      (patterns : List String) (s : String)
      → (match_any regexp patterns s ≡ true)
        ↔ ((pattern : String) × In pattern patterns × Fits pattern s)
  unfolding match_any match_string
  match_any_iff [] s = (λ h. cc, λ h. absurd h.1)
  match_any_iff (p ∷ patterns) s =
      let (to, from) = match_any_iff patterns s in
      (
        λ h. elim (Bool-cases (match_string regexp p s)) [
          | inl e ↦ (p, inl refl, e)
          | inr e ↦ let (q, m, fits) = to (ground (arith, h, e)) in (q, inr m, fits)
        ],
        λ (q, m, fits). elim m [
          | inl e ↦
              let here : match_string regexp p s ≡ true = subst (λ x. Fits x s) e fits in
              ground (arith, here)
          | inr deeper ↦ let rest = from (q, deeper, fits) in ground (arith, rest)
        ],
      )

  IsResult-iff :
      (results : List String)
      → (contains results (result_of entry) ≡ true)
        ↔ ((word : String) × In word results × IsResult entry word)
  IsResult-iff results =
      let (to, from) = contains_iff_In results (result_of entry) in
      (
        λ h. (result_of entry, to h, result_of-IsResult entry),
        λ (word, m, same). from (subst (λ w. In w results) (word_determined entry word same) m),
      )

  accepts_iff : (o : Option Filter) → (accepts_by regexp o entry ≡ true) ↔ Wants o
  unfolding matches_entry
  accepts_iff none = (λ h. tt, λ h. refl)
  accepts_iff (some f) =
      let m = Selects-iff f.methods _ (contains_iff_In f.methods entry.method) in
      let t = Selects-iff f.tools _ (match_any_iff f.tools entry.tool_name) in
      let r = Selects-iff f.results _ (IsResult-iff f.results) in
      let c = Selects-iff f.client_ids _ (contains_iff_In f.client_ids entry.client_id) in
      (
        λ h. let (hm, ht, hr, hc) = (and_iff _ _ _ _).0 h in (m.0 hm, t.0 ht, r.0 hr, c.0 hc),
        λ (hm, ht, hr, hc). (and_iff _ _ _ _).1 (m.1 hm, t.1 ht, r.1 hr, c.1 hc),
      )

  -- A sink records an entry exactly when the engine is enabled, the sink is one of its sinks and
  -- can take an entry now, and each list of the sink's filter, if it has one, is empty or selects
  -- the entry: it holds the entry's method, a pattern that matches its tool, the word for its
  -- result, and its client.
  pub log_iff :
      (ready : Sink → Bool) (e : AuditEngine) (sink : Sink)
      → In sink (log regexp ready e entry)
        ↔ ((e.enabled ≡ true) × In sink e.sinks × (ready sink ≡ true) × Wants sink.filter)
  unfolding log
  log_iff ready e sink =
      let (kept, keeps) = In-keep (λ x. accepts regexp entry x && ready x) sink e.sinks in
      let (wants, wanted) = accepts_iff sink.filter in
      elim (Bool-cases e.enabled) [
        | inl on ↦ rw on (
          λ h.
              let both = (kept h).1 in
              let accepted : accepts_by regexp sink.filter entry ≡ true = ground (arith, both) in
              (refl, (kept h).0, ground (arith, both), wants accepted),
          λ (_, listed, able, w).
              let accepted = wanted w in keeps (listed, ground (arith, accepted, able)),
        )
        | inr off ↦ rw off (λ h. absurd h, λ (on, _, _, _). cc)
      ]

  -- An OCSF sink records every entry, whatever filter is configured for it.
  pub ocsf_unfiltered :
      (cfg : SinkConfig) (sink : Sink)
      → cfg.kind ≡ "ocsf"
      → create_external_sink cfg ≡ some sink
      → accepts regexp entry sink ≡ true
  unfolding create_external_sink
  ocsf_unfiltered cfg sink kind h = elim (Bool-cases (cfg.section && cfg.built)) [
    | inl made ↦
        let same : record { name = cfg.name; filter = none } ≡ sink = cc (rw (kind, made) at h) in
        subst (λ x. accepts regexp entry x ≡ true) same refl
    | inr failed ↦ cc (rw (kind, failed) at h)
  ]
