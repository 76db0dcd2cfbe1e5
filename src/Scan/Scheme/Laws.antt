-- ===== src/Scan/Scheme/Laws.antt =====
-- scan/scheme.go: the cache and its probes as a step relation, with the lemmas on its steps.
use le_cli.Prelude.{
  ℕ, ◌≤◌, true, ◌==◌, some, List, [], ◌∷◌, ◌++◌, Bytes, ◌≡◌, refl, arith, All, ==_iff, subst, sym,
  ◌∙◌, Bool-cases, Option-cases, inl, inr,
}
use le_cli.Prelude.Maps.{Map, Key, bytes_eq, lookup, insert}
use le_cli.Scan.Scheme.{
  Prober, SchemeEntry, Cache, Probe, fresh, scheme_hit, cached_scheme, set_prober, begin_refresh,
  end_refresh,
}

some_injective : {A : Type 0} {a b : A} → some a ≡ some b → a ≡ b
some_injective h = cc

module _ {K V : Type 0} ⦃e : Key K⦄ (P : K → V → Type 0) where
  abbrev pub AllEntries : Map K V → Type 0
  AllEntries [] = Unit
  AllEntries ((k, v) ∷ m) = P k v × AllEntries m

  insert-AllEntries :
      (k : K) (v : V) (m : Map K V) → P k v → AllEntries m → AllEntries (insert k v m)
  unfolding insert
  insert-AllEntries k v [] p h = (p, tt)
  insert-AllEntries k v ((j, w) ∷ m) p (q, h) = elim (Bool-cases (e.same j k)) [
    | inl b ↦ rw (b, insert) (p, h)
    | inr b ↦ rw (b, insert) (q, insert-AllEntries k v m p h)
  ]

  lookup-AllEntries : (k : K) (v : V) (m : Map K V) → AllEntries m → lookup k m ≡ some v → P k v
  unfolding lookup
  lookup-AllEntries k v [] h f = cc
  lookup-AllEntries k v ((j, w) ∷ m) (q, h) f = elim (Bool-cases (e.same j k)) [
    | inl b ↦
        subst (λ x. P x v) ((e.same_iff j k).0 b)
          (subst (P j) (some_injective (rw (b, lookup) at f)) q)
    | inr b ↦ lookup-AllEntries k v m h (rw (b, lookup) at f)
  ]

-- The prober has said at some time that the port speaks HTTPS.
abbrev pub Answered : Prober → Bytes → Type 0
Answered prober port = (asked : ℕ) × (prober asked port ≡ true)

-- The cache and the probes under way.
pub record System : Type 0 where
  pub cache : Cache
  pub probes : List Probe

-- A repaint that asks for a scheme; a probe of any port that begins; one that ends, whichever began
-- first; and another prober.
pub data Step : System → System → Type 0 where
  repaint :
      {s : System} (now : ℕ) (port : Bytes)
      → Step s (record s { cache = (cached_scheme now port s.cache).1 })
  begins :
      {s : System} (port : Bytes)
      → Step s (record s { probes = begin_refresh port s.cache ∷ s.probes })
  ends :
      {c : Cache} (before after : List Probe) (p : Probe) (asked now : ℕ)
      → Step
          (record { cache = c; probes = before ++ p ∷ after })
          (record { cache = (end_refresh asked now p c).1; probes = before ++ after })
  replaces :
      {s : System} (prober : Prober) → Step s (record s { cache = set_prober prober s.cache })

pub data Reach (s : System) : System → Type 0 where
  here : Reach s s
  next : {t u : System} → Reach s t → Step t u → Reach s u

abbrev Holds : Prober → Bytes → SchemeEntry → Type 0
Holds prober port e = e.https ≡ true → Answered prober port

-- A probe of the current generation asks the current prober, and no probe is of a later one.
abbrev IsOfAge : Cache → Probe → Type 0
IsOfAge c p = (p.gen ≤ c.gen) × (p.gen ≡ c.gen → p.prober ≡ c.prober)

record IsCurrent (s : System) : Type 0 where
  held : AllEntries (Holds s.cache.prober) s.cache.entries
  aged : All (IsOfAge s.cache) s.probes

repaint-held :
    (now : ℕ) (port : Bytes) (c : Cache)
    → AllEntries (Holds c.prober) c.entries
    → AllEntries (Holds c.prober) (cached_scheme now port c).1.entries
unfolding cached_scheme
repaint-held now port c h = elim (Option-cases (lookup port c.entries)) [
  | inl n ↦
      rw (n, cached_scheme)
        (insert-AllEntries (Holds c.prober) port _ c.entries (λ x. ground arith) h)
  | inr (e, n) ↦ elim (Bool-cases (fresh now e)) [
    | inl b ↦ rw (n, cached_scheme, b) h
    | inr b ↦
        rw (n, cached_scheme, b)
          (insert-AllEntries (Holds c.prober) port _ c.entries
            (lookup-AllEntries (Holds c.prober) port e c.entries h n) h)
  ]
]

repaint-same :
    (now : ℕ) (port : Bytes) (c : Cache)
    → ((cached_scheme now port c).1.gen ≡ c.gen) × ((cached_scheme now port c).1.prober ≡ c.prober)
unfolding cached_scheme
repaint-same now port c = ground arith

ends-held :
    (asked now : ℕ) (p : Probe) (c : Cache)
    → (p.gen ≡ c.gen → p.prober ≡ c.prober)
    → AllEntries (Holds c.prober) c.entries
    → AllEntries (Holds c.prober) (end_refresh asked now p c).1.entries
unfolding end_refresh
ends-held asked now p c same h = elim (Bool-cases (p.gen == c.gen)) [
  | inl b ↦ rw b (
      insert-AllEntries (Holds c.prober) p.port _ c.entries
        (λ x. (asked, subst (λ f. f asked p.port ≡ true) (same ((==_iff p.gen c.gen).0 b)) x)) h)
  | inr b ↦ rw b h
]

-- A probe leaves the list, and the others stay.
split-aged :
    (c : Cache) (before after : List Probe) (p : Probe)
    → All (IsOfAge c) (before ++ p ∷ after)
    → IsOfAge c p × All (IsOfAge c) (before ++ after)
split-aged c [] after p (h, rest) = (h, rest)
split-aged c (b ∷ before) after p (h, rest) =
    let (g, k) = split-aged c before after p rest in (g, (h, k))

-- What holds of the age of the probes depends on the generation and the prober only.
same-aged :
    (c d : Cache) (ps : List Probe)
    → (d.gen ≡ c.gen) × (d.prober ≡ c.prober)
    → All (IsOfAge c) ps
    → All (IsOfAge d) ps
same-aged c d [] e h = tt
same-aged c d (p ∷ ps) (g, q) ((old, current), h) =
    ((omega (arith, g, old), λ x. current (x ∙ g) ∙ sym q), same-aged c d ps (g, q) h)

replaced-aged :
    (prober : Prober) (c : Cache) (ps : List Probe)
    → All (IsOfAge c) ps
    → All (IsOfAge (set_prober prober c)) ps
unfolding set_prober
replaced-aged prober c [] h = tt
replaced-aged prober c (p ∷ ps) ((old, current), h) =
    ((omega (arith, old), λ x. ground arith), replaced-aged prober c ps h)

ends-same :
    (asked now : ℕ) (p : Probe) (c : Cache)
    → ((end_refresh asked now p c).1.gen ≡ c.gen)
      × ((end_refresh asked now p c).1.prober ≡ c.prober)
unfolding end_refresh
ends-same asked now p c = ground arith

-- A property of the entries for a prober that is the same one.
same-held :
    (q r : Prober) (m : Map Bytes SchemeEntry)
    → r ≡ q
    → AllEntries (Holds q) m
    → AllEntries (Holds r) m
same-held q r m e h = subst (λ x. AllEntries (Holds x) m) (sym e) h

Step-IsCurrent : {s t : System} → Step s t → IsCurrent s → IsCurrent t
Step-IsCurrent {s = s} (repaint now port) h =
    let c = (cached_scheme now port s.cache).1 in
    let same = repaint-same now port s.cache in
    record {
      held =
          same-held s.cache.prober c.prober c.entries same.1 (repaint-held now port s.cache h.held);
      aged = same-aged s.cache c s.probes same h.aged;
    }
Step-IsCurrent {s = s} (begins port) h =
    unfold begin_refresh in record { held = h.held; aged = ((omega arith, λ x. refl), h.aged) }
Step-IsCurrent (ends {c = c} before after p asked now) h =
    let d = (end_refresh asked now p c).1 in
    let same = ends-same asked now p c in
    let (age, rest) = split-aged c before after p h.aged in
    record {
      held = same-held c.prober d.prober d.entries same.1 (ends-held asked now p c age.1 h.held);
      aged = same-aged c d (before ++ after) same rest;
    }
Step-IsCurrent {s = s} (replaces prober) h =
    unfold set_prober in record { held = tt; aged = replaced-aged prober s.cache s.probes h.aged }

abbrev pub start : Prober → System
start prober = record { cache = record { entries = []; gen = 0; prober = prober }; probes = [] }

Reach-IsCurrent : {prober : Prober} {s : System} → Reach (start prober) s → IsCurrent s
Reach-IsCurrent here = record { held = tt; aged = tt }
Reach-IsCurrent (next r step) = Step-IsCurrent step (Reach-IsCurrent r)

cached-Answered :
    (now : ℕ) (port : Bytes) (c : Cache)
    → AllEntries (Holds c.prober) c.entries
    → (cached_scheme now port c).0 ≡ true
    → Answered c.prober port
unfolding cached_scheme
cached-Answered now port c h k = elim (Option-cases (lookup port c.entries)) [
  | inl n ↦ cc (rw (n, cached_scheme) at k)
  | inr (e, n) ↦ lookup-AllEntries (Holds c.prober) port e c.entries h n (ground arith)
]

hit-Answered :
    (now : ℕ) (port : Bytes) (c : Cache)
    → AllEntries (Holds c.prober) c.entries
    → scheme_hit now port c ≡ some true
    → Answered c.prober port
unfolding scheme_hit
hit-Answered now port c h k = elim (Option-cases (lookup port c.entries)) [
  | inl n ↦ cc (rw (n, scheme_hit) at k)
  | inr (e, n) ↦ lookup-AllEntries (Holds c.prober) port e c.entries h n (ground arith)
]

-- However repaints, probes and changes of the prober follow one another, and in whatever order the
-- probes end, the cache answers `https` for a port, fresh or stale, only if the prober that is in
-- place now has itself found HTTPS there.
pub cached_scheme-Answered :
    {prober : Prober} {s : System} (now : ℕ) (port : Bytes)
    → Reach (start prober) s
    → ((cached_scheme now port s.cache).0 ≡ true → Answered s.cache.prober port)
      × (scheme_hit now port s.cache ≡ some true → Answered s.cache.prober port)
cached_scheme-Answered {s = s} now port r =
    let h = (Reach-IsCurrent r).held in
    (cached-Answered now port s.cache h, hit-Answered now port s.cache h)
