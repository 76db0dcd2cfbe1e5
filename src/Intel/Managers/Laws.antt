-- ===== src/Intel/Managers/Laws.antt =====
-- intel/intel.go and intel/launchd_lookup.go: the jobs that `launchctl list` reports.
use le_cli.Prelude.{
  Bytes, codes, split, str_eq, str_eq_iff, is_empty, Bool, true, false, ◌||◌, List, [], ◌∷◌, Option,
  none, some, if◌then◌else◌, ◌≡◌, ◌≢◌, refl, sym, ap, ◌∙◌, subst, arith, Bool-cases, inl, inr, All,
  join,
}
use le_cli.Prelude.Decimal.{atoi, NumError}
use le_cli.Prelude.Int.{ℤ, pos, eqb_ℤ, eqb_ℤ_iff, ltb_ℤ, leb_ℤ}
use le_cli.Prelude.Maps.{Map, lookup, insert, elem, Distinct, int_eq}
use le_cli.Prelude.Space.{all_space, trim_space}
use le_cli.Intel.Managers.{
  below_header, launchd_row, launchd_lines, columns, parse_launchd_list, collect,
  lookup_launchd_label_pid,
}

-- A job that runs, under a name.
abbrev pub IsJob : ℤ × Bytes → Type 0
IsJob e = (ltb_ℤ (pos 0) e.0 ≡ true) × (is_empty e.1 ≡ false)

insert-IsJob :
    (pid : ℤ) (label : Bytes) (m : Map ℤ Bytes)
    → IsJob (pid, label)
    → All IsJob m
    → All IsJob (insert pid label m)
unfolding insert
insert-IsJob pid label [] j h = (j, tt)
insert-IsJob pid label ((k, v) ∷ m) j (i, h) = elim (Bool-cases (eqb_ℤ k pid)) [
  | inl e ↦ rw e (j, h)
  | inr e ↦ rw e (i, insert-IsJob pid label m j h)
]

not_positive : (pid : ℤ) → leb_ℤ pid (pos 0) ≡ false → ltb_ℤ (pos 0) pid ≡ true
not_positive pid h = ground arith

none_true : (a b : Bool) → (a || b) ≡ false → (a ≡ false) × (b ≡ false)
none_true a b h = ground arith

added-IsJob :
    (r : ℤ × Option NumError) (label : Bytes) (m : Map ℤ Bytes)
    → All IsJob m
    → All IsJob (
        if (elim r.1 as (λ _. Bool) [ none ↦ leb_ℤ r.0 (pos 0) | some x ↦ true ]) || is_empty label
        then m
        else insert r.0 label m)
added-IsJob (pid, some x) label m h = h
added-IsJob (pid, none) label m h = elim (Bool-cases (leb_ℤ pid (pos 0) || is_empty label)) [
  | inl e ↦ rw e h
  | inr e ↦
      let (a, b) = none_true _ _ e in rw e (insert-IsJob pid label m (not_positive pid a, b) h)
]

launchd_row-IsJob : (m : Map ℤ Bytes) (fs : List Bytes) → All IsJob m → All IsJob (launchd_row m fs)
unfolding launchd_row
launchd_row-IsJob m [] h = h
launchd_row-IsJob m (a ∷ []) h = h
launchd_row-IsJob m (a ∷ (b ∷ [])) h = h
launchd_row-IsJob m (a ∷ (b ∷ (c ∷ ls))) h =
    added-IsJob (atoi (trim_space a)) (trim_space (join (codes "\t") (c ∷ ls))) m h

launchd_lines-IsJob :
    (ls : List Bytes) (m : Map ℤ Bytes) → All IsJob m → All IsJob (launchd_lines m ls)
unfolding launchd_lines
launchd_lines-IsJob [] m h = h
launchd_lines-IsJob (l ∷ ls) m h = elim (Bool-cases (all_space l)) [
  | inl e ↦ rw e (launchd_lines-IsJob ls m h)
  | inr e ↦
      rw e (launchd_lines-IsJob ls (launchd_row m (columns l)) (launchd_row-IsJob m (columns l) h))
]

-- Whatever `launchctl list` prints, each job that is read from it has a positive PID and a label
-- that is not empty.
pub parse_launchd_list-IsJob : (out : Bytes) → All IsJob (parse_launchd_list out)
unfolding parse_launchd_list
parse_launchd_list-IsJob out = launchd_lines-IsJob (below_header (split b'\n' out)) [] tt

abbrev pub keys : Map ℤ Bytes → List ℤ
keys [] = []
keys ((k, v) ∷ m) = k ∷ keys m

-- The order in which Go ranges over the map: each key once, with its value.
abbrev pub IsOrder : (Map ℤ Bytes → Map ℤ Bytes) → Map ℤ Bytes → Type 0
IsOrder order m = Distinct (keys (order m)) × ((k : ℤ) → lookup k (order m) ≡ lookup k m)

lookup-elem : (k : ℤ) (v : Bytes) (m : Map ℤ Bytes) → lookup k m ≡ some v → elem k (keys m) ≡ true
unfolding lookup elem
lookup-elem k v [] h = cc
lookup-elem k v ((j, w) ∷ m) h = elim (Bool-cases (eqb_ℤ j k)) [
  | inl e ↦ rw e refl
  | inr e ↦ rw e (lookup-elem k v m (rw e at h))
]

-- The label is that of no job.
abbrev Unused : Bytes → Map ℤ Bytes → Type 0
Unused label m = (q : ℤ) → lookup q m ≢ some label

abbrev Unique : Bytes → Map ℤ Bytes → ℤ → Type 0
Unique label m pid = (lookup pid m ≡ some label) × ((q : ℤ) → lookup q m ≡ some label → q ≡ pid)

collect_hit :
    (label : Bytes) (found j : ℤ) (l : Bytes) (m : Map ℤ Bytes)
    → str_eq l label ≡ true
    → eqb_ℤ found (pos 0) ≡ false
    → collect label found ((j, l) ∷ m) ≡ (pos 0, false)
unfolding collect
collect_hit label found j l m e f = rw (e, f) refl

collect_first :
    (label : Bytes) (j : ℤ) (l : Bytes) (m : Map ℤ Bytes)
    → str_eq l label ≡ true
    → collect label (pos 0) ((j, l) ∷ m) ≡ collect label j m
unfolding collect eqb_ℤ
collect_first label j l m e = rw e refl

collect_pass :
    (label : Bytes) (found j : ℤ) (l : Bytes) (m : Map ℤ Bytes)
    → str_eq l label ≡ false
    → collect label found ((j, l) ∷ m) ≡ collect label found m
unfolding collect
collect_pass label found j l m e = rw e refl

other_label :
    (label : Bytes) (j : ℤ) (l : Bytes) (m : Map ℤ Bytes) (q : ℤ)
    → str_eq l label ≡ false
    → lookup q ((j, l) ∷ m) ≡ some label
    → lookup q m ≡ some label
unfolding lookup
other_label label j l m q e h = ground (arith, str_eq_iff l label)

collect_second :
    (label : Bytes) (found pid : ℤ) (m : Map ℤ Bytes)
    → eqb_ℤ found (pos 0) ≡ false
    → collect label found m ≡ (pid, true)
    → (pid ≡ found) × Unused label m
unfolding collect lookup
collect_second label found pid [] f h = (cc, λ q e. cc)
collect_second label found pid ((j, l) ∷ m) f h = elim (Bool-cases (str_eq l label)) [
  | inl e ↦ absurd (clash (sym (collect_hit label found j l m e f) ∙ h))
  | inr e ↦
      let (same, unused) =
        collect_second label found pid m f (sym (collect_pass label found j l m e) ∙ h) in
      (same, λ q at. unused q (other_label label j l m q e at))
]
  where
    clash : ◌≡◌ {A = ℤ × Bool} (pos 0, false) (pid, true) → ⊥
    clash c = cc

lookup_later :
    (k j : ℤ) (l v : Bytes) (m : Map ℤ Bytes)
    → elem j (keys m) ≡ false
    → lookup k m ≡ some v
    → lookup k ((j, l) ∷ m) ≡ some v
unfolding lookup
lookup_later k j l v m fresh h = elim (Bool-cases (eqb_ℤ j k)) [
  | inl e ↦
      let there : elem j (keys m) ≡ true =
        subst (λ i. elem i (keys m) ≡ true) (sym ((eqb_ℤ_iff j k).0 e)) (lookup-elem k v m h) in
      absurd (clash (sym fresh ∙ there))
  | inr e ↦ rw e h
]
  where
    clash : false ≡ true → ⊥
    clash c = cc

lookup_head : (j : ℤ) (l : Bytes) (m : Map ℤ Bytes) → lookup j ((j, l) ∷ m) ≡ some l
unfolding lookup
lookup_head j l m = rw ((eqb_ℤ_iff j j).1 refl) refl

only_head :
    (label : Bytes) (j : ℤ) (l : Bytes) (m : Map ℤ Bytes) (q : ℤ)
    → Unused label m
    → lookup q ((j, l) ∷ m) ≡ some label
    → q ≡ j
unfolding lookup
only_head label j l m q unused h = elim (Bool-cases (eqb_ℤ j q)) [
  | inl e ↦ sym ((eqb_ℤ_iff j q).0 e)
  | inr e ↦ absurd (unused q (rw e at h))
]

abbrev AllPositive : Map ℤ Bytes → Type 0
AllPositive m = (k : ℤ) (v : Bytes) → lookup k m ≡ some v → eqb_ℤ k (pos 0) ≡ false

collect_nothing : (label : Bytes) (pid : ℤ) → collect label (pos 0) [] ≡ (pid, true) → ⊥
unfolding collect
collect_nothing label pid c = cc

collect-Unique :
    (label : Bytes) (pid : ℤ) (m : Map ℤ Bytes)
    → Distinct (keys m)
    → AllPositive m
    → collect label (pos 0) m ≡ (pid, true)
    → Unique label m pid
collect-Unique label pid [] d ps h = absurd (collect_nothing label pid h)
collect-Unique label pid ((j, l) ∷ m) (fresh, d) ps h = elim (Bool-cases (str_eq l label)) [
  | inl e ↦
      let (same, unused) =
        collect_second label j pid m (ps j l (lookup_head j l m))
          (sym (collect_first label j l m e) ∙ h) in
      let found = lookup_head j l m ∙ ap some ((str_eq_iff l label).0 e) in
      (
        ap (λ k. lookup k ((j, l) ∷ m)) same ∙ found,
        λ q at. only_head label j l m q unused at ∙ sym same,
      )
  | inr e ↦
      let (found, only) =
        collect-Unique label pid m d (λ k v at. ps k v (lookup_later k j l v m fresh at))
          (sym (collect_pass label (pos 0) j l m e) ∙ h) in
      (lookup_later pid j l label m fresh found, λ q at. only q (other_label label j l m q e at))
]

entry-IsJob :
    (m : Map ℤ Bytes) (k : ℤ) (v : Bytes)
    → All IsJob m
    → lookup k m ≡ some v
    → ltb_ℤ (pos 0) k ≡ true
unfolding lookup
entry-IsJob [] k v h e = cc
entry-IsJob ((j, l) ∷ m) k v (i, h) e = elim (Bool-cases (eqb_ℤ j k)) [
  | inl s ↦ subst (λ x. ltb_ℤ (pos 0) x ≡ true) ((eqb_ℤ_iff j k).0 s) i.0
  | inr s ↦ entry-IsJob m k v h (rw s at e)
]

not_zero : (k : ℤ) → ltb_ℤ (pos 0) k ≡ true → eqb_ℤ k (pos 0) ≡ false
unfolding eqb_ℤ
not_zero k h = ground arith

-- In whatever order Go ranges over the jobs: if the lookup finds a PID for a label, the label is
-- that of the PID, and of no other PID.
pub lookup_launchd_label_pid-Unique :
    (order : Map ℤ Bytes → Map ℤ Bytes) (label out : Bytes) (pid : ℤ)
    → IsOrder order (parse_launchd_list out)
    → lookup_launchd_label_pid order label (some out) ≡ (pid, true)
    → (lookup pid (parse_launchd_list out) ≡ some label)
      × ((q : ℤ) → lookup q (parse_launchd_list out) ≡ some label → q ≡ pid)
unfolding lookup_launchd_label_pid
lookup_launchd_label_pid-Unique order label out pid o h =
    let m = parse_launchd_list out in
    let (d, same) = o in
    let ps : AllPositive (order m) =
      λ k v at. not_zero k (entry-IsJob m k v (parse_launchd_list-IsJob out) (sym (same k) ∙ at)) in
    let (found, only) = collect-Unique label pid (order m) d ps h in
    (sym (same pid) ∙ found, λ q at. only q (same q ∙ at))
