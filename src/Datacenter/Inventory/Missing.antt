-- ===== src/Datacenter/Inventory/Missing.antt =====
-- datacenter/inventory/inventory.go: the counts that are kept in maps.
use le_cli.Prelude.{
  ℕ, suc, ◌+◌, Bytes, codes, Bool, true, false, List, [], ◌∷◌, Option, none, some, if◌then◌else◌,
  ◌≡◌, refl, ap, ◌∙◌, arith, Bool-cases, inl, inr, Option-cases, ◌&&◌, str_eq_iff, str_eq,
}
use le_cli.Prelude.Maps.{Map, lookup, insert, lookup-insert, bytes_eq}
use le_cli.Datacenter.Inventory.{
  Association, DeviceRecord, Filters, Tally, selected, bump, count_record, without,
}

-- The records that pass the filters.
abbrev pub passing : Filters → List DeviceRecord → List DeviceRecord
passing f [] = []
passing f (r ∷ rs) = if selected f r then r ∷ passing f rs else passing f rs

-- How many of the records lack an association.
abbrev pub lacking : (DeviceRecord → Option Association) → List DeviceRecord → ℕ
lacking field [] = 0
lacking field (r ∷ rs) = elim (field r) [
  | none ↦ suc (lacking field rs)
  | some a ↦ lacking field rs
]

-- The sum of all counts.
abbrev pub total : Map Bytes ℕ → ℕ
total [] = 0
total ((k, n) ∷ m) = n + total m

total-insert_new :
    (k : Bytes) (n : ℕ) (m : Map Bytes ℕ) → lookup k m ≡ none → total (insert k n m) ≡ n + total m
unfolding lookup insert
total-insert_new k n [] h = refl
total-insert_new k n ((j, w) ∷ m) h = elim (Bool-cases (bytes_eq.same j k)) [
  | inl e ↦ ground (arith, e)
  | inr e ↦ rw e (omega (arith, total-insert_new k n m (rw e at h)))
]

total-insert_next :
    (k : Bytes) (n : ℕ) (m : Map Bytes ℕ)
    → lookup k m ≡ some n
    → total (insert k (suc n) m) ≡ suc (total m)
unfolding lookup insert
total-insert_next k n [] h = cc
total-insert_next k n ((j, w) ∷ m) h = elim (Bool-cases (bytes_eq.same j k)) [
  | inl e ↦ ground (arith, e)
  | inr e ↦ rw e (omega (arith, total-insert_next k n m (rw e at h)))
]

bump_missing : (k : Bytes) (m : Map Bytes ℕ) → lookup k m ≡ none → bump k m ≡ insert k 1 m
unfolding bump
bump_missing k m e = rw (e, bump) refl

bump_found :
    (k : Bytes) (m : Map Bytes ℕ) (n : ℕ) → lookup k m ≡ some n → bump k m ≡ insert k (suc n) m
unfolding bump
bump_found k m n e = rw (e, bump) refl

pub total-bump : (k : Bytes) (m : Map Bytes ℕ) → total (bump k m) ≡ suc (total m)
total-bump k m = elim (Option-cases (lookup k m)) [
  | inl e ↦ ap total (bump_missing k m e) ∙ total-insert_new k 1 m e ∙ omega arith
  | inr (n, e) ↦ ap total (bump_found k m n e) ∙ total-insert_next k n m e
]

-- One count goes up, and no other one.
pub lookup-bump :
    (k j : Bytes) (m : Map Bytes ℕ) (n : ℕ)
    → lookup k m ≡ some n
    → lookup k (bump j m) ≡ some (if str_eq j k then suc n else n)
lookup-bump k j m n h = elim (Bool-cases (str_eq j k)) [
  | inl same ↦
      let e : j ≡ k = (str_eq_iff j k).0 same in
      let at : lookup j m ≡ some n = ap (λ x. lookup x m) e ∙ h in
      ap (lookup k) (bump_found j m n at) ∙ lookup-insert j k (suc n) m ∙ rw same refl
  | inr other ↦ elim (Option-cases (lookup j m)) [
    | inl e ↦ ap (lookup k) (bump_missing j m e) ∙ lookup-insert j k 1 m ∙ rw other h
    | inr (i, e) ↦ ap (lookup k) (bump_found j m i e) ∙ lookup-insert j k (suc i) m ∙ rw other h
  ]
]

abbrev is_none : Option Association → Bool
is_none none = true
is_none (some a) = false

lookup-without :
    (k j : Bytes) (o : Option Association) (m : Map Bytes ℕ) (n : ℕ)
    → lookup k m ≡ some n
    → lookup k (without o j m) ≡ some (if is_none o && str_eq j k then suc n else n)
unfolding without
lookup-without k j none m n h = lookup-bump k j m n h
lookup-without k j (some a) m n h = h

-- The three counts of what is unassigned, as they stand in a map.
abbrev pub Lacks : Map Bytes ℕ → ℕ → ℕ → ℕ → Type 0
Lacks m site rack owner =
    (lookup (codes "site") m ≡ some site)
    × (lookup (codes "rack") m ≡ some rack)
    × (lookup (codes "owner") m ≡ some owner)

unfoldable pub up : Option Association → ℕ → ℕ
up none n = suc n
up (some a) n = n

up-is_none : (o : Option Association) (n : ℕ) → (if is_none o && true then suc n else n) ≡ up o n
unfolding up
up-is_none none n = refl
up-is_none (some a) n = refl

same-is_none : (o : Option Association) (n : ℕ) → (if is_none o && false then suc n else n) ≡ n
same-is_none none n = refl
same-is_none (some a) n = refl

pub count_record-Lacks :
    (details : Bool) (t : Tally) (r : DeviceRecord) (site rack owner : ℕ)
    → Lacks t.unassigned site rack owner
    → Lacks
        (count_record details t r).unassigned
        (up r.site site)
        (up r.rack rack)
        (up r.tenant owner)
unfolding count_record str_eq
count_record-Lacks details t r site rack owner (a, b, c) =
    let m = t.unassigned in
    let m₁ = without r.site (codes "site") m in
    let m₂ = without r.rack (codes "rack") m₁ in
    let step : (k j : Bytes) (o : Option Association) (m : Map Bytes ℕ) (n i : ℕ)
        → lookup k m ≡ some n
        → (if is_none o && str_eq j k then suc n else n) ≡ i
        → lookup k (without o j m) ≡ some i =
      λ k j o m n i h e. lookup-without k j o m n h ∙ ap some e in
    let keep =
      λ (k j : Bytes) (o : Option Association) (m : Map Bytes ℕ) (n : ℕ) (h : lookup k m ≡ some n)
          (e : str_eq j k ≡ false).
        step k j o m n n h (ap (λ x. if is_none o && x then suc n else n) e ∙ same-is_none o n) in
    (
      keep (codes "site") (codes "owner") r.tenant m₂ (up r.site site)
          (keep (codes "site") (codes "rack") r.rack m₁ (up r.site site)
            (step (codes "site") (codes "site") r.site m site (up r.site site) a
              (up-is_none r.site site))
            refl)
          refl,
      keep (codes "rack") (codes "owner") r.tenant m₂ (up r.rack rack)
          (step (codes "rack") (codes "rack") r.rack m₁ rack (up r.rack rack)
            (keep (codes "rack") (codes "site") r.site m rack b refl) (up-is_none r.rack rack))
          refl,
      step (codes "owner") (codes "owner") r.tenant m₂ owner (up r.tenant owner)
          (keep (codes "owner") (codes "rack") r.rack m₁ owner
            (keep (codes "owner") (codes "site") r.site m owner c refl) refl)
          (up-is_none r.tenant owner),
    )
