-- ===== src/Datacenter/Inventory/Counts.antt =====
-- datacenter/inventory/inventory.go: the fold over the records.
use le_cli.Prelude.{
  ℕ, suc, ◌+◌, Bytes, Bool, true, false, length, List, [], ◌∷◌, ◌++◌, map, Option, none, some,
  if◌then◌else◌, ◌≡◌, refl, ap, sym, ◌∙◌, subst, arith, append-nil, append_assoc, Bool-cases, inl,
  inr,
}
use le_cli.Prelude.Maps.{Map, bytes_eq}
use le_cli.Datacenter.Inventory.{
  Association, DeviceRecord, Filters, Tally, selected, device_of, status_of, count_record,
  count_records,
}
use le_cli.Datacenter.Inventory.Missing.{
  passing, lacking, total, total-bump, Lacks, up, count_record-Lacks,
}

-- The counts behind a fold over the records that pass, from those before it.
pub record Counts (details : Bool) (t u : Tally) (kept : List DeviceRecord) : Type 0 where
  pub devices : u.devices ≡ t.devices + length kept
  pub lifecycle : total u.lifecycle + t.devices ≡ total t.lifecycle + u.devices
  pub rows : u.rows ≡ t.rows ++ (if details then map device_of kept else [])
  pub unassigned :
      (site rack owner : ℕ)
      → Lacks t.unassigned site rack owner
      → Lacks u.unassigned
          (site + lacking (λ (r : DeviceRecord). r.site) kept)
          (rack + lacking (λ (r : DeviceRecord). r.rack) kept)
          (owner + lacking (λ (r : DeviceRecord). r.tenant) kept)

nil_rows : (details : Bool) → [] ≡ (if details then map device_of [] else [])
nil_rows true = refl
nil_rows false = refl

count_record-rows :
    (details : Bool) (t : Tally) (r : DeviceRecord) (rs : List DeviceRecord)
    → (count_record details t r).rows ++ (if details then map device_of rs else [])
      ≡ t.rows ++ (if details then map device_of (r ∷ rs) else [])
unfolding count_record
count_record-rows true t r rs = append_assoc t.rows (device_of r ∷ []) (map device_of rs)
count_record-rows false t r rs = refl

count_record-lifecycle :
    (details : Bool) (t : Tally) (r : DeviceRecord)
    → total (count_record details t r).lifecycle ≡ suc (total t.lifecycle)
unfolding count_record
count_record-lifecycle details t r = total-bump (status_of r) t.lifecycle

count_record-devices :
    (details : Bool) (t : Tally) (r : DeviceRecord)
    → (count_record details t r).devices ≡ suc t.devices
unfolding count_record
count_record-devices details t r = refl

pub up-lacking :
    (o : Option Association) (n k : ℕ) → up o n + k ≡ n + (elim o [ none ↦ suc k | some a ↦ k ])
unfolding up
up-lacking none n k = omega arith
up-lacking (some a) n k = refl

pub Lacks-eq :
    (m : Map Bytes ℕ) {a b c d e f : ℕ} → Lacks m a b c → a ≡ d → b ≡ e → c ≡ f → Lacks m d e f
Lacks-eq m (x, y, z) p q r = (x ∙ ap some p, y ∙ ap some q, z ∙ ap some r)

Counts-cons :
    (details : Bool) (t u : Tally) (r : DeviceRecord) (kept : List DeviceRecord)
    → Counts details (count_record details t r) u kept
    → Counts details t u (r ∷ kept)
Counts-cons details t u r kept h = record {
  devices = omega (arith, h.devices, count_record-devices details t r);
  lifecycle =
      omega
        (arith, h.lifecycle, count_record-devices details t r, count_record-lifecycle details t r);
  rows = h.rows ∙ count_record-rows details t r kept;
  unassigned = λ site rack owner lacks.
      Lacks-eq u.unassigned
        (h.unassigned (up r.site site) (up r.rack rack) (up r.tenant owner)
          (count_record-Lacks details t r site rack owner lacks))
        (up-lacking r.site site _) (up-lacking r.rack rack _) (up-lacking r.tenant owner _);
}

pub count_records-Counts :
    (f : Filters) (details : Bool) (t : Tally) (rs : List DeviceRecord)
    → Counts details t (count_records f details t rs) (passing f rs)
unfolding count_records
count_records-Counts f details t [] = record {
  devices = omega arith;
  lifecycle = refl;
  rows = sym (append-nil t.rows) ∙ ap (t.rows ++◌) (nil_rows details);
  unassigned = λ site rack owner (a, b, c).
      (a ∙ ap some (omega arith), b ∙ ap some (omega arith), c ∙ ap some (omega arith));
}
count_records-Counts f details t (r ∷ rs) = elim (Bool-cases (selected f r)) [
  | inl e ↦
      let one = count_record details t r in
      let folded : count_records f details t (r ∷ rs) ≡ count_records f details one rs =
        rw e refl in
      let kept : passing f (r ∷ rs) ≡ r ∷ passing f rs = rw e refl in
      subst (λ u. Counts details t u (passing f (r ∷ rs))) (sym folded)
        (subst (Counts details t (count_records f details one rs)) (sym kept) (
          Counts-cons details t (count_records f details one rs) r (passing f rs)
            (count_records-Counts f details one rs)))
  | inr e ↦
      let folded : count_records f details t (r ∷ rs) ≡ count_records f details t rs = rw e refl in
      let kept : passing f (r ∷ rs) ≡ passing f rs = rw e refl in
      subst (λ u. Counts details t u (passing f (r ∷ rs))) (sym folded)
        (subst (Counts details t (count_records f details t rs)) (sym kept)
          (count_records-Counts f details t rs))
]
