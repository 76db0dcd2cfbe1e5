-- ===== src/Datacenter/Inventory/Laws.antt =====
-- datacenter/inventory/inventory.go: what the counts add up to.
use le_cli.Prelude.{
  Bytes, Bool, length, List, [], ◌++◌, map, if◌then◌else◌, ◌≡◌, refl, ap, ◌∙◌, subst, arith, str_eq,
}
use le_cli.Prelude.Int.{ℤ, ltb_ℤ_asym, ltb_ℤ_trans}
use le_cli.Prelude.Maps.{lookup, bytes_eq}
use mathlib.Core.List.{Perm}
use le_cli.Prelude.Sort.{sort-IsSorted, IsSorted, IsWeakOrder, sort, sort-perm}
use le_cli.Datacenter.Inventory.{
  DeviceRecord, Filters, Snapshot, device_of, count_records, empty_tally, by_id, summarize,
}
use le_cli.Datacenter.Inventory.Missing.{passing, lacking, total, Lacks}
use le_cli.Datacenter.Inventory.Counts.{Lacks-eq, count_records-Counts}

by_id-IsWeakOrder : IsWeakOrder by_id
unfolding by_id
by_id-IsWeakOrder = record {
  asym = λ a b. ltb_ℤ_asym a.id b.id;
  trans = λ a b c. ltb_ℤ_trans a.id b.id c.id;
}

empty_devices : empty_tally.devices ≡ 0
unfolding empty_tally
empty_devices = refl

empty_lifecycle : total empty_tally.lifecycle ≡ 0
unfolding empty_tally
empty_lifecycle = refl

empty_rows : empty_tally.rows ≡ []
unfolding empty_tally
empty_rows = refl

empty_Lacks : Lacks empty_tally.unassigned 0 0 0
unfolding empty_tally lookup str_eq
empty_Lacks = (refl, refl, refl)

-- What a summary of records says.
pub record IsSummary (rs : List DeviceRecord) (f : Filters) (details : Bool) (s : Snapshot)
    : Type 0 where
  pub source : s.source_devices ≡ length rs
  pub devices : s.devices ≡ length (passing f rs)
  pub lifecycle : total s.lifecycle ≡ s.devices
  pub unassigned :
      Lacks s.unassigned
        (lacking (λ (r : DeviceRecord). r.site) (passing f rs))
        (lacking (λ (r : DeviceRecord). r.rack) (passing f rs))
        (lacking (λ (r : DeviceRecord). r.tenant) (passing f rs))
  pub listed : Perm s.rows (if details then map device_of (passing f rs) else [])
  pub sorted : IsSorted by_id s.rows

-- A summary counts the records that pass the filters: the states of the lifecycle add up to them, and
-- each unassigned count is the number of those that lack the association; its rows are these devices,
-- each once and sorted by id, or none without details.
pub summarize-IsSummary :
    (rs : List DeviceRecord) (f : Filters) (details : Bool) (mode : Bytes) (now : ℤ)
    → IsSummary rs f details (summarize rs f details mode now)
unfolding summarize
summarize-IsSummary rs f details mode now =
    let h = count_records-Counts f details empty_tally rs in
    let u = count_records f details empty_tally rs in
    let listed = if details then map device_of (passing f rs) else [] in
    let rows : u.rows ≡ listed = h.rows ∙ ap (◌++ listed) empty_rows in
    record {
      source = refl;
      devices = omega (arith, h.devices, empty_devices);
      lifecycle = omega (arith, h.lifecycle, empty_devices, empty_lifecycle);
      unassigned =
          Lacks-eq u.unassigned (h.unassigned 0 0 0 empty_Lacks) (omega arith) (omega arith)
            (omega arith);
      listed = subst (Perm (sort by_id u.rows)) rows (sort-perm by_id u.rows);
      sorted = sort-IsSorted by_id by_id-IsWeakOrder u.rows;
    }
