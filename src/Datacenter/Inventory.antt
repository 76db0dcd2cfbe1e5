-- ===== src/Datacenter/Inventory.antt =====
-- datacenter/inventory/inventory.go: the records of devices, and what is counted of them. The
-- children model the paged read, and hold the proofs.
pub mod Fetch
pub mod Demo
pub mod Missing
pub mod Counts
pub mod Laws
mod Tests
use le_cli.Prelude.{
  ℕ, suc, ◌+◌, Bytes, codes, Bool, true, false, not, ◌&&◌, ◌||◌, length, List, [], ◌∷◌, ◌++◌,
  Option, none, some, if◌then◌else◌, str_eq, is_empty,
}
use le_cli.Prelude.Int.{ℤ, pos, ltb_ℤ, leb_ℤ, eqb_ℤ}
use le_cli.Prelude.Maps.{Map, lookup, insert, elem, int_eq, bytes_eq}
use le_cli.Prelude.Runes.{plain}
use le_cli.Prelude.Sort.{sort}

abbrev pub max_devices : ℕ
max_devices = 512

pub record Filters : Type 0 where
  pub site : Bytes
  pub rack : Bytes
  pub host : Bytes

pub record Association : Type 0 where
  pub id : ℤ
  pub name : Bytes

-- `record`
pub record DeviceRecord : Type 0 where
  pub id : ℤ
  pub name : Bytes
  pub site : Option Association
  pub rack : Option Association
  pub tenant : Option Association
  pub role : Option Association
  pub status : Bytes

pub record Device : Type 0 where
  pub id : ℤ
  pub name : Bytes
  pub site : Bytes
  pub rack : Bytes
  pub owner : Bytes
  pub role : Bytes
  pub status : Bytes

pub record Snapshot : Type 0 where
  pub data_mode : Bytes
  pub collected_at : ℤ
  pub source_devices : ℕ
  pub devices : ℕ
  pub sites : ℕ
  pub racks : ℕ
  pub owners : ℕ
  pub unassigned : Map Bytes ℕ
  pub lifecycle : Map Bytes ℕ
  pub rows : List Device
  pub coverage : Bytes

unfoldable pub valid_text : Bytes → Bool
unfolding plain
valid_text s = plain s 96

valid_association : Option Association → Bool
unfolding valid_text
valid_association none = true
valid_association (some a) = not (leb_ℤ a.id (pos 0) || not (valid_text a.name))

unfoldable pub valid_record : DeviceRecord → Bool
unfolding valid_text valid_association
valid_record r =
    valid_text r.name
    && valid_text r.status
    && valid_association r.site
    && valid_association r.rack
    && valid_association r.tenant
    && valid_association r.role

unfoldable pub text : Option Association → Bytes
text none = []
text (some a) = a.name

matches : Bytes → Bytes → Bool
unfolding str_eq
matches want got = is_empty want || str_eq want got

-- Whether a record passes the filters.
unfoldable pub selected : Filters → DeviceRecord → Bool
unfolding matches text
selected f r = not (
    not (matches f.site (text r.site))
    || not (matches f.rack (text r.rack))
    || not (matches f.host r.name))

known_status : Bytes → List Bytes → Bytes
unfolding str_eq
known_status s [] = codes "unknown"
known_status s (k ∷ ks) = if str_eq s k then s else known_status s ks

unfoldable pub status_of : DeviceRecord → Bytes
unfolding known_status
status_of r = known_status r.status (
    codes "offline"
    ∷ codes "active"
    ∷ codes "planned"
    ∷ codes "staged"
    ∷ codes "failed"
    ∷ codes "inventory"
    ∷ codes "decommissioning"
    ∷ [])

unfoldable pub device_of : DeviceRecord → Device
unfolding text status_of
device_of r = record {
  id = r.id;
  name = r.name;
  site = text r.site;
  rack = text r.rack;
  owner = text r.tenant;
  role = text r.role;
  status = status_of r;
}

-- `m[k]++`
unfoldable pub bump : Bytes → Map Bytes ℕ → Map Bytes ℕ
unfolding lookup insert
bump k m = elim (lookup k m) [ none ↦ insert k 1 m | some n ↦ insert k (suc n) m ]

-- The snapshot and the three sets, while the loop runs.
pub record Tally : Type 0 where
  pub devices : ℕ
  pub sites : List ℤ
  pub racks : List ℤ
  pub owners : List ℤ
  pub unassigned : Map Bytes ℕ
  pub lifecycle : Map Bytes ℕ
  pub rows : List Device

with_id : Option Association → List ℤ → List ℤ
unfolding elem
with_id none ids = ids
with_id (some a) ids = if elem a.id ids then ids else ids ++ a.id ∷ []

without : Option Association → Bytes → Map Bytes ℕ → Map Bytes ℕ
unfolding bump
without none k m = bump k m
without (some a) k m = m

-- One record that passes.
unfoldable pub count_record : Bool → Tally → DeviceRecord → Tally
unfolding with_id without bump status_of device_of
count_record details t r = record {
  devices = suc t.devices;
  sites = with_id r.site t.sites;
  racks = with_id r.rack t.racks;
  owners = with_id r.tenant t.owners;
  unassigned =
      without r.tenant (codes "owner")
        (without r.rack (codes "rack") (without r.site (codes "site") t.unassigned));
  lifecycle = bump (status_of r) t.lifecycle;
  rows = if details then t.rows ++ device_of r ∷ [] else t.rows;
}

unfoldable pub count_records : Filters → Bool → Tally → List DeviceRecord → Tally
unfolding count_record selected
count_records f details t [] = t
count_records f details t (r ∷ rs) =
    count_records f details (if selected f r then count_record details t r else t) rs

unfoldable pub empty_tally : Tally
empty_tally = record {
  devices = 0;
  sites = [];
  racks = [];
  owners = [];
  unassigned = (codes "site", 0) ∷ (codes "rack", 0) ∷ (codes "owner", 0) ∷ [];
  lifecycle = [];
  rows = [];
}

unfoldable pub by_id : Device → Device → Bool
by_id a b = ltb_ℤ a.id b.id

abbrev live_coverage : Bytes
live_coverage =
    codes
      "NetBox device records only; lifecycle and ownership are recorded context, not physical verification. Collection time is the read time, not the age of each source record."

-- `summarize`
unfoldable pub summarize : List DeviceRecord → Filters → Bool → Bytes → ℤ → Snapshot
unfolding count_records empty_tally sort by_id
summarize records f details mode now =
    let t = count_records f details empty_tally records in
    record {
      data_mode = mode;
      collected_at = now;
      source_devices = length records;
      devices = t.devices;
      sites = length t.sites;
      racks = length t.racks;
      owners = length t.owners;
      unassigned = t.unassigned;
      lifecycle = t.lifecycle;
      rows = sort by_id t.rows;
      coverage = live_coverage;
    }
