-- ===== src/Datacenter/Inventory/Demo.antt =====
-- datacenter/inventory/inventory.go: `Demo`, three invented devices.
use le_cli.Prelude.{
  ℕ, Bytes, codes, ◌&&◌, not, length, List, [], ◌∷◌, ◌++◌, Option, none, some, if◌then◌else◌,
}
use le_cli.Prelude.Decimal.{digits}
use le_cli.Prelude.Int.{ℤ, pos}
use le_cli.Datacenter.Inventory.{
  Association, DeviceRecord, Filters, Snapshot, valid_text, summarize, Bool,
}

abbrev named : ℕ → Bytes → Option Association
named n s = some (record { id = pos n; name = s })

abbrev pub demo_devices : List DeviceRecord
demo_devices =
    record {
      id = pos 1;
      name = codes "demo-cpu-01";
      site = named 1 (codes "demo-east");
      rack = named 1 (codes "demo-a");
      tenant = named 1 (codes "demo-owner");
      role = named 1 (codes "compute");
      status = codes "active";
    }
    ∷ record {
      id = pos 2;
      name = codes "demo-gpu-01";
      site = named 1 (codes "demo-east");
      rack = named 1 (codes "demo-a");
      tenant = named 1 (codes "demo-owner");
      role = named 2 (codes "gpu");
      status = codes "active";
    }
    ∷ record {
      id = pos 3;
      name = codes "demo-gpu-02";
      site = named 2 (codes "demo-west");
      rack = named 2 (codes "demo-b");
      tenant = none;
      role = named 2 (codes "gpu");
      status = codes "active";
    }
    ∷ []

-- `Demo`; its only error is an invalid filter.
unfoldable pub demo : Filters → Bool → ℤ → Option Snapshot
unfolding valid_text summarize digits
demo f details now =
    if not (valid_text f.site && valid_text f.rack && valid_text f.host)
    then none
    else some (record (summarize demo_devices f details (codes "demo") now) {
      coverage =
          codes "STATIC DEMO: "
          ++ (digits (length demo_devices)
              ++ codes " invented device records; not live hardware or customer inventory.");
    })
