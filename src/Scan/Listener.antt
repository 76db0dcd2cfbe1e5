-- ===== src/Scan/Listener.antt =====
-- scan/scan.go: `Listener`, and the helpers on addresses and ports.
use le_cli.Prelude.{Bytes, Bool, List}
use le_cli.Prelude.Int.{ℤ}

-- One process that holds ports. `F` is Go's `float64`.
pub record Listener (F : Type 0) : Type 0 where
  pub pid : ℤ
  pub command : Bytes
  pub command_line : Bytes
  pub command_line_fallback : Bool
  pub user : Bytes
  pub start_time : Bytes
  pub cwd : Bytes
  pub cpu : F
  pub rss : ℤ
  pub addrs : List Bytes
  pub ports : List Bytes
