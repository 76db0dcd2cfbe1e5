-- ===== src/Kill/Identity.antt =====
-- kill/kill.go: `normalizeWS`, `launchdGuardOK` and `stillSame`.
use le_cli.Prelude.{Bytes, Bool, false, not, ◌&&◌, is_empty, join, str_eq, [], ◌∷◌, ◌≡◌, ap}
use le_cli.Prelude.Int.{ℤ, eqb_ℤ}
use le_cli.Prelude.Space.{fields, fields-join, fields-IsWord}
use le_cli.Scan.Listener.{Listener}
use le_cli.Kill.World.{World, Reply, text, fault, M, ◌>>=◌, pure, ask, start, command}

unfoldable pub normalize_ws : Bytes → Bytes
unfolding fields join
normalize_ws s = join (32 ∷ []) (fields s)

-- `normalizeWS` is idempotent: a text it returns, it returns unchanged.
pub normalize_ws-normalize_ws : (s : Bytes) → normalize_ws (normalize_ws s) ≡ normalize_ws s
unfolding normalize_ws
normalize_ws-normalize_ws s = ap (join (32 ∷ [])) (fields-join (fields s) (fields-IsWord s))

unfoldable pub launchd_guard_ok : ℤ → ℤ → Bool → Bool
unfolding eqb_ℤ
launchd_guard_ok scan_pid cur_pid lookup_ok = lookup_ok && eqb_ℤ cur_pid scan_pid

unfoldable pub same_start : Bytes → Reply → Bool
same_start captured (text out) = str_eq (normalize_ws out) (normalize_ws captured)
same_start captured (fault e) = false

unfoldable pub same_command : Bytes → Reply → Bool
same_command captured (text out) =
    let cur = normalize_ws out in not (is_empty cur) && str_eq cur (normalize_ws captured)
same_command captured (fault e) = false

still_same_by : {F : Type 0} → World → Listener F → Bytes → M Bool
still_same_by w l [] = do
  out ← ask (command l.pid) (λ t. w.command_line t l.pid)
  pure (same_command l.command_line out)
still_same_by w l (c ∷ s) = do
  out ← ask (start l.pid) (λ t. w.start_time t l.pid)
  pure (same_start (c ∷ s) out)

unfoldable pub still_same : {F : Type 0} → World → Listener F → M Bool
unfolding still_same_by
still_same w l = still_same_by w l l.start_time
