-- ===== src/Scan/Unix/Laws.antt =====
-- scan/scan_unix.go: lemmas on the listeners of a whole scan, and on its failures.
use le_cli.Prelude.{
  Bytes, codes, false, is_empty, join, List, [], ◌∷◌, map, some, ◌≡◌, ◌≢◌, refl, arith, All,
  Option-cases, inl, inr, subst, Bool-cases, ◌↔◌,
}
use le_cli.Prelude.Decimal.{itoa}
use le_cli.Prelude.Int.{ℤ}
use le_cli.Prelude.Maps.{
  Map, int_eq, bytes_eq, lookup, elem, Distinct, AllValues, lookup-AllValues, dedup-All,
  dedup-Distinct,
}
use le_cli.Scan.Listener.{Listener}
use le_cli.Scan.Lsof.Laws.{IsLocal, IsSound, parse_lsof-IsSound}
use le_cli.Scan.Lsof.{Acc, State, parse_lsof, read_cwd}
use le_cli.Scan.Ports.{dedup}
use le_cli.Scan.Ps.Laws.{read_ps_timed}
use le_cli.Scan.Ps.{PsRow, row_of, read_ps}
use le_cli.Scan.Unix.{
  Runner, RunError, found, failed, no_match, no_addrs, make_listener, add_listener, make_listeners,
  describe, lsof_args, ps_args, cwd_args, after_lsof, scan_with_runner, lsof_args, all_space,
}

-- A row has an address, only local addresses, no address twice, and a start time unless its command
-- line is the short name.
pub record IsWellFormed {F : Type 0} (l : Listener F) : Type 0 where
  pub addrs_ne_nil : l.addrs ≢ []
  pub addrs_local : All IsLocal l.addrs
  pub addrs_distinct : Distinct l.addrs
  pub timed : l.command_line_fallback ≡ false → is_empty l.start_time ≡ false

dedup-ne-nil : (xs : List Bytes) → no_addrs xs ≡ false → dedup xs ≢ []
unfolding dedup elem
dedup-ne-nil [] h = cc
dedup-ne-nil (x ∷ xs) h = cc

-- Every row with a command line has a start time.
abbrev Timed : {F : Type 0} → F → Map ℤ (PsRow F) → Type 0
Timed zero_float ps =
    (q : ℤ)
    → is_empty (row_of zero_float q ps).command ≡ false
    → is_empty (row_of zero_float q ps).start ≡ false

abbrev pub pid_of : {F : Type 0} → Listener F → ℤ
pid_of l = l.pid

module _ {F : Type 0} (zero_float : F) (ps : Map ℤ (PsRow F)) (cwds : Map ℤ Bytes) where
  make_listener-IsWellFormed :
      (pid : ℤ) (a : Acc)
      → Timed zero_float ps
      → All IsLocal a.addrs
      → no_addrs a.addrs ≡ false
      → IsWellFormed (make_listener zero_float ps cwds pid a)
  unfolding make_listener
  make_listener-IsWellFormed pid a timed local some_addr = record {
    addrs_ne_nil = dedup-ne-nil a.addrs some_addr;
    addrs_local = unfold dedup in dedup-All IsLocal a.addrs local;
    addrs_distinct = unfold dedup in dedup-Distinct a.addrs;
    timed = timed pid;
  }

  make_listeners-IsWellFormed :
      (by_pid : Map ℤ Acc) (order : List ℤ)
      → Timed zero_float ps
      → AllValues (λ (a : Acc). All IsLocal a.addrs) by_pid
      → All IsWellFormed (make_listeners zero_float ps cwds by_pid order)
  unfolding make_listeners
  make_listeners-IsWellFormed by_pid [] timed local = tt
  make_listeners-IsWellFormed by_pid (pid ∷ order) timed local =
      let rest = make_listeners-IsWellFormed by_pid order timed local in
      elim (Option-cases (lookup pid by_pid)) [
        | inl e ↦ rw (e, add_listener) rest
        | inr (a, e) ↦ elim (Bool-cases (no_addrs a.addrs)) [
          | inl n ↦ rw (e, add_listener, n) rest
          | inr n ↦
              rw (e, add_listener, n)
                (
                  make_listener-IsWellFormed pid a timed (lookup-AllValues _ pid by_pid local e) n,
                  rest,
                )
        ]
      ]

  elem-make_listeners :
      (q : ℤ) (by_pid : Map ℤ Acc) (order : List ℤ)
      → elem q order ≡ false
      → elem q (map pid_of (make_listeners zero_float ps cwds by_pid order)) ≡ false
  unfolding make_listeners make_listener elem
  elem-make_listeners q by_pid [] h = refl
  elem-make_listeners q by_pid (pid ∷ order) h = ground (arith, elem-make_listeners q by_pid order)

  make_listeners-Distinct :
      (by_pid : Map ℤ Acc) (order : List ℤ)
      → Distinct order
      → Distinct (map pid_of (make_listeners zero_float ps cwds by_pid order))
  unfolding make_listeners make_listener
  make_listeners-Distinct by_pid [] d = tt
  make_listeners-Distinct by_pid (pid ∷ order) (n, d) =
      ground (arith, make_listeners-Distinct by_pid order, elem-make_listeners pid by_pid order)

found_injective : {F : Type 0} {xs ys : List (Listener F)} → found xs ≡ found ys → xs ≡ ys
found_injective h = cc

module _ {F : Type 0} (zero_float : F) (parse_float : Bytes → F) (run : Runner) where
  describe_lem :
      (s : State)
      → IsSound s
      → All IsWellFormed (describe zero_float parse_float run s)
        × Distinct (map pid_of (describe zero_float parse_float run s))
  unfolding describe
  describe_lem s h =
      let csv = join (codes ",") (map itoa s.order) in
      let cwds = read_cwd (run (codes "lsof") (cwd_args csv)).0 in
      let out1 = (run (codes "ps") (ps_args csv (codes "pid=,lstart=,user="))).0 in
      let out2 = (run (codes "ps") (ps_args csv (codes "pid=,command="))).0 in
      let out3 = (run (codes "ps") (ps_args csv (codes "pid=,%cpu=,rss="))).0 in
      let ps = read_ps zero_float parse_float out1 out2 out3 in
      (
        make_listeners-IsWellFormed zero_float ps cwds s.by_pid s.order
            (read_ps_timed zero_float parse_float out1 out2 out3) h.local,
        make_listeners-Distinct zero_float ps cwds s.by_pid s.order h.distinct,
      )

  after_lsof_lem :
      (out : Bytes) (ls : List (Listener F))
      → after_lsof zero_float parse_float run out ≡ found ls
      → All IsWellFormed ls × Distinct (map pid_of ls)
  unfolding after_lsof
  after_lsof_lem out ls h = elim (Bool-cases (all_space out)) [
    | inl b ↦
        let e : [] ≡ ls = found_injective (rw b at h) in
        subst (λ x. All IsWellFormed x × Distinct (map pid_of x)) e (tt, tt)
    | inr b ↦
        let e : describe zero_float parse_float run (parse_lsof out) ≡ ls =
          found_injective (rw b at h) in
        subst (λ x. All IsWellFormed x × Distinct (map pid_of x)) e
          (describe_lem (parse_lsof out) (parse_lsof-IsSound out))
  ]

  -- Whatever lsof and ps print, a scan that succeeds lists each PID at most once, and every row is
  -- well-formed: it has an address, its addresses are local and distinct, and it has a start time
  -- unless its command line is only lsof's short name.
  pub scan_with_runner-IsWellFormed :
      {ls : List (Listener F)}
      → scan_with_runner zero_float parse_float run ≡ found ls
      → All IsWellFormed ls × Distinct (map pid_of ls)
  unfolding scan_with_runner
  scan_with_runner-IsWellFormed {ls} h =
      let r = run (codes "lsof") lsof_args in
      elim (Option-cases r.1) [
        | inl e ↦ after_lsof_lem r.0 ls (rw (e, scan_with_runner) at h)
        | inr (x, e) ↦ elim (Bool-cases (no_match r.0 x)) [
          | inl b ↦ after_lsof_lem r.0 ls (rw (e, scan_with_runner, b) at h)
          | inr b ↦ cc (rw (e, scan_with_runner, b) at h)
        ]
      ]

  -- A scan fails exactly if the first lsof call fails and not by a silent exit 1 with no output,
  -- and then with that error.
  pub scan_with_runner_failed :
      (e : RunError)
      → (scan_with_runner zero_float parse_float run ≡ failed e) ↔ (
          ((run (codes "lsof") lsof_args).1 ≡ some e)
          × (no_match (run (codes "lsof") lsof_args).0 e ≡ false))
  unfolding scan_with_runner after_lsof
  scan_with_runner_failed e = ground arith
