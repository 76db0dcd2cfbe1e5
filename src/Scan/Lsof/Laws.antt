-- ===== src/Scan/Lsof/Laws.antt =====
-- scan/scan_unix.go: lemmas on the state while lsof's output is read line by line.
use le_cli.Prelude.{
  Bytes, true, false, List, [], ◌∷◌, none, some, ◌≡◌, refl, arith, All, All-append, Option-cases,
  split, Option, inl, Bool-cases, inr, ◌==◌, ◌&&◌, not, is_empty,
}
use le_cli.Prelude.Decimal.{atoi, NumError}
use le_cli.Prelude.Int.{ℤ}
use le_cli.Prelude.Maps.{
  int_eq, lookup, elem, Distinct, AllValues, insert-AllValues, lookup-AllValues, Distinct-concat,
  lookup-insert, elem-append,
}
use le_cli.Scan.Lsof.{
  Acc, State, initial, start_process, update_current, lsof_line, lsof_lines, parse_lsof,
}
use le_cli.Scan.Ports.{is_local_endpoint}

abbrev pub IsLocal : Bytes → Type 0
IsLocal a = is_local_endpoint a ≡ true

-- Every address kept is local, each PID is listed once, and those without an entry are not listed.
pub record IsSound (s : State) : Type 0 where
  pub local : AllValues (λ (a : Acc). All IsLocal a.addrs) s.by_pid
  pub distinct : Distinct s.order
  pub entered : (pid : ℤ) → lookup pid s.by_pid ≡ none → elem pid s.order ≡ false

start_process-IsSound : (s : State) (pid : ℤ) → IsSound s → IsSound (start_process s pid)
unfolding start_process
start_process-IsSound s pid h = elim (Option-cases (lookup pid s.by_pid)) [
  | inr (a, e) ↦
      rw (e, start_process) (record { local = h.local; distinct = h.distinct; entered = h.entered })
  | inl e ↦
      rw (e, start_process)
        (record {
          local = insert-AllValues _ pid _ s.by_pid tt h.local;
          distinct = Distinct-concat s.order pid h.distinct (h.entered pid e);
          entered = λ q none_at.
              unfold elem in
              ground (
                arith,
                lookup-insert pid q (record { command = []; addrs = [] }) s.by_pid,
                elem-append q s.order (pid ∷ []),
                h.entered q,
              );
        })
]

update_current-IsSound :
    (s : State) (f : Acc → Acc)
    → ((a : Acc) → All IsLocal a.addrs → All IsLocal (f a).addrs)
    → IsSound s
    → IsSound (update_current s f)
unfolding update_current
update_current-IsSound s f keep h = elim (Option-cases (lookup s.cur s.by_pid)) [
  | inl e ↦ rw (e, update_current) h
  | inr (a, e) ↦
      rw (e, update_current)
        (record {
          local =
              insert-AllValues _ s.cur _ s.by_pid
                (keep a (lookup-AllValues _ s.cur s.by_pid h.local e)) h.local;
          distinct = h.distinct;
          entered = λ q none_at. h.entered q (ground (arith, lookup-insert s.cur q (f a) s.by_pid));
        })
]

lsof_line-IsSound : (s : State) (x : Bytes) → IsSound s → IsSound (lsof_line s x)
unfolding lsof_line
lsof_line-IsSound s [] h = h
lsof_line-IsSound s (tag ∷ val) h = elim (Bool-cases (tag == b'p')) [
  | inl p ↦ rw p (start_line (atoi val).1)
  | inr p ↦ rw p (elim (Bool-cases (tag == b'c')) [
    | inl c ↦ rw c (update_current-IsSound s _ (λ a ha. ha) h)
    | inr c ↦ rw c (elim (Bool-cases (tag == b'n' && not (is_empty val) && is_local_endpoint val)) [
      | inl n ↦ rw n (
          update_current-IsSound s _
            (λ a ha. All-append IsLocal a.addrs (val ∷ []) ha (ground arith, tt)) h)
      | inr n ↦ rw n h
    ])
  ])
]
  where
    start_line :
        (e : Option NumError)
        → IsSound (elim e [ none ↦ start_process s (atoi val).0 | some x ↦ s ])
    start_line none = start_process-IsSound s (atoi val).0 h
    start_line (some x) = h

lsof_lines-IsSound : (s : State) (xs : List Bytes) → IsSound s → IsSound (lsof_lines s xs)
unfolding lsof_lines
lsof_lines-IsSound s [] h = h
lsof_lines-IsSound s (x ∷ xs) h = lsof_lines-IsSound (lsof_line s x) xs (lsof_line-IsSound s x h)

-- Whatever lsof prints, the entries that are read from it hold local addresses only, no PID is
-- listed twice, and each PID that is listed has an entry.
pub parse_lsof-IsSound : (out : Bytes) → IsSound (parse_lsof out)
unfolding parse_lsof elem
parse_lsof-IsSound out =
    lsof_lines-IsSound initial (split b'\n' out)
      (record { local = tt; distinct = tt; entered = λ pid h. refl })
