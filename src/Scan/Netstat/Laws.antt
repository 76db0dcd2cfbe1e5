-- ===== src/Scan/Netstat/Laws.antt =====
-- scan/netstat.go: the table of listeners, compared with the rows.
use le_cli.Prelude.{
  Bytes, split, Bool, true, false, List, [], ◌∷◌, ◌++◌, append-nil, append_assoc, none, some,
  if◌then◌else◌, ◌≡◌, refl, sym, ap, ◌∙◌, arith, Option-cases, inl, inr,
}
use le_cli.Prelude.Int.{ℤ, eqb_ℤ, eqb_ℤ_iff}
use le_cli.Prelude.Maps.{
  Map, int_eq, lookup, lookup-insert, elem, Distinct, Distinct-concat, elem-append,
}
use le_cli.Prelude.Space.{fields}
use le_cli.Scan.Netstat.{Table, listener_row, add_listener, netstat_lines, parse_netstat}

-- What the table holds for a process, nothing if it is not in it.
unfoldable pub addresses : ℤ → Map ℤ (List Bytes) → List Bytes
unfolding lookup
addresses pid m = elim (lookup pid m) [ none ↦ [] | some addrs ↦ addrs ]

-- The addresses of the process in the rows, in their order.
unfoldable pub listed : ℤ → List Bytes → List Bytes
unfolding listener_row fields eqb_ℤ
listed pid [] = []
listed pid (line ∷ lines) =
    let rest = listed pid lines in
    elim (listener_row (fields line)) [
      | none ↦ rest
      | some (q, local) ↦ (if eqb_ℤ q pid then local ∷ rest else rest)
    ]

addresses-add_listener :
    (t : Table) (q : ℤ) (local : Bytes) (pid : ℤ)
    → addresses pid (add_listener t q local).by_pid
      ≡ (if eqb_ℤ q pid then addresses pid t.by_pid ++ local ∷ [] else addresses pid t.by_pid)
unfolding add_listener addresses
addresses-add_listener t q local pid = elim (Option-cases (lookup q t.by_pid)) [
  | inl e ↦ ground (arith, e, lookup-insert q pid (local ∷ []) t.by_pid, eqb_ℤ_iff q pid)
  | inr (addrs, e) ↦
      ground (arith, e, lookup-insert q pid (addrs ++ local ∷ []) t.by_pid, eqb_ℤ_iff q pid)
]

add_here :
    (b : Bool) (before : List Bytes) (local : Bytes) (rest : List Bytes)
    → (if b then before ++ local ∷ [] else before) ++ rest
      ≡ before ++ (if b then local ∷ rest else rest)
add_here true before local rest = append_assoc before (local ∷ []) rest
add_here false before local rest = refl

addresses-netstat_lines :
    (t : Table) (lines : List Bytes) (pid : ℤ)
    → addresses pid (netstat_lines t lines).by_pid ≡ addresses pid t.by_pid ++ listed pid lines
unfolding netstat_lines listed
addresses-netstat_lines t [] pid = sym (append-nil (addresses pid t.by_pid))
addresses-netstat_lines t (line ∷ lines) pid = elim (Option-cases (listener_row (fields line))) [
  | inl e ↦ rw (e, netstat_lines, listed) (addresses-netstat_lines t lines pid)
  | inr ((q, local), e) ↦
      rw (e, netstat_lines, listed)
        (addresses-netstat_lines (add_listener t q local) lines pid
          ∙ ap (λ a. a ++ listed pid lines) (addresses-add_listener t q local pid)
          ∙ add_here (eqb_ℤ q pid) (addresses pid t.by_pid) local (listed pid lines))
]

unfoldable pub is_entered : ℤ → Map ℤ (List Bytes) → Bool
unfolding lookup
is_entered pid m = elim (lookup pid m) [ none ↦ false | some addrs ↦ true ]

-- The order lists the processes of the table, each once.
abbrev pub IsListed : Table → Type 0
IsListed t = Distinct t.order × ((pid : ℤ) → elem pid t.order ≡ is_entered pid t.by_pid)

add_listener-IsListed :
    (t : Table) (q : ℤ) (local : Bytes) → IsListed t → IsListed (add_listener t q local)
unfolding add_listener is_entered elem
add_listener-IsListed t q local (d, same) = elim (Option-cases (lookup q t.by_pid)) [
  | inl e ↦
      let fresh : elem q t.order ≡ false = same q ∙ rw (e, is_entered) refl in
      rw (e, add_listener)
        (
          Distinct-concat t.order q d fresh,
          λ pid. ground (
            arith,
            same pid,
            elem-append pid t.order (q ∷ []),
            lookup-insert q pid (local ∷ []) t.by_pid,
          ),
        )
  | inr (addrs, e) ↦
      rw (e, add_listener)
        (
          d,
          λ pid. ground (
            arith,
            e,
            same pid,
            lookup-insert q pid (addrs ++ local ∷ []) t.by_pid,
            eqb_ℤ_iff q pid,
          ),
        )
]

netstat_lines-IsListed :
    (t : Table) (lines : List Bytes) → IsListed t → IsListed (netstat_lines t lines)
unfolding netstat_lines
netstat_lines-IsListed t [] h = h
netstat_lines-IsListed t (line ∷ lines) h = elim (Option-cases (listener_row (fields line))) [
  | inl e ↦ rw (e, netstat_lines) (netstat_lines-IsListed t lines h)
  | inr ((q, local), e) ↦
      rw (e, netstat_lines)
        (netstat_lines-IsListed (add_listener t q local) lines (add_listener-IsListed t q local h))
]

-- Whatever netstat prints, the table groups its rows by process: the addresses of a process are
-- those of its listening rows, in their order, and the order lists each process of the table once,
-- and no other one.
pub parse_netstat-IsListed :
    (out : Bytes)
    → IsListed (parse_netstat out)
      × ((pid : ℤ) → addresses pid (parse_netstat out).by_pid ≡ listed pid (split b'\n' out))
unfolding parse_netstat addresses is_entered elem
parse_netstat-IsListed out = (
  netstat_lines-IsListed (record { by_pid = []; order = [] }) (split b'\n' out) (tt, λ pid. refl),
  λ pid. addresses-netstat_lines (record { by_pid = []; order = [] }) (split b'\n' out) pid,
)
