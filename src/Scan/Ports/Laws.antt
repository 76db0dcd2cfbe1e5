-- ===== src/Scan/Ports/Laws.antt =====
-- scan/scan.go: lemmas on the two orders and on the lists that they sort.
use le_cli.Prelude.{
  Bytes, Bool, false, not, ◌&&◌, is_empty, str_eq, List, [], ◌∷◌, ◌≡◌, refl, arith, str_eq_iff, ◌∙◌,
  ◌||◌, ◌⊎◌, ◌^◌, All, All-map_imp, true,
}
use le_cli.Prelude.Int.{
  ℤ, pos, ltb_ℤ, lex_ℤ-ordered, ltb_ℤ_asym, ltb_ℤ_trans, lex_ℤ_asym, lex_ℤ_trans,
}
use le_cli.Prelude.Maps.{bytes_eq, elem, Distinct, elem-dedup, dedup-Distinct}
use le_cli.Prelude.Maps
use le_cli.Prelude.Sort.{
  sort, IsSorted, IsWeakOrder, sort-IsSorted, sort-perm, sort-Distinct, elem-sort,
}
use le_cli.Scan.Listener.{Listener}
use le_cli.Prelude.Decimal.{atoi}
use le_cli.Scan.Ports.{
  port_of, port_num, port_less, nonempty_ports, ports_of, first_port_num, listener_less,
  sort_listeners,
}
use mathlib.Core.List.{Perm}

port_less-IsWeakOrder : IsWeakOrder port_less
unfolding port_less
port_less-IsWeakOrder = record {
  asym = λ a b h. ltb_ℤ_asym (port_num a) (port_num b) h;
  trans = λ a b c h k. ltb_ℤ_trans (port_num a) (port_num b) (port_num c) h k;
}

listener_less-IsWeakOrder : {F : Type 0} → IsWeakOrder (listener_less {F = F})
unfolding listener_less
listener_less-IsWeakOrder = record {
  asym = λ a b h. lex_ℤ_asym (first_port_num a.ports) a.pid (first_port_num b.ports) b.pid h;
  trans = λ a b c h k.
      lex_ℤ_trans (first_port_num a.ports) a.pid (first_port_num b.ports) b.pid
        (first_port_num c.ports) c.pid h k;
}

-- What a listener is listed by: the number that `strconv.Atoi` reads in its first port, or 2^30 for a
-- listener without ports.
abbrev pub sort_key : List Bytes → ℤ
sort_key [] = pos (2 ^ 30)
sort_key (p ∷ ps) = (atoi p).0

-- A smaller first port, or the same one and no greater PID.
abbrev pub Precedes : {F : Type 0} → Listener F → Listener F → Type 0
Precedes a b =
    (ltb_ℤ (sort_key a.ports) (sort_key b.ports) ≡ true)
    ⊎ ((sort_key a.ports ≡ sort_key b.ports) × (ltb_ℤ b.pid a.pid ≡ false))

-- Each listener precedes all that follow it.
abbrev pub InOrder : {F : Type 0} → List (Listener F) → Type 0
InOrder [] = Unit
InOrder (l ∷ ls) = All (Precedes l) ls × InOrder ls

sort_key_lem : (ports : List Bytes) → first_port_num ports ≡ sort_key ports
unfolding first_port_num port_num
sort_key_lem [] = refl
sort_key_lem (p ∷ ps) = refl

listener_less-Precedes : {F : Type 0} (a b : Listener F) → listener_less b a ≡ false → Precedes a b
unfolding listener_less
listener_less-Precedes a b h =
    lex_ℤ-ordered (sort_key a.ports) a.pid (sort_key b.ports) b.pid
      (rw (sort_key_lem a.ports, sort_key_lem b.ports) at h)

IsSorted-InOrder : {F : Type 0} (ls : List (Listener F)) → IsSorted listener_less ls → InOrder ls
IsSorted-InOrder [] h = tt
IsSorted-InOrder (l ∷ ls) (first, h) =
    (All-map_imp (λ y p. listener_less-Precedes l y p) ls first, IsSorted-InOrder ls h)

-- The listeners come out in order: each one has a smaller first port than all that follow it, where
-- one without ports counts as 2^30 and a port as the number that `strconv.Atoi` reads in it, or the
-- same first port and no greater PID; and none is lost or doubled.
pub sort_listeners-InOrder :
    {F : Type 0} (ls : List (Listener F))
    → InOrder (sort_listeners ls) × Perm (sort_listeners ls) ls
unfolding sort_listeners
sort_listeners-InOrder ls = (
  IsSorted-InOrder (sort listener_less ls)
      (sort-IsSorted listener_less listener_less-IsWeakOrder ls),
  sort-perm listener_less ls,
)

-- The text is not empty, and is the port of one of the addresses.
abbrev pub has_port : Bytes → List Bytes → Bool
has_port p [] = false
has_port p (a ∷ addrs) =
    let rest = has_port p addrs in (str_eq (port_of a) p && not (is_empty p)) || rest

elem-nonempty_ports :
    (p : Bytes) (addrs : List Bytes) → elem p (nonempty_ports addrs) ≡ has_port p addrs
unfolding nonempty_ports elem
elem-nonempty_ports p [] = refl
elem-nonempty_ports p (a ∷ addrs) =
    ground (arith, elem-nonempty_ports p addrs, str_eq_iff (port_of a) p)

-- `portsOf` returns each port of the addresses once, no empty text and nothing else, sorted by
-- number.
ports_of_lem :
    (addrs : List Bytes)
    → IsSorted port_less (ports_of addrs)
      × Distinct (ports_of addrs)
      × ((p : Bytes) → elem p (ports_of addrs) ≡ has_port p addrs)
unfolding ports_of
ports_of_lem addrs = (
  sort-IsSorted port_less port_less-IsWeakOrder (Maps.dedup (nonempty_ports addrs)),
  sort-Distinct port_less (Maps.dedup (nonempty_ports addrs))
      (dedup-Distinct (nonempty_ports addrs)),
  λ p.
      elem-sort port_less p (Maps.dedup (nonempty_ports addrs))
      ∙ elem-dedup p (nonempty_ports addrs)
      ∙ elem-nonempty_ports p addrs,
)
