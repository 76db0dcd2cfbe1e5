-- ===== src/Scan/Ports.antt =====
-- scan/scan.go: `isLocalEndpoint`, `portOf`, `portsOf`, `dedup`, `firstPortNum` and
-- `sortListeners`.
pub mod Laws
use le_cli.Prelude.{
  Bytes, codes, Bool, true, false, ◌||◌, has_prefix, is_empty, List, [], ◌∷◌, Option, none, some,
  if◌then◌else◌, ◌≡◌, refl, str_eq,
}
use le_cli.Prelude.Decimal.{atoi}
use le_cli.Prelude.Int.{ℤ, pos, negsuc, ltb_ℤ, eqb_ℤ}
use le_cli.Prelude.Letters.{after_last}
use le_cli.Prelude.Maps.{bytes_eq}
use le_cli.Prelude.Maps
use le_cli.Prelude.Sort.{sort}
use le_cli.Scan.Listener.{Listener}

-- 127.0.0.0/8, ::1, localhost and the wildcard addresses
unfoldable pub is_local_endpoint : Bytes → Bool
unfolding has_prefix
is_local_endpoint addr =
    has_prefix addr (codes "127.")
    || has_prefix addr (codes "[::1]")
    || has_prefix addr (codes "localhost:")
    || has_prefix addr (codes "*:")
    || has_prefix addr (codes "0.0.0.0:")
    || has_prefix addr (codes "[::]:")

-- What follows the last colon, or "".
unfoldable pub port_of : Bytes → Bytes
unfolding after_last
port_of addr = elim (after_last b':' addr) [ none ↦ [] | some p ↦ p ]

unfoldable pub dedup : List Bytes → List Bytes
unfolding Maps.dedup
dedup xs = Maps.dedup xs

-- `atoi` with the error dropped
unfoldable pub port_num : Bytes → ℤ
unfolding atoi
port_num p = (atoi p).0

unfoldable pub port_less : Bytes → Bytes → Bool
unfolding port_num
port_less a b = ltb_ℤ (port_num a) (port_num b)

-- The ports of the addresses that have one.
unfoldable pub nonempty_ports : List Bytes → List Bytes
unfolding port_of
nonempty_ports [] = []
nonempty_ports (a ∷ as') =
    let rest = nonempty_ports as' in if is_empty (port_of a) then rest else port_of a ∷ rest

unfoldable pub ports_of : List Bytes → List Bytes
unfolding nonempty_ports sort port_less Maps.dedup
ports_of addrs = sort port_less (Maps.dedup (nonempty_ports addrs))

-- A listener with no port sorts as port 2^30.
unfoldable pub first_port_num : List Bytes → ℤ
unfolding port_num
first_port_num [] = pos 1073741824
first_port_num (p ∷ ps) = port_num p

-- The order of `sortListeners`: the first port, then the PID.
unfoldable pub listener_less : {F : Type 0} → Listener F → Listener F → Bool
unfolding first_port_num eqb_ℤ
listener_less a b =
    let pi = first_port_num a.ports in
    let pj = first_port_num b.ports in if eqb_ℤ pi pj then ltb_ℤ a.pid b.pid else ltb_ℤ pi pj

unfoldable pub sort_listeners : {F : Type 0} → List (Listener F) → List (Listener F)
unfolding sort listener_less
sort_listeners ls = sort listener_less ls

ports_tests :
    (ports_of (codes "127.0.0.1:3000" ∷ codes "[::1]:80" ∷ codes "*:3000" ∷ codes "x:" ∷ [])
      ≡ codes "80" ∷ codes "3000" ∷ [])
    × (is_local_endpoint (codes "192.168.0.7:80") ≡ false)
unfolding ports_of is_local_endpoint str_eq
ports_tests = (refl, refl)
