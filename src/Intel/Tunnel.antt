-- ===== src/Intel/Tunnel.antt =====
-- intel/tunnel.go: what a kubectl port-forward and a cloudflared process connect to.
use le_cli.Prelude.{
  Bytes, codes, has_prefix, str_eq, is_empty, join, Bool, true, false, not, ◌&&◌, within, List, [],
  ◌∷◌, ◌++◌, Option, none, some, if◌then◌else◌, ◌==◌,
}
use le_cli.Prelude.Letters.{replace_byte}
use le_cli.Prelude.Search.{trim_prefix}
use le_cli.Prelude.Space.{fields}
use le_cli.Prelude.Utf8.{lit}

mapping_from : Bool → Bytes → Bool
mapping_from colon [] = true
mapping_from colon (c ∷ s) =
    let second = mapping_from true s in
    let digit = mapping_from colon s in
    if c == b':'
    then (if colon then false else second)
    else if within b'0' b'9' c
    then digit
    else false

-- `isPortMapping`
unfoldable pub is_port_mapping : Bytes → Bool
unfolding mapping_from
is_port_mapping s = not (is_empty s) && mapping_from false s

-- The fields behind the subcommand.
unfoldable pub after_subcommand : List Bytes → Option (List Bytes)
unfolding str_eq
after_subcommand [] = none
after_subcommand (f ∷ fs) =
    let rest = after_subcommand fs in if str_eq f (codes "port-forward") then some fs else rest

-- What the loop has read: the ports, the namespace and the target.
pub record Forward : Type 0 where
  pub ports : List Bytes
  pub namespace : Bytes
  pub target : Bytes

-- One round for a field that takes no other field with it.
unfoldable pub forward_field : Forward → Bytes → Forward
unfolding has_prefix is_port_mapping replace_byte trim_prefix
forward_field st f =
    if has_prefix f (codes "--namespace=")
    then record st { namespace = trim_prefix f (codes "--namespace=") }
    else if has_prefix f (codes "-")
    then st
    else if is_port_mapping f
    then record st { ports = st.ports ++ replace_byte b':' (lit "→") f ∷ [] }
    else if is_empty st.target
    then record st { target = f }
    else st

is_namespace_flag : Bytes → Bool
unfolding str_eq
is_namespace_flag f = if str_eq f (codes "-n") then true else str_eq f (codes "--namespace")

unfoldable pub forward_fields : Forward → List Bytes → Forward
unfolding forward_field is_namespace_flag
forward_fields st [] = st
forward_fields st (f ∷ []) = if is_namespace_flag f then st else forward_field st f
forward_fields st (f ∷ (g ∷ fs)) =
    let skip = forward_fields (record st { namespace = g }) fs in
    let next = forward_fields (forward_field st f) (g ∷ fs) in
    if is_namespace_flag f then skip else next

forward_label : Forward → Bytes
unfolding lit join
forward_label st =
    let ports = if is_no_ports st.ports then [] else codes " " ++ join (codes " ") st.ports in
    let namespace =
      if is_empty st.namespace then [] else codes " (" ++ (st.namespace ++ codes ")") in
    codes "K8s forward: " ++ (st.target ++ (ports ++ namespace))
  where
    is_no_ports : List Bytes → Bool
    is_no_ports [] = true
    is_no_ports (p ∷ ps) = false

-- `kubectlForwardIdentity`: the identity and the target
unfoldable pub kubectl_forward_identity : Bytes → Bytes × Bytes
unfolding fields after_subcommand forward_fields forward_label
kubectl_forward_identity command_line = elim (after_subcommand (fields command_line)) [
  | none ↦ (codes "K8s port-forward", [])
  | some fs ↦
      let st = forward_fields (record { ports = []; namespace = []; target = [] }) fs in
      if is_empty st.target then (codes "K8s port-forward", []) else (forward_label st, st.target)
]

quick_tunnel : Bytes → Bytes
unfolding trim_prefix lit
quick_tunnel origin =
    lit "Cloudflare quick tunnel → "
    ++ trim_prefix (trim_prefix origin (codes "http://")) (codes "https://")

cloudflared_flag : Bytes → Bytes → Bytes
unfolding has_prefix quick_tunnel trim_prefix
cloudflared_flag f rest =
    if has_prefix f (codes "--url=") then quick_tunnel (trim_prefix f (codes "--url=")) else rest

unfoldable pub cloudflared_fields : List Bytes → Bytes
unfolding cloudflared_flag quick_tunnel str_eq has_prefix
cloudflared_fields [] = codes "Cloudflare Tunnel"
cloudflared_fields (f ∷ []) = cloudflared_flag f (codes "Cloudflare Tunnel")
cloudflared_fields (f ∷ (g ∷ fs)) =
    let rest = cloudflared_fields (g ∷ fs) in
    if str_eq f (codes "run") && not (has_prefix g (codes "-"))
    then codes "Cloudflare Tunnel: " ++ g
    else if str_eq f (codes "--url")
    then quick_tunnel g
    else cloudflared_flag f rest

-- `cloudflaredIdentity`
unfoldable pub cloudflared_identity : Bytes → Bytes
unfolding cloudflared_fields fields
cloudflared_identity command_line = cloudflared_fields (fields command_line)
