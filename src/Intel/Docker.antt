-- ===== src/Intel/Docker.antt =====
-- intel/intel.go: `IsDockerHelper`, the names of executables that belong to a container engine.
use le_cli.Prelude.{
  Bytes, codes, has_prefix, take, Bool, false, ◌||◌, List, [], ◌∷◌, none, some, if◌then◌else◌, ◌==◌,
}
use le_cli.Prelude.Letters.{to_lower, trim_suffix, trim_set, replace_byte, index_byte, base}
use le_cli.Prelude.Maps.{elem, bytes_eq}
use le_cli.Prelude.Space.{fields, trim_space}
use le_cli.Scan.Listener.{Listener}

abbrev docker_names : List Bytes
docker_names =
    codes "docker"
    ∷ codes "dockerd"
    ∷ codes "docker-proxy"
    ∷ codes "docker-proxy-current"
    ∷ codes "docker-pr"
    ∷ codes "docker-pro"
    ∷ codes "docker-prox"
    ∷ codes "com.docke"
    ∷ codes "com.docker"
    ∷ codes "vpnkit"
    ∷ codes "rootlesskit"
    ∷ codes "rootlessport"
    ∷ codes "rootlessk"
    ∷ codes "rootlessp"
    ∷ codes "gvproxy"
    ∷ codes "orbstack"
    ∷ codes "orbstack helper"
    ∷ codes "orbstack-helper"
    ∷ codes "colima"
    ∷ codes "rancher desktop"
    ∷ codes "rancher-desktop"
    ∷ []

-- One round of the loop: the executable's name in its plain form, and the two tests.
unfoldable pub names_docker : Bytes → Bool
unfolding has_prefix elem to_lower trim_suffix trim_set replace_byte base
names_docker name =
    let path = replace_byte b'\\' (codes "/") (trim_set (codes "\"'") name) in
    let plain = trim_suffix (to_lower (base path)) (codes ".exe") in
    has_prefix plain (codes "com.docker.") || elem plain docker_names

first_field : List Bytes → List Bytes
first_field [] = []
first_field (f ∷ fs) = f ∷ []

-- What the command line adds to the short name: the quoted path in front, or the first field.
unfoldable pub executables : Bytes → List Bytes
unfolding index_byte first_field fields
executables [] = []
executables (c ∷ s) =
    if c == b'"'
    then elim (index_byte b'"' s) [ none ↦ [] | some end ↦ take end s ∷ [] ]
    else first_field (fields (c ∷ s))

any_docker : List Bytes → Bool
any_docker [] = false
any_docker (n ∷ ns) = names_docker n || any_docker ns

unfoldable pub is_docker_helper : {F : Type 0} → Listener F → Bool
unfolding any_docker executables names_docker trim_space
is_docker_helper l = any_docker (l.command ∷ executables (trim_space l.command_line))
