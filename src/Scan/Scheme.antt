-- ===== src/Scan/Scheme.antt =====
-- scan/scheme.go: whether a local port speaks HTTPS, with a cache that is filled in the background.
-- A prober's answer depends on the time; a time is a number of seconds.
pub mod Laws
use le_cli.Prelude.{
  ℕ, ◌+◌, ◌-◌, Bool, true, false, not, ltb, ◌==◌, if◌then◌else◌, Option, none, some, List, [],
  Bytes, codes,
}
use le_cli.Prelude.Maps.{Map, bytes_eq, lookup, insert}

abbrev pub Prober : Type 0
Prober = ℕ → Bytes → Bool

abbrev pub cache_ttl : ℕ
cache_ttl = 30

-- `https` stands for the two schemes that are ever stored.
pub record SchemeEntry : Type 0 where
  pub https : Bool
  pub at : ℕ

-- The package's variables.
pub record Cache : Type 0 where
  pub entries : Map Bytes SchemeEntry
  pub gen : ℕ
  pub prober : Prober

-- A probe under way, with what it read when it began.
pub record Probe : Type 0 where
  pub port : Bytes
  pub gen : ℕ
  pub prober : Prober

-- `time.Since(e.at) < schemeCacheTTL`; a time that lies ahead is fresh, too.
unfoldable pub fresh : ℕ → SchemeEntry → Bool
fresh now e = ltb (now - e.at) cache_ttl

-- `Scheme` on a hit; on a miss it is a probe.
unfoldable pub scheme_hit : ℕ → Bytes → Cache → Option Bool
unfolding fresh lookup
scheme_hit now port c = elim (lookup port c.entries) [
  | none ↦ none
  | some e ↦ if fresh now e then some e.https else none
]

-- `CachedScheme`: the scheme, the cache, and whether a probe is started.
unfoldable pub cached_scheme : ℕ → Bytes → Cache → Bool × Cache × Bool
unfolding fresh lookup insert
cached_scheme now port c = elim (lookup port c.entries) [
  | none ↦ (
    false,
    record c { entries = insert port (record { https = false; at = now }) c.entries },
    true,
  )
  | some e ↦ if fresh now e then (e.https, c, false) else (
    e.https,
    record c { entries = insert port (record { https = e.https; at = now }) c.entries },
    true,
  )
]

-- `SetTLSProbeForTesting`, and the function that it returns
unfoldable pub set_prober : Prober → Cache → Cache
set_prober prober c = record { entries = []; gen = c.gen + 1; prober = prober }

-- `refreshScheme`: its first locked section, and what follows it when the prober has answered
unfoldable pub begin_refresh : Bytes → Cache → Probe
begin_refresh port c = record { port = port; gen = c.gen; prober = c.prober }

unfoldable pub end_refresh : ℕ → ℕ → Probe → Cache → Bool × Cache
unfolding insert
end_refresh asked now p c =
    let https = p.prober asked p.port in
    if p.gen == c.gen
    then (
      https,
      record c { entries = insert p.port (record { https = https; at = now }) c.entries },
    )
    else (https, c)
