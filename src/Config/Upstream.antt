-- ===== src/Config/Upstream.antt =====
-- src/config.rs: `UpstreamHost`, `UpstreamSpec`, `ResolvedUpstream`, `split_host_port`,
-- `parse_upstream` and `resolved_upstream_from`.
use sni_gate.Prelude.{
  ℕ, ◌≡◌, refl, Bool, true, false, ◌||◌, [], ◌∷◌, Option, none, some, if◌then◌else◌, all, is_some,
}
use sni_gate.Text.{Text, codes, trim, contains, split_once, strip_prefix}
use sni_gate.Text.Numbers.{is_digit, parse_uint, rsplit_once}
use sni_gate.Ip.{parse_ipv6}

pub data UpstreamHost : Type 0 where
  reflect : UpstreamHost
  fixed pool : (name : Text) → UpstreamHost

pub record UpstreamSpec : Type 0 where
  pub host : UpstreamHost
  pub port : Option ℕ

pub record ResolvedUpstream : Type 0 where
  pub host : UpstreamHost
  pub port : ℕ

-- `parse::<u16>()`.
abbrev pub parse_port : Text → Option ℕ
parse_port = parse_uint 0x1_0000

abbrev pub with_port : Text → Option ℕ → Option (Text × ℕ)
with_port host none = none
with_port host (some port) = some (host, port)

-- `tail.strip_prefix(':')` and the port behind it.
abbrev pub port_behind : Text → Option Text → Option (Text × ℕ)
port_behind host none = none
port_behind host (some port) = with_port host (parse_port port)

abbrev pub bracketed : Option (Text × Text) → Option (Text × ℕ)
bracketed none = none
bracketed (some (host, tail)) =
    if is_some (parse_ipv6 host) then port_behind host (strip_prefix (codes ":") tail) else none

abbrev pub is_empty : Text → Bool
is_empty [] = true
is_empty (c ∷ s) = false

abbrev pub one_colon : Option (Text × Text) → Option (Text × ℕ)
one_colon none = none
one_colon (some (host, port)) =
    if is_empty host || contains b':' host then none else with_port host (parse_port port)

abbrev pub host_and_port : Text → Option Text → Option (Text × ℕ)
host_and_port s (some rest) = bracketed (split_once b']' rest)
host_and_port s none = one_colon (rsplit_once b':' s)

abbrev pub split_trimmed : Text → Option (Text × ℕ)
split_trimmed s = host_and_port s (strip_prefix (codes "[") s)

unfoldable pub split_host_port : Text → Option (Text × ℕ)
unfolding trim contains split_once parse_uint rsplit_once parse_ipv6
split_host_port s = split_trimmed (trim s)

abbrev pub pool_named : Text → Option ℕ → Option UpstreamSpec
pool_named name port =
    if is_empty name then none else some (record { host = UpstreamHost.pool name; port = port })

abbrev pub pool_with_port : Text → Option ℕ → Option UpstreamSpec
pool_with_port name none = none
pool_with_port name (some port) = pool_named (trim name) (some port)

abbrev pub pool_reference : Text → Option (Text × Text) → Option UpstreamSpec
pool_reference rest none = pool_named (trim rest) none
pool_reference rest (some (name, port)) = pool_with_port name (parse_port port)

abbrev pub bare_port : Option ℕ → Option UpstreamSpec
bare_port none = none
bare_port (some port) = some (record { host = UpstreamHost.reflect; port = some port })

abbrev pub fixed_host : Option (Text × ℕ) → Option UpstreamSpec
fixed_host none = none
fixed_host (some (host, port)) = some (record { host = UpstreamHost.fixed host; port = some port })

-- Without an `@` in front.
abbrev pub parse_plain : Text → Option UpstreamSpec
parse_plain s =
    if all is_digit s
    then bare_port (parse_port s)
    else if contains b':' s
    then fixed_host (split_host_port s)
    else some (record { host = UpstreamHost.fixed s; port = none })

abbrev pub parse_prefixed : Text → Option Text → Option UpstreamSpec
parse_prefixed s (some rest) = pool_reference rest (rsplit_once b':' rest)
parse_prefixed s none = parse_plain s

abbrev pub parse_trimmed : Text → Option UpstreamSpec
parse_trimmed [] = none
parse_trimmed (c ∷ s) = parse_prefixed (c ∷ s) (strip_prefix (codes "@") (c ∷ s))

unfoldable pub parse_upstream : Text → Option UpstreamSpec
unfolding trim contains parse_uint rsplit_once split_host_port
parse_upstream s = parse_trimmed (trim s)

abbrev pub or_port : Option ℕ → ℕ → ℕ
or_port none listener_port = listener_port
or_port (some port) listener_port = port

abbrev pub resolved : Option UpstreamSpec → ℕ → Option ResolvedUpstream
resolved none listener_port = none
resolved (some parsed) listener_port =
    some (record { host = parsed.host; port = or_port parsed.port listener_port })

unfoldable pub resolved_upstream_from : Option Text → ℕ → Option ResolvedUpstream
unfolding parse_upstream
resolved_upstream_from none listener_port =
    some (record { host = UpstreamHost.reflect; port = listener_port })
resolved_upstream_from (some spec) listener_port = resolved (parse_upstream spec) listener_port

upstream_tests :
    (parse_upstream (codes " @edge:8443 ")
      ≡ some (record { host = UpstreamHost.pool (codes "edge"); port = some 8443 }))
    × (parse_upstream (codes "443")
        ≡ some (record { host = UpstreamHost.reflect; port = some 443 }))
    × (parse_upstream (codes "[2001:db8::1]:443")
        ≡ some (record { host = UpstreamHost.fixed (codes "2001:db8::1"); port = some 443 }))
    × (parse_upstream (codes "2001:db8::1:443") ≡ none)
    × (parse_upstream (codes "a.test:0443")
        ≡ some (record { host = UpstreamHost.fixed (codes "a.test"); port = some 443 }))
    × (parse_upstream (codes "@ :1") ≡ none)
unfolding parse_upstream
upstream_tests = (refl, refl, refl, refl, refl, refl)
