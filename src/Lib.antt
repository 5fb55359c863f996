-- ===== src/Lib.antt =====
-- A model of sni-gate, a gateway that takes TLS and HTTP connections, reads the name that they ask
-- for without consuming a byte, routes them by it, and serves certificates that mirror those of the
-- upstreams. The model is executable, and the modules called Tests evaluate it.
--
-- How the parts interact: src/peek.rs finds the routing key of a connection; src/router.rs gives the
-- route for a key; src/resolver.rs answers a handshake with the certificate that the route pins or
-- with one that it issues, and after an upstream handshake issues one that mirrors the upstream's
-- names, clipped to those that the router sends to the same certificate scope and that the suffix
-- list (src/suffix.rs) lets it sign; src/store.rs keeps it on disk; src/pool.rs decides which
-- endpoints of an upstream are healthy; src/certscope.rs names the scopes; src/proxy.rs puts these
-- together; src/nat64.rs and src/config.rs read what the operator wrote, and src/main.rs builds the
-- listeners from it.
--
-- Files:
--   Prelude, Text, Bytes, Ip: lists, Rust's `str`, byte slices, `from_utf8`, integer and IP parsing.
--     A text is the list of its code points. Integers are the native natural numbers; where a type
--     ends (u8, u16, u32, the 128 bits of an address) the limit is written out.
--   Router: Names (`normalize`, `match_scope_pattern`), Table (the hash maps as association lists),
--     Build (`Router::build`), Matching (`match_host`), Confine (`wildcard_confined`,
--     `name_confined`); Hosts says what a host name is. The regex crate is the record RegexEngine:
--     which patterns compile and what they match.
--   Suffix: `SuffixList` and `host_covered_by`; the publicsuffix crate is the record PublicSuffix.
--     Boundary says what the registry boundary of a name is.
--   Resolver: Clip (`clip`), Issue (`get_or_issue`, `resolve`, `record_upstream_sans`). The shared
--     issuer is a state that the calls of all listeners pass on (History); a record Env says for each
--     call what the file system and the CA do. Each call runs alone, as the lock of its cache key has
--     it.
--   Peek: Tls and Http (the two parsers), Classify (`classify`). A panic is `none`; the socket is
--     the bytes sent and a list of what each peek reports.
--   Config: Tables (the records of a configuration), Upstream (`parse_upstream`,
--     `resolved_upstream_from`; Spelling and Forms have the forms of an upstream), Scope
--     (`validate_scope_pattern`), Verify (`EffectiveVerify` and the checks of `[verify]` blocks;
--     Coherence says which pass), Ladder (the `effective_*` functions; Inheritance says which tier
--     they read), Routes (`Route::validate` and the part of `Config::validate` about listeners;
--     Servable and Validated say what is accepted), Resolvers (`@` references), BuildOrder
--     (`resolver_build_order`), Regexes (`validate_regexes`). Server names and base64 are parameters,
--     and an error is what it is about, without its message.
--   Startup: src/main.rs. Parts and Building have `build_route` and `get_resolver`, Routers the
--     routing table, Listening `build_listener`; Service and Partition compare routes by identity,
--     Wiring follows an id from the router to the route. The record Built says what was built before
--     and what reading files and building clients comes to. Probes and Grouping have
--     `group_probe_targets` and the verdict of `run_probes`, where each probe succeeds or fails.
--   CertScope: `CertScope::new`, `canonical`, `router_fingerprint`, `sanitize`, `fnv1a`.
--   Store: `CertStore` for the three files of one host, with each write succeeding or failing.
--   Nat64: `Nat64Prefix`.
--   Pool: Health (`Health`, `Candidate::matches`), Views (`register_view`, `view_for`).
--   Proxy: Dispatch (`dispatch` up to the serving of the connection, `strip_port`), Alpn
--     (`negotiable_alpn`, `mirror_choice`).
--
-- Fuel: the walks over labels have a round for each character of the name, the TLS loops one for each
-- byte, the classification one for each size of its buffer. The walk over the resolvers has three
-- rounds for each resolver and one more: a resolver is opened once, and pushes its exit and at most
-- two edges.
--
-- Not modelled: the TLS, DNS and HTTP clients and the splicing of sockets, which are I/O of tokio,
-- rustls and hickory; signing and reading certificates (rcgen, x509-parser), where a certificate is
-- its names; concurrency within one cache key; the scoring of endpoints, which is floating-point
-- (src/scoring.rs); logging; src/dns.rs, src/dns_resolvers.rs, src/verify.rs, src/psl.rs,
-- src/trust.rs, src/probe.rs, src/ca.rs, src/ech.rs but for what a provider is made from, the rest of
-- src/main.rs, and of src/config.rs the pools and the addresses of listeners. In Resolver a scope is
-- its key. The resolver's store is a map from scope and host to what was saved whole; Store has the
-- files one by one.
pub mod Bytes
pub mod CertScope
pub mod Config
pub mod Ip
pub mod Nat64
pub mod Peek
pub mod Pool
pub mod Prelude
pub mod Proxy
pub mod Resolver
pub mod Router
pub mod Startup
pub mod Store
pub mod Suffix
pub mod Text
