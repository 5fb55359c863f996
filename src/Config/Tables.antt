-- ===== src/Config/Tables.antt =====
-- src/config.rs: the tables of the configuration file as deserialization leaves them. A duration
-- counts milliseconds, a path is its text.
use sni_gate.Prelude.{ℕ, Bool, List, Option}
use sni_gate.Text.{Text}
use sni_gate.Router.Table.{HashMap}
use sni_gate.Router.Build.{RegexDef}

pub data RouteType : Type 0 where
  ech tls http raw : RouteType

pub data SniPolicy : Type 0 where
  reflect omit : SniPolicy
  fixed : (name : Text) → SniPolicy

pub data AddressFamily : Type 0 where
  dual ipv4 ipv6 : AddressFamily

pub data EchMode : Type 0 where
  doh static doh_with_fallback : EchMode

pub data H2Probe : Type 0 where
  off warn require : H2Probe

pub data VerifyMode : Type 0 where
  full chain none : VerifyMode

pub record SocketAddr : Type 0 where
  pub ip : List ℕ
  pub port : ℕ

pub data FailPolicy : Type 0 where
  close system_outbound : FailPolicy
  passthrough : (addr : SocketAddr) → FailPolicy

pub data Selector : Type 0 where
  index : ℕ → Selector
  tag : Text → Selector

pub record CommonOpts : Type 0 where
  pub resolver : Option Text
  pub ech_resolver : Option Text
  pub addr_resolver : Option Text
  pub ech_refresh : Option ℕ
  pub nat64_prefix : Option Text
  pub address_family : Option AddressFamily
  pub require_ech : Option Bool
  pub connect_timeout : Option ℕ
  pub idle_timeout : Option ℕ

pub record EchConfig : Type 0 where
  pub mode : Option EchMode
  pub config : Option Text
  pub ech_domain : Option Text
  pub require_ech : Option Bool
  pub max_retries : Option ℕ
  pub ech_refresh : Option ℕ
  pub ech_resolver : Option Text

pub record Http2Config : Type 0 where
  pub enabled : Option Bool
  pub probe : Option H2Probe
  pub probe_timeout : Option ℕ

pub record VerifyConfig : Type 0 where
  pub mode : Option VerifyMode
  pub name : Option Text
  pub pins : Option (List Text)
  pub ca_file : Option Text
  pub trust_webpki : Option Bool

pub record Template : Type 0 where
  pub route_type : Option RouteType
  pub upstream : Option Text
  pub override_sni : Option Text
  pub cert_file : Option Text
  pub key_file : Option Text
  pub ech : Option EchConfig
  pub http2 : Option Http2Config
  pub verify : Option VerifyConfig
  pub select : Option (List Selector)
  pub common : CommonOpts
  pub fail : Option FailPolicy

pub record Route : Type 0 where
  pub name : Option Text
  pub use_template : Option Text
  pub route_type : Option RouteType
  pub match_sni : List Text
  pub upstream : Option Text
  pub override_sni : Option Text
  pub ech : Option EchConfig
  pub http2 : Option Http2Config
  pub verify : Option VerifyConfig
  pub cert_file : Option Text
  pub key_file : Option Text
  pub select : Option (List Selector)
  pub common : CommonOpts
  pub fail : Option FailPolicy

pub record Listener : Type 0 where
  pub addr : SocketAddr
  pub use_template : Option Text
  pub common : CommonOpts
  pub ech : Option EchConfig
  pub http2 : Option Http2Config
  pub verify : Option VerifyConfig
  pub routes : List Route
  pub default_route : Option Route

-- The resolved scopes read no `log`, which is left out.
pub record Global : Type 0 where
  pub common : CommonOpts
  pub ech : Option EchConfig
  pub http2 : Option Http2Config
  pub verify : Option VerifyConfig
  pub unmatched : FailPolicy

pub record ResolverDef : Type 0 where
  pub endpoint : Text
  pub upstream : Option Text
  pub override_sni : Option Text
  pub bootstrap : Option Text
  pub ech : Option EchConfig
  pub verify : Option VerifyConfig
  pub address_family : Option AddressFamily
  pub nat64_prefix : Option Text
  pub connect_timeout : Option ℕ

-- Without the tables of the certificate authority, the store, the caches and the pools, which
-- the functions modelled here do not read.
pub record Config : Type 0 where
  pub global : Global
  pub templates : HashMap Template
  pub resolvers : HashMap ResolverDef
  pub regexes : HashMap RegexDef
  pub listeners : List Listener
