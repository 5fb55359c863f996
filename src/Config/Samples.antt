-- ===== src/Config/Samples.antt =====
-- Tables of a configuration for the tests.
use sni_gate.Prelude.{Bool, true, [], ◌∷◌, none, some}
use sni_gate.Text.{Text, codes}
use sni_gate.Config.Tables.{
  RouteType, EchMode, FailPolicy, CommonOpts, EchConfig, VerifyConfig, Template, Route, Listener,
  Global, Config,
}

abbrev pub no_opts : CommonOpts
no_opts = record {
  resolver = none;
  ech_resolver = none;
  addr_resolver = none;
  ech_refresh = none;
  nat64_prefix = none;
  address_family = none;
  require_ech = none;
  connect_timeout = none;
  idle_timeout = none;
}

abbrev pub inline_ech : EchConfig
inline_ech = record {
  mode = some EchMode.static;
  config = some (codes "AEX+DQ==");
  ech_domain = none;
  require_ech = none;
  max_retries = none;
  ech_refresh = none;
  ech_resolver = none;
}

abbrev pub named : Text → VerifyConfig
named name = record {
  mode = none;
  name = some name;
  pins = none;
  ca_file = none;
  trust_webpki = none;
}

abbrev pub site : Route
site = record {
  name = some (codes "site");
  use_template = some (codes "hidden");
  route_type = none;
  match_sni = codes "@cdn" ∷ codes "www.example.com" ∷ [];
  upstream = some (codes "edge.example.net:8443");
  override_sni = none;
  ech = none;
  http2 = none;
  verify = some (named (codes "edge.example.net"));
  cert_file = none;
  key_file = none;
  select = none;
  common = no_opts;
  fail = none;
}

-- A template for ECH routes that takes its configuration from the outer scopes.
abbrev pub hidden : Template
hidden = record {
  route_type = some RouteType.ech;
  upstream = none;
  override_sni = none;
  cert_file = none;
  key_file = none;
  ech = none;
  http2 = none;
  verify = none;
  select = none;
  common = record no_opts { connect_timeout = some 5000 };
  fail = none;
}

abbrev pub public_listener : Listener
public_listener = record {
  addr = record { ip = 0 ∷ 0 ∷ 0 ∷ 0 ∷ []; port = 443 };
  use_template = none;
  common = record no_opts { resolver = some (codes "system") };
  ech = none;
  http2 = none;
  verify = none;
  routes = site ∷ [];
  default_route = none;
}

abbrev pub global : Global
global = record {
  common = no_opts;
  ech = some inline_ech;
  http2 = none;
  verify = none;
  unmatched = FailPolicy.close;
}

abbrev pub config : Config
config = record {
  global = global;
  templates = (codes "hidden", hidden) ∷ [];
  resolvers = [];
  regexes =
      (
        codes "cdn",
        record {
          pattern = codes "cdn[0-9]+[.]example[.]com";
          scope_suffix = codes "*.example.com" ∷ [];
        },
      )
      ∷ [];
  listeners = public_listener ∷ [];
}

abbrev pub any_name : Text → Bool
any_name name = true
