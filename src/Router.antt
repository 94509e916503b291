-- ===== src/Router.antt =====
-- src/router.rs: from the routes to a table of hosts. The hash map is a list of bindings, the
-- newest first, so that a later insertion hides an earlier one. Hedged racing is a feature that
-- the default build leaves out, and its field with it.
pub mod Tests
pub mod Resolve
pub mod Hosts
use propylea.Prelude.{
  Bool, List, Option, Text, [], before_char, err, if◌then◌else◌, length, ltb, none, ok, some,
  text_eq, to_ascii_lowercase, trim, ◌∷◌,
}
use propylea.Config.Addr.{SocketAddr}
use propylea.Config.{RouteConfig, first_or, primary_upstream, resolved_upstreams}

pub record UpstreamTarget : Type 0 where
  pub addr : SocketAddr
  pub addrs : List SocketAddr
  pub websocket_allowed : Bool
  pub primary_host : Text
  pub hedged_racing : Bool

abbrev pub HostMap : Type 0
HostMap = List (Text × UpstreamTarget)

-- `HashMap::insert` and `HashMap::get`
abbrev pub insert : Text → UpstreamTarget → HostMap → HostMap
insert k v m = (k, v) ∷ m

unfoldable pub get : Text → HostMap → Option UpstreamTarget
get k [] = none
get k ((j, v) ∷ m) = if text_eq j k then some v else get k m

pub record UpstreamRouter : Type 0 where
  pub routes : HostMap
  pub default_target : Option UpstreamTarget

abbrev first_domain : List Text → Text
first_domain [] = []
first_domain (d ∷ ds) = d

-- `unwrap_or_else(|_| vec![route.primary_upstream()])`
unfoldable pub target_addrs : RouteConfig → List SocketAddr
target_addrs r = elim (resolved_upstreams r) [ ok list ↦ list | err e ↦ primary_upstream r ∷ [] ]

abbrev or_default : Option Bool → Bool → Bool
or_default none d = d
or_default (some b) d = b

unfoldable pub target_of : RouteConfig → UpstreamTarget
unfolding target_addrs
target_of r =
    let addrs = target_addrs r in
    record {
      addr = first_or (primary_upstream r) addrs;
      addrs = addrs;
      websocket_allowed = r.websocket;
      primary_host = first_domain r.domains;
      hedged_racing = or_default r.hedged_racing (ltb 1 (length addrs));
    }

abbrev pub clean_domain : Text → Text
clean_domain host = to_ascii_lowercase (trim host)

-- `for host in &route.domains`
unfoldable pub add_hosts : UpstreamTarget → List Text → HostMap → HostMap
add_hosts target [] m = m
add_hosts target (host ∷ hosts) m = add_hosts target hosts (insert (clean_domain host) target m)

abbrev or_else : Option UpstreamTarget → UpstreamTarget → Option UpstreamTarget
or_else none target = some target
or_else (some t) target = some t

-- One round of `for route in routes`.
unfoldable pub add_route : UpstreamRouter → RouteConfig → UpstreamRouter
unfolding target_of add_hosts
add_route u r =
    let target = target_of r in
    record {
      default_target = or_else u.default_target target;
      routes = add_hosts target r.domains u.routes;
    }

unfoldable pub add_routes : UpstreamRouter → List RouteConfig → UpstreamRouter
unfolding add_route
add_routes u [] = u
add_routes u (r ∷ rs) = add_routes (add_route u r) rs

unfoldable pub new : List RouteConfig → UpstreamRouter
unfolding add_routes
new routes = add_routes (record { routes = []; default_target = none }) routes

-- The part before the first colon, if there is one.
unfoldable pub clean_host : Text → Text
clean_host raw = to_ascii_lowercase (before_char b':' (trim raw))

abbrev or_target : Option UpstreamTarget → Option UpstreamTarget → Option UpstreamTarget
or_target none d = d
or_target (some t) d = some t

unfoldable pub resolve : UpstreamRouter → Text → Option UpstreamTarget
unfolding get clean_host
resolve u raw_host = or_target (get (clean_host raw_host) u.routes) u.default_target
