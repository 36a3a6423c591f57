-- ===== src/Http/Proxy.antt =====
-- Whom a request is from and under which name it came: src/httpserver/urlvars.go.
pub mod Trust
pub mod Samples
use shortner.Shared.{
  ℕ, Bool, true, false, not, ◌&&◌, ◌||◌, Option, none, some, List, [], ◌∷◌, ◌++◌, map, Bytes, codes,
  ◌==◌, if◌then◌else◌, eq_bytes, has_prefix, to_lower, trim_space,
}
use shortner.Library.{Library, Ip, Network}
use shortner.Http.Request.{Request}
use shortner.Http.Overlay.{
  OverlayNetwork, clearnet, Incoming, Resolver, is_empty, equal_fold, strip_port, split_host_port,
  overlay_host_network, same_network, overlay_host, overlay_of, overlay_client_identity,
}

abbrev always_trusted_cidrs : List Bytes
always_trusted_cidrs =
    codes "127.0.0.0/8"
    ∷ codes "::1/128"
    ∷ codes "10.0.0.0/8"
    ∷ codes "172.16.0.0/12"
    ∷ codes "192.168.0.0/16"
    ∷ codes "fc00::/7"
    ∷ codes "169.254.0.0/16"
    ∷ codes "fe80::/10"
    ∷ []

abbrev trust_net : Option Network → Resolver → Resolver
trust_net none r = r
trust_net (some n) r = record r { nets = r.nets ++ n ∷ [] }

abbrev trust_hosts : Option (List Bytes) → Resolver → Resolver
trust_hosts none r = r
trust_hosts (some addrs) r = record r { ips = r.ips ++ addrs }

abbrev trust_ip : Library → Bytes → Option Ip → Resolver → Resolver
trust_ip lib entry none r = trust_hosts (lib.lookup_host entry) r
trust_ip lib entry (some ip) r = record r { ips = r.ips ++ lib.ip_string ip ∷ [] }

abbrev trust_entry : Library → Bytes → Option Network → Resolver → Resolver
trust_entry lib entry none r = trust_ip lib entry (lib.parse_ip entry) r
trust_entry lib entry (some n) r = trust_net (some n) r

trust_always : Library → List Bytes → Resolver → Resolver
trust_always lib [] r = r
trust_always lib (cidr ∷ cidrs) r = trust_always lib cidrs (trust_net (lib.parse_cidr cidr) r)

trust_additional : Library → List Bytes → Resolver → Resolver
trust_additional lib [] r = r
trust_additional lib (entry ∷ entries) r =
    let e = trim_space entry in
    trust_additional lib entries (if is_empty e then r else trust_entry lib e (lib.parse_cidr e) r)

unfoldable pub new_proxy_resolver : Library → List Bytes → Resolver
unfolding trust_always trust_additional
new_proxy_resolver lib additional = trust_additional lib additional (
    trust_always lib always_trusted_cidrs
      (record { nets = []; ips = []; onion_host = []; i2p_host = [] }))

any_equal : Bytes → List Bytes → Bool
any_equal s [] = false
any_equal s (t ∷ ts) = eq_bytes s t || any_equal s ts

any_covers : Ip → List Network → Bool
any_covers ip [] = false
any_covers ip (n ∷ ns) = n.covers ip || any_covers ip ns

abbrev trusted_ip : Library → Resolver → Option Ip → Bool
trusted_ip lib r none = false
trusted_ip lib r (some ip) = any_equal (lib.ip_string ip) r.ips || any_covers ip r.nets

unfoldable pub is_trusted_peer : Library → Resolver → Bytes → Bool
unfolding strip_port any_equal any_covers
is_trusted_peer lib r remote_addr = trusted_ip lib r (lib.parse_ip (strip_port lib remote_addr))

-- The first header of the list that is not blank.
abbrev first_header : (Bytes → Bytes) → List Bytes → Bytes → Bytes
first_header header [] default = default
first_header header (h ∷ hs) default =
    let rest = first_header header hs default in
    let v = trim_space (header h) in if not (is_empty v) then v else rest

-- `strings.Split(s, ",")[0]`
before_comma : Bytes → Bytes
before_comma [] = []
before_comma (c ∷ s) = let rest = before_comma s in if c == b',' then [] else c ∷ rest

-- What a trusted proxy says of the client.
abbrev forwarded_ip : (Bytes → Bytes) → Bytes → Bytes
forwarded_ip header peer =
    let client = first_header header (codes "X-Client-IP" ∷ []) peer in
    let leftmost = trim_space (before_comma (header (codes "X-Forwarded-For"))) in
    first_header header (codes "CF-Connecting-IP" ∷ codes "True-Client-IP" ∷ codes "X-Real-IP" ∷ [])
      (if not (is_empty leftmost) then leftmost else client)

unfoldable pub resolve_client_ip : Library → Resolver → Incoming → Bytes
unfolding before_comma
resolve_client_ip lib r i =
    let identity = overlay_client_identity lib r i in
    let peer = strip_port lib i.remote_addr in
    if not (is_empty identity)
    then identity
    else if not (is_trusted_peer lib r i.remote_addr)
    then peer
    else forwarded_ip i.header peer

-- The scheme that a trusted proxy says, or the connection's.
abbrev forwarded_proto : (Bytes → Bytes) → Bytes → Bytes
forwarded_proto header proto =
    let forwarded = header (codes "X-Forwarded-Proto") in
    if not (is_empty forwarded)
    then map to_lower (trim_space (before_comma forwarded))
    else if equal_fold (header (codes "X-Forwarded-Ssl")) (codes "on")
    then codes "https"
    else if equal_fold (header (codes "X-Forwarded-Ssl")) (codes "off")
    then codes "http"
    else if equal_fold (header (codes "X-Url-Scheme")) (codes "https")
    then codes "https"
    else if equal_fold (header (codes "X-Url-Scheme")) (codes "http")
    then codes "http"
    else if equal_fold (header (codes "Front-End-Https")) (codes "on")
    then codes "https"
    else proto

-- Scheme, host name and port.
abbrev pub UrlVars : Type 0
UrlVars = Bytes × Bytes × Bytes

abbrev clearnet_vars : Library → Resolver → Incoming → UrlVars
clearnet_vars lib r i =
    let trusted = is_trusted_peer lib r i.remote_addr in
    let proto = if i.tls then codes "https" else codes "http" in
    let hosts = codes "X-Forwarded-Host" ∷ codes "X-Real-Host" ∷ codes "X-Original-Host" ∷ [] in
    let ports = codes "X-Forwarded-Port" ∷ codes "X-Real-Port" ∷ [] in
    let host = if trusted then first_header i.header hosts i.host else i.host in
    let (fqdn, port) = split_host_port lib host in
    (
      if trusted then forwarded_proto i.header proto else proto,
      fqdn,
      if trusted then first_header i.header ports port else port,
    )

-- The name that an overlay request is answered under.
abbrev overlay_vars : Library → Resolver → Incoming → OverlayNetwork → UrlVars
overlay_vars lib r i network =
    let own = overlay_host r network in
    let named = same_network (overlay_host_network lib i.host) network in
    let host = if not named && not (is_empty own) then own else i.host in
    (codes "http", (split_host_port lib host).0, [])

abbrev vars_of : Library → Resolver → Incoming → OverlayNetwork → UrlVars
vars_of lib r i clearnet = clearnet_vars lib r i
vars_of lib r i network = overlay_vars lib r i network

unfoldable pub get_url_vars : Library → Resolver → Incoming → UrlVars
unfolding before_comma
get_url_vars lib r i = vars_of lib r i (overlay_of lib r i)

-- What the link handlers read of it (Http/Request), with the slug of the route and the country and
-- region of the address. The Host header is the field `host`, as net/http has it, and not among the
-- headers that `header` looks up.
unfoldable pub request_of : Library → Resolver → Incoming → Bytes → Bytes → Bytes → Request
request_of lib r i slug country region =
    let vars = get_url_vars lib r i in
    record {
      path = i.path;
      header = i.header;
      query = i.query;
      slug = slug;
      proto = vars.0;
      fqdn = vars.1;
      port = vars.2;
      client_ip = resolve_client_ip lib r i;
      country = country;
      region = region;
    }
