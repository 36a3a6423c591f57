-- ===== src/Http/Overlay.antt =====
-- A request as the server receives it, and the overlay network that it came over:
-- src/httpserver/overlay.go, with the host names of urlvars.go.
use shortner.Shared.{
  has_suffix, ℕ, Bool, true, false, not, ◌||◌, Option, none, some, List, [], ◌∷◌, ◌++◌, map, Bytes,
  codes, ◌==◌, if◌then◌else◌, take, drop, eq_bytes, to_lower, trim_space,
}
use mathlib.Core.List.{reverse}
use shortner.Library.{Library, Ip, Network}

pub data OverlayNetwork : Type 0 where
  clearnet tor i2p : OverlayNetwork

-- A request as the server receives it.
pub record Incoming : Type 0 where
  pub method : Bytes
  pub path : Bytes
  pub raw_path : Bytes
  pub raw_query : Bytes
  pub host : Bytes
  pub remote_addr : Bytes
  -- req.TLS != nil
  pub tls : Bool
  -- The tag of the connection's listener.
  pub overlay_tag : OverlayNetwork
  pub header : Bytes → Bytes
  -- `URL.Query().Get`, `FormValue`, and `Cookie`.
  pub query : Bytes → Bytes
  pub form : Bytes → Bytes
  pub cookie : Bytes → Option Bytes

-- `ProxyResolver`; the two hosts are "" where the network is not published.
pub record Resolver : Type 0 where
  pub nets : List Network
  pub ips : List Bytes
  pub onion_host : Bytes
  pub i2p_host : Bytes

abbrev pub is_empty : Bytes → Bool
is_empty s = eq_bytes s []

-- `strings.EqualFold`, on ASCII.
unfoldable pub equal_fold : Bytes → Bytes → Bool
equal_fold a b = eq_bytes (map to_lower a) (map to_lower b)

abbrev first_of : Option (Bytes × Bytes) → Bytes → Bytes
first_of none addr = addr
first_of (some (h, p)) addr = h

-- `stripPort`, and the host that `IsTrustedPeer` parses.
unfoldable pub strip_port : Library → Bytes → Bytes
strip_port lib addr = first_of (lib.split_host_port addr) addr

abbrev host_and_port : Option (Bytes × Bytes) → Bytes → Bytes × Bytes
host_and_port none host = (host, [])
host_and_port (some hp) host = hp

unfoldable pub split_host_port : Library → Bytes → Bytes × Bytes
split_host_port lib host = host_and_port (lib.split_host_port host) host

is_bracket : ℕ → Bool
is_bracket c = c == b'[' || c == b']'

drop_brackets : Bytes → Bytes
drop_brackets [] = []
drop_brackets (c ∷ s) = let rest = drop_brackets s in if is_bracket c then rest else c ∷ s

-- `strings.Trim(host, "[]")`
trim_brackets : Bytes → Bytes
unfolding is_bracket drop_brackets
trim_brackets s = reverse (drop_brackets (reverse (drop_brackets s)))

-- `strings.TrimSuffix(host, ".")`
trim_dot : Bytes → Bytes
trim_dot s = if has_suffix s (codes ".") then reverse (drop 1 (reverse s)) else s

unfoldable pub overlay_host_network : Library → Bytes → OverlayNetwork
unfolding trim_brackets trim_dot strip_port
overlay_host_network lib host =
    let h = trim_dot (trim_brackets (strip_port lib (map to_lower host))) in
    if has_suffix h (codes ".i2p")
    then i2p
    else if has_suffix h (codes ".onion")
    then tor
    else clearnet

abbrev pub same_network : OverlayNetwork → OverlayNetwork → Bool
same_network clearnet clearnet = true
same_network tor tor = true
same_network i2p i2p = true
same_network _ _ = false

abbrev pub overlay_host : Resolver → OverlayNetwork → Bytes
overlay_host r clearnet = []
overlay_host r tor = r.onion_host
overlay_host r i2p = r.i2p_host

unfoldable pub set_overlay_host : OverlayNetwork → Bytes → Resolver → Resolver
set_overlay_host clearnet host r = r
set_overlay_host tor host r = record r { onion_host = map to_lower host }
set_overlay_host i2p host r = record r { i2p_host = map to_lower host }

-- The network whose published address the Host header names.
abbrev published_network : Library → Resolver → Bytes → OverlayNetwork → OverlayNetwork
published_network lib r host clearnet = clearnet
published_network lib r host network =
    let published = overlay_host r network in
    let h = (split_host_port lib (map to_lower (trim_space host))).0 in
    if is_empty published || (is_empty h || not (eq_bytes h published)) then clearnet else network

abbrev tagged : OverlayNetwork → OverlayNetwork → OverlayNetwork
tagged clearnet network = network
tagged tag network = tag

unfoldable pub overlay_of : Library → Resolver → Incoming → OverlayNetwork
unfolding split_host_port overlay_host_network
overlay_of lib r i =
    tagged i.overlay_tag (published_network lib r i.host (overlay_host_network lib i.host))

abbrev has_circuit : Library → Option Ip → Bool
has_circuit lib none = false
has_circuit lib (some ip) = not (lib.is_local ip)

-- `CircuitToken` is the first eight bytes of the hash, in hexadecimal.
unfoldable pub tor_circuit_id : Library → Incoming → Bytes
unfolding strip_port
tor_circuit_id lib i =
    let host = strip_port lib i.remote_addr in
    if has_circuit lib (lib.parse_ip host) then take 16 (lib.hash host) else []

abbrev pub identity_of : Library → Incoming → OverlayNetwork → Bytes
identity_of lib i clearnet = []
identity_of lib i tor =
    let circuit = tor_circuit_id lib i in
    if is_empty circuit then codes "tor" else codes "tor:" ++ circuit
identity_of lib i i2p = codes "i2p"

unfoldable pub overlay_client_identity : Library → Resolver → Incoming → Bytes
unfolding tor_circuit_id
overlay_client_identity lib r i = identity_of lib i (overlay_of lib r i)
