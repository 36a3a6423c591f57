-- ===== src/Http/Proxy/Trust.antt =====
-- Which requests decide on their own URL and address (src/httpserver/urlvars.go).
use shortner.Shared.{
  ◌≡◌, refl, false, not, [], ◌++◌, Bytes, codes, if◌then◌else◌, has_prefix, eq_bytes, arith,
}
use shortner.Library.{Library}
use shortner.Http.Request.{build_url}
use shortner.Http.Overlay.{
  Incoming, Resolver, OverlayNetwork, clearnet, tor, i2p, same_network, overlay_of,
  overlay_client_identity, identity_of, tor_circuit_id,
}
use shortner.Http.Proxy.{
  is_trusted_peer, resolve_client_ip, get_url_vars, request_of, clearnet_vars, vars_of,
}

module _ (lib : Library) (r : Resolver) (i : Incoming) where
  abbrev with_headers : (Bytes → Bytes) → Incoming
  with_headers h = record i { header = h }

  clearnet_vars_untrusted :
      (h : Bytes → Bytes)
      → is_trusted_peer lib r i.remote_addr ≡ false
      → clearnet_vars lib r (with_headers h) ≡ clearnet_vars lib r i
  clearnet_vars_untrusted h untrusted = rw untrusted refl

  vars_of_untrusted :
      (h : Bytes → Bytes) (network : OverlayNetwork)
      → is_trusted_peer lib r i.remote_addr ≡ false
      → vars_of lib r (with_headers h) network ≡ vars_of lib r i network
  vars_of_untrusted h clearnet untrusted = clearnet_vars_untrusted h untrusted
  vars_of_untrusted h tor untrusted = refl
  vars_of_untrusted h i2p untrusted = refl

  get_url_vars_untrusted :
      (h : Bytes → Bytes)
      → is_trusted_peer lib r i.remote_addr ≡ false
      → get_url_vars lib r (with_headers h) ≡ get_url_vars lib r i
  unfolding get_url_vars overlay_of
  get_url_vars_untrusted h untrusted = vars_of_untrusted h (overlay_of lib r i) untrusted

  identity_of_headers :
      (h : Bytes → Bytes) (network : OverlayNetwork)
      → identity_of lib (with_headers h) network ≡ identity_of lib i network
  unfolding tor_circuit_id
  identity_of_headers h clearnet = refl
  identity_of_headers h tor = refl
  identity_of_headers h i2p = refl

  resolve_client_ip_untrusted :
      (h : Bytes → Bytes)
      → is_trusted_peer lib r i.remote_addr ≡ false
      → resolve_client_ip lib r (with_headers h) ≡ resolve_client_ip lib r i
  unfolding resolve_client_ip overlay_client_identity overlay_of
  resolve_client_ip_untrusted h untrusted =
      rw (untrusted, identity_of_headers h (overlay_of lib r i)) refl

  -- Where the peer is not a trusted proxy, no header of the request but Host has a say in the address
  -- that the request counts for, nor in the URLs that its answers name. The Host header, which net/http
  -- moves to a field of its own, is the same in the two requests: it does have a say.
  pub request_of_untrusted :
      (h : Bytes → Bytes) (slug country region path : Bytes)
      → is_trusted_peer lib r i.remote_addr ≡ false
      → ((request_of lib r (with_headers h) slug country region).client_ip
          ≡ (request_of lib r i slug country region).client_ip)
        × (build_url (request_of lib r (with_headers h) slug country region) path
            ≡ build_url (request_of lib r i slug country region) path)
  unfolding request_of build_url
  request_of_untrusted h slug country region path untrusted =
      let same = get_url_vars_untrusted h untrusted in
      (resolve_client_ip_untrusted h untrusted, rw same refl)

  vars_of_overlay :
      (network : OverlayNetwork)
      → same_network network clearnet ≡ false
      → ((vars_of lib r i network).0 ≡ codes "http") × ((vars_of lib r i network).2 ≡ [])
  vars_of_overlay clearnet overlay = absurd (ground (arith, overlay))
  vars_of_overlay tor overlay = (refl, refl)
  vars_of_overlay i2p overlay = (refl, refl)

  -- The URLs that the answers to an overlay request name are plain http, without a port, whatever the
  -- connection and the headers say.
  pub build_url_overlay :
      (slug country region path : Bytes)
      → same_network (overlay_of lib r i) clearnet ≡ false
      → build_url (request_of lib r i slug country region) path
        ≡ codes "http://"
          ++ ((request_of lib r i slug country region).fqdn
              ++ ((if not (has_prefix path (codes "/")) then codes "/" else []) ++ path))
  unfolding request_of build_url get_url_vars has_prefix eq_bytes
  build_url_overlay slug country region path overlay =
      let plain = vars_of_overlay (overlay_of lib r i) overlay in rw (plain.0, plain.1) refl
