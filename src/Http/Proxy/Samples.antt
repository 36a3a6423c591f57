-- ===== src/Http/Proxy/Samples.antt =====
-- A sample request, under a resolver that trusts nobody.
use shortner.Shared
use shortner.Shared.{◌≡◌, refl, false, none, [], ◌++◌, Bytes, codes}
use shortner.Http.Samples.{sample_library}
use shortner.Http.Request.{build_url}
use shortner.Http.Overlay.{Incoming, Resolver, OverlayNetwork, clearnet, tor, overlay_of}
use shortner.Http.Proxy.{request_of, is_trusted_peer}
use shortner.Http.Proxy.Trust.{request_of_untrusted, build_url_overlay}

abbrev pub sample_resolver : Resolver
sample_resolver = record { nets = []; ips = []; onion_host = []; i2p_host = [] }

abbrev pub incoming : Bytes → Bytes → OverlayNetwork → Incoming
incoming method path tag = record {
  method = method;
  path = path;
  raw_path = [];
  raw_query = [];
  host = codes "example.org";
  remote_addr = codes "192.0.2.1";
  tls = false;
  overlay_tag = tag;
  header = λ name. [];
  query = λ name. [];
  form = λ name. [];
  cookie = λ name. none;
}

abbrev visit : Incoming
visit = incoming (codes "GET") (codes "/abc") clearnet

abbrev lie : Bytes → Bytes
lie name = codes "203.0.113.7"

request_of_untrusted_example :
    ((request_of sample_library sample_resolver (record visit { header = lie }) [] [] []).client_ip
      ≡ (request_of sample_library sample_resolver visit [] [] []).client_ip)
    × (build_url
          (request_of sample_library sample_resolver (record visit { header = lie }) [] [] [])
          (codes "/abc")
        ≡ build_url (request_of sample_library sample_resolver visit [] [] []) (codes "/abc"))
unfolding is_trusted_peer
request_of_untrusted_example =
    request_of_untrusted sample_library sample_resolver visit lie [] [] [] (codes "/abc") refl

abbrev onion_visit : Incoming
onion_visit = incoming (codes "GET") (codes "/abc") tor

onion_link :
    build_url (request_of sample_library sample_resolver onion_visit [] [] []) (codes "/abc")
    ≡ codes "http://"
      ++ ((request_of sample_library sample_resolver onion_visit [] [] []).fqdn
          ++ ([] ++ codes "/abc"))
unfolding overlay_of Shared.has_prefix
onion_link =
    build_url_overlay sample_library sample_resolver onion_visit [] [] [] (codes "/abc") refl
