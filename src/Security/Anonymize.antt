-- ===== src/Security/Anonymize.antt =====
-- src/security/anonymize.go
use shortner.Shared.{Option, none, some, [], ◌∷◌, Bytes}
use shortner.Library.{Library, Ip, v4, v6}

-- IPv4 loses its last byte, IPv6 its last ten.
unfoldable pub zero_host : Ip → Ip
zero_host (v4 a b c d) = v4 a b c 0
zero_host (v6 network host) = v6 network (0 ∷ 0 ∷ 0 ∷ 0 ∷ 0 ∷ 0 ∷ 0 ∷ 0 ∷ 0 ∷ 0 ∷ [])

abbrev pub shown : Library → Option Ip → Bytes
shown lib none = []
shown lib (some ip) = lib.ip_string (zero_host ip)

unfoldable pub anonymize_ip : Library → Bytes → Bytes
unfolding zero_host
anonymize_ip lib raw = shown lib (lib.parse_ip raw)
