-- ===== src/Fqdn.antt =====
-- src/fqdn/fqdn.go: the host name of the server, and the names that get no public certificate.
use shortner.Shared.{
  ◌≡◌, refl, Bool, true, false, not, ◌&&◌, ◌||◌, Option, none, some, List, [], ◌∷◌, ◌++◌, map, inl,
  inr, Bytes, codes, Bool-cases, ◌==◌, if◌then◌else◌, eq_bytes, keep_if, has_suffix, to_lower,
  split_at, trim_space,
}
use shortner.Library.{Ip, v4, v6}

-- What the package asks of the system: the variables DOMAIN and HOSTNAME, os.Hostname, and the addresses
-- of net.InterfaceAddrs; `none` is an error.
pub record System : Type 0 where
  pub domain : Bytes
  pub hostname : Option Bytes
  pub hostname_variable : Bytes
  pub interface_addrs : Option (List Ip)
  -- IsGlobalUnicast() && !IsPrivate()
  pub is_public : Ip → Bool
  -- IsLoopback() of the address that net.ParseIP reads.
  pub loopback : Bytes → Option Bool
  -- IP.String
  pub ip_text : Ip → Bytes

abbrev pub is_empty : Bytes → Bool
is_empty s = eq_bytes s []

abbrev written : Bytes → Bool
written s = not (is_empty s)

unfoldable pub get_all_domains : System → List Bytes
get_all_domains sys =
    if is_empty sys.domain
    then []
    else keep_if written (map trim_space (split_at (λ c. c == b',') sys.domain))

unfoldable pub is_loopback : System → Bytes → Bool
is_loopback sys host =
    if eq_bytes (map to_lower host) (codes "localhost")
    then true
    else elim (sys.loopback host) [ none ↦ false | some b ↦ b ]

abbrev is_v6 : Ip → Bool
is_v6 (v4 a b c d) = false
is_v6 (v6 a b) = true

-- The text of the first address that passes, empty where there is none.
abbrev first_text : System → (Ip → Bool) → List Ip → Bytes
first_text sys p [] = []
first_text sys p (ip ∷ ips) =
    let rest = first_text sys p ips in if p ip then sys.ip_text ip else rest

abbrev among : System → (Ip → Bool) → Option (List Ip) → Bytes
among sys p none = []
among sys p (some ips) = first_text sys p ips

unfoldable pub get_global_ipv6 : System → Bytes
get_global_ipv6 sys = among sys (λ ip. is_v6 ip && sys.is_public ip) sys.interface_addrs

unfoldable pub get_global_ipv4 : System → Bytes
get_global_ipv4 sys = among sys (λ ip. not (is_v6 ip) && sys.is_public ip) sys.interface_addrs

-- The name, where it is one that others can use.
abbrev usable : System → Bytes → Bytes → Bytes
usable sys hostname next =
    if written hostname && not (is_loopback sys hostname) then hostname else next

abbrev or_next : Bytes → Bytes → Bytes
or_next s next = if written s then s else next

abbrev known_hostname : System → Bytes
known_hostname sys = elim sys.hostname [ none ↦ [] | some name ↦ name ]

abbrev first_domain : List Bytes → Bytes → Bytes
first_domain [] next = next
first_domain (d ∷ ds) next = d

unfoldable pub get_fqdn : System → Bytes
get_fqdn sys = first_domain (get_all_domains sys) (
    usable sys (known_hostname sys) (
      usable sys sys.hostname_variable
        (or_next (get_global_ipv6 sys) (or_next (get_global_ipv4 sys) (codes "localhost")))))

unfoldable pub dev_only_tlds : List Bytes
dev_only_tlds =
    codes "local"
    ∷ codes "test"
    ∷ codes "example"
    ∷ codes "invalid"
    ∷ codes "localhost"
    ∷ codes "lan"
    ∷ codes "internal"
    ∷ codes "home"
    ∷ codes "localdomain"
    ∷ codes "home.arpa"
    ∷ codes "intranet"
    ∷ codes "corp"
    ∷ codes "private"
    ∷ []

-- The name itself, or one below it.
abbrev at_or_below : Bytes → Bytes → Bool
at_or_below lower tld = eq_bytes lower tld || has_suffix lower (codes "." ++ tld)

abbrev below_any : Bytes → List Bytes → Bool
below_any lower [] = false
below_any lower (tld ∷ tlds) = at_or_below lower tld || below_any lower tlds

unfoldable pub is_dev_tld : Bytes → Bytes → Bool
unfolding dev_only_tlds
is_dev_tld host project_name =
    let lower = map to_lower host in
    (not (is_empty project_name) && at_or_below lower (map to_lower project_name))
    || below_any lower dev_only_tlds

usable_written :
    (sys : System) (hostname next : Bytes)
    → is_empty next ≡ false
    → is_empty (usable sys hostname next) ≡ false
usable_written sys hostname next h = elim (Bool-cases (is_empty hostname)) [
  | inl blank ↦ rw blank h
  | inr there ↦ elim (Bool-cases (is_loopback sys hostname)) [
    | inl own ↦ rw (there, own) h
    | inr other ↦ rw (there, other) there
  ]
]

or_next_written : (s next : Bytes) → is_empty next ≡ false → is_empty (or_next s next) ≡ false
or_next_written s next h = elim (Bool-cases (is_empty s)) [
  | inl blank ↦ rw blank h
  | inr there ↦ rw there there
]

first_written :
    (ds : List Bytes) (next : Bytes)
    → is_empty next ≡ false
    → is_empty (first_domain (keep_if written ds) next) ≡ false
first_written [] next h = h
first_written (d ∷ ds) next h = elim (Bool-cases (is_empty d)) [
  | inl blank ↦ rw blank (first_written ds next h)
  | inr there ↦ rw there there
]

-- The host name is never empty.
pub get_fqdn_written : (sys : System) → is_empty (get_fqdn sys) ≡ false
unfolding get_fqdn get_all_domains eq_bytes
get_fqdn_written sys =
    let next = usable_written sys (known_hostname sys) _ (
      usable_written sys sys.hostname_variable _ (
        or_next_written (get_global_ipv6 sys) _
          (or_next_written (get_global_ipv4 sys) (codes "localhost") refl))) in
    elim (Bool-cases (is_empty sys.domain)) [
      | inl unset ↦ rw unset next
      | inr set ↦ rw set (first_written (map trim_space (split_at _ sys.domain)) _ next)
    ]
