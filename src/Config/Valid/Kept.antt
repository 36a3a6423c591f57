-- ===== src/Config/Valid/Kept.antt =====
-- `Validate` of src/config/limits.go replaces nothing that is valid.
use shortner.Shared.{
  ℕ, ◌≡◌, refl, sym, ap, ◌∙◌, inl, inr, Bool, true, false, some, List, [], ◌∷◌, Bytes, codes, arith,
  Bool-cases, eq_bytes, eq_bytes_iff, eq_bytes_refl, All, trim_space, trim_space_id, ℤ, pos, below,
  outside, parse_int, parse_int-IsInk,
}
use shortner.Library.{Library}
use shortner.Config.Limits.{normalize_cidr, valid_port}
use shortner.Config.Settings.{
  Limits, Compression, RateLimitClass, RateLimit, Backup, Update, AddressEntry, Security,
  Notifications, SampleRate, default_rate_limit, Hsts, Headers, Web, Settings,
}
use shortner.Config.Validate.{validate}
use shortner.Config.Validate.Warnings.{or_replace, any_of, validate_enum}
use shortner.Config.Validate.Server.{
  validate_port, bad_timeout, validate_limits, or_types, validate_compression, validate_class,
  validate_rate_limit, validate_backup, validate_update, validate_api_version, validate_entries,
  validate_security, update_branches, validate_cache_type, cache_types,
}
use shortner.Config.Validate.Mail.{
  validate_address, validate_notifications, positions, smtp_tls_modes,
}
use shortner.Config.Validate.Headers.{
  bad_rate, validate_hsts, coop_values, coep_values, corp_values, cross_domain_values,
  validate_headers, csp_modes, validate_csp, validate_reports, or_policy, validate_web,
}
use shortner.Config.Valid.{
  AtLeast, Between, OneOf, NonEmpty, ValidPort, Lasting, ValidLimits, ValidClass, ValidRateLimit,
  ValidBackup, ValidUpdate, ValidVersion, ValidSecurity, NoneOrEmail, ValidNotifications, ValidRate,
  ValidHeaders, ValidWeb, Valid,
}

or_replace_kept :
    {A : Type 0} (invalid : Bool) (name : Bytes) (value default : A)
    → invalid ≡ false
    → (or_replace invalid name value default).0 ≡ value
or_replace_kept true name value default h = absurd (ground (arith, h))
or_replace_kept false name value default h = refl

enum_kept :
    (name value default : Bytes) (allowed : List Bytes)
    → any_of [] allowed ≡ false
    → OneOf allowed value
    → (validate_enum name value default allowed).0 ≡ value
unfolding validate_enum
enum_kept name value default allowed named one = elim (Bool-cases (eq_bytes value [])) [
  | inl blank ↦
      let here = ap (λ (v : Bytes). any_of v allowed) ((eq_bytes_iff value []).0 blank) in
      absurd (ground (arith, here, named, one))
  | inr written ↦ rw (written, one) refl
]

Between-outside : (lo hi : ℕ) (n : ℤ) → Between lo hi n → outside lo hi n ≡ false
Between-outside lo hi n (k, is, least, most) = rw is (ground (arith, least, most))

AtLeast-below : (lo : ℕ) (n : ℤ) → AtLeast lo n → below lo n ≡ false
AtLeast-below lo n (k, is, least) = rw is (ground (arith, least))

port_kept : (s : Bytes) → ValidPort s → (validate_port s).0 ≡ s
unfolding validate_port valid_port
port_kept s (n, read, inside) =
    let trimmed : parse_int (trim_space s) ≡ some n =
      ap (λ (t : Bytes). parse_int t) (trim_space_id s (parse_int-IsInk s n read)) ∙ read in
    rw (read, valid_port, trimmed, Between-outside 1 65535 n inside) refl

timeout_kept : (lib : Library) (s : Bytes) → Lasting lib s → bad_timeout lib s ≡ false
timeout_kept lib s (d, read, least) = rw read (ground (arith, least))

limits_kept : (lib : Library) (l : Limits) → ValidLimits lib l → (validate_limits lib l).0 ≡ l
unfolding validate_limits
limits_kept lib l v =
    rw
      (
        v.size,
        timeout_kept lib l.read_timeout v.read,
        timeout_kept lib l.write_timeout v.write,
        timeout_kept lib l.idle_timeout v.idle,
      )
      refl

or_types_kept : (types : List Bytes) → NonEmpty types → or_types types ≡ types
or_types_kept types (t, ts, is) = ap or_types is ∙ sym is

compression_kept :
    (c : Compression) → Between 1 9 c.level → NonEmpty c.types → (validate_compression c).0 ≡ c
unfolding validate_compression
compression_kept c level types =
    rw (Between-outside 1 9 c.level level, or_types_kept c.types types) refl

class_kept : (name : Bytes) (c d : RateLimitClass) → ValidClass c → (validate_class name c d).0 ≡ c
unfolding validate_class
class_kept name c d v =
    rw (AtLeast-below 1 c.requests v.requests, AtLeast-below 1 c.window v.window) refl

rate_limit_kept : (r : RateLimit) → ValidRateLimit r → (validate_rate_limit r).0 ≡ r
unfolding validate_rate_limit
rate_limit_kept r v =
    rw
      (
        class_kept (codes "server.rate_limit.read") r.read default_rate_limit.read v.read,
        class_kept (codes "server.rate_limit.write") r.write default_rate_limit.write v.write,
        class_kept (codes "server.rate_limit.health") r.health default_rate_limit.health v.health,
        AtLeast-below 1 r.global_burst v.burst,
      )
      refl

backup_kept : (b : Backup) → ValidBackup b → (validate_backup b).0 ≡ b
unfolding validate_backup
backup_kept b v =
    rw
      (
        AtLeast-below 1 b.retention.max_backups v.daily,
        AtLeast-below 0 b.retention.keep_weekly v.weekly,
        AtLeast-below 0 b.retention.keep_monthly v.monthly,
        AtLeast-below 0 b.retention.keep_yearly v.yearly,
        v.size,
        Between-outside 1 100 b.disk_threshold v.threshold,
      )
      refl

update_kept : (u : Update) → ValidUpdate u → (validate_update u).0 ≡ u
unfolding validate_update eq_bytes
update_kept u v =
    rw
      (
        enum_kept (codes "server.update.branch") u.branch (codes "stable") update_branches refl
            v.branch,
        Between-outside 0 365 u.defer_days v.days,
      )
      refl

version_kept : (v : Bytes) → trim_space v ≡ v → ValidVersion v → (validate_api_version v).0 ≡ v
unfolding validate_api_version
version_kept v trimmed (written, plain) = rw (trimmed, written, plain) refl

-- Entries in normal form.
abbrev pub Normalized : Library → AddressEntry → Type 0
Normalized lib e = normalize_cidr lib e.cidr ≡ some e.cidr

entries_kept :
    (lib : Library) (name : Bytes) (entries : List AddressEntry)
    → All (Normalized lib) entries
    → (validate_entries lib name entries).0 ≡ entries
unfolding validate_entries
entries_kept lib name [] h = refl
entries_kept lib name (e ∷ entries) (normal, h) =
    rw normal (ap (λ (rest : List AddressEntry). e ∷ rest) (entries_kept lib name entries h))

security_kept :
    (lib : Library) (s : Security)
    → All (Normalized lib) s.allowlist
    → All (Normalized lib) s.blocked_ips
    → ValidSecurity lib s
    → (validate_security lib s).0 ≡ s
unfolding validate_security
security_kept lib s allow block v =
    rw
      (
        entries_kept lib (codes "server.security.allowlist") s.allowlist allow,
        entries_kept lib (codes "server.security.blocked_ips") s.blocked_ips block,
        AtLeast-below 2 s.request_flood.multiplier v.multiplier,
        v.duration,
      )
      refl

address_kept : (name s : Bytes) → trim_space s ≡ s → NoneOrEmail s → (validate_address name s).0 ≡ s
address_kept name s trimmed (inl none_there) =
    rw (trimmed, ap (λ (t : Bytes). eq_bytes t []) none_there, eq_bytes_refl []) refl
address_kept name s trimmed (inr email) = elim (Bool-cases (eq_bytes s [])) [
  | inl blank ↦ rw (trimmed, blank) refl
  | inr written ↦ rw (trimmed, written, email) refl
]

notifications_kept :
    (n : Notifications)
    → trim_space n.smtp_host ≡ n.smtp_host
    → trim_space n.from_email ≡ n.from_email
    → trim_space n.reply_to ≡ n.reply_to
    → ValidNotifications n
    → (validate_notifications n).0 ≡ n
unfolding validate_notifications eq_bytes
notifications_kept n host from reply v =
    rw
      (
        enum_kept (codes "server.notifications.webui.position") n.position (codes "top-right")
            positions refl v.position,
        AtLeast-below 0 n.duration v.duration,
        enum_kept (codes "server.notifications.email.smtp.tls") n.smtp_tls (codes "auto")
            smtp_tls_modes refl v.smtp_tls,
        Between-outside 1 65535 n.smtp_port v.smtp_port,
        host,
        address_kept (codes "server.notifications.email.from.email") n.from_email from v.from_email,
        address_kept (codes "server.notifications.email.reply_to") n.reply_to reply v.reply_to,
      )
      refl

rate_kept : (x : SampleRate) → ValidRate x → bad_rate x ≡ false
rate_kept x (fits, below_one) = rw (fits, below_one) refl

hsts_kept : (h : Hsts) → AtLeast 0 h.max_age_seconds → (validate_hsts h).0 ≡ h
unfolding validate_hsts
hsts_kept h age = rw (AtLeast-below 0 h.max_age_seconds age) refl

headers_kept : (h : Headers) → ValidHeaders h → (validate_headers h).0 ≡ h
unfolding validate_headers eq_bytes
headers_kept h v =
    rw
      (
        enum_kept (codes "web.headers.coop") h.coop (codes "unsafe-none") coop_values refl v.coop,
        enum_kept (codes "web.headers.coep") h.coep (codes "unsafe-none") coep_values refl v.coep,
        enum_kept (codes "web.headers.corp") h.corp (codes "cross-origin") corp_values refl v.corp,
        enum_kept (codes "web.headers.cross_domain_policies") h.cross_domain_policies (codes "none")
            cross_domain_values refl v.cross,
        v.prefetch,
        rate_kept h.nel_sample_rate v.rate,
        AtLeast-below 0 h.nel_max_age_seconds v.age,
      )
      refl

policy_kept : (policy : List (Bytes × Bytes)) → NonEmpty policy → or_policy policy ≡ policy
policy_kept policy (entry, rest, is) = ap or_policy is ∙ sym is

exactly_inside : (k : ℕ) (n : ℤ) → n ≡ pos k → outside k k n ≡ false
exactly_inside k n is = rw is (ground arith)

web_kept : (w : Web) → ValidWeb w → (validate_web w).0 ≡ w
unfolding validate_web validate_csp validate_reports eq_bytes
web_kept w v =
    rw
      (
        hsts_kept w.hsts v.hsts,
        headers_kept w.headers v.headers,
        enum_kept (codes "web.csp.mode") w.csp.mode (codes "enforce") csp_modes refl v.mode,
        rate_kept w.csp.reports_sample_rate v.rate,
        AtLeast-below 1 w.reports.rate_limit_per_minute v.minute,
        AtLeast-below 1 w.reports.rate_limit_per_ip_burst v.burst,
        policy_kept w.permissions_policy v.policy,
        exactly_inside 404 w.unsupported_behavior v.unsupported,
      )
      refl

-- The texts that `Validate` trims have no white space at their ends, and the lists are in normal form.
pub record Tidy (lib : Library) (s : Settings) : Type 0 where
  pub version : trim_space s.api_version ≡ s.api_version
  pub smtp_host : trim_space s.notifications.smtp_host ≡ s.notifications.smtp_host
  pub from_email : trim_space s.notifications.from_email ≡ s.notifications.from_email
  pub reply_to : trim_space s.notifications.reply_to ≡ s.notifications.reply_to
  pub allowlist : All (Normalized lib) s.security.allowlist
  pub blocked_ips : All (Normalized lib) s.security.blocked_ips

-- `Validate` changes no setting of a configuration that is valid and tidy: what the operator wrote is
-- used as it is.
pub validate_kept :
    (lib : Library) (s : Settings) → Valid lib s → Tidy lib s → (validate lib s).0 ≡ s
unfolding validate validate_cache_type eq_bytes
validate_kept lib s v tidy =
    rw
      (
        port_kept s.port v.port,
        limits_kept lib s.limits v.limits,
        compression_kept s.compression v.level v.types,
        rate_limit_kept s.rate_limit v.rate_limit,
        enum_kept (codes "server.cache.type") s.cache_type (codes "memory") cache_types refl
            v.cache,
        backup_kept s.backup v.backup,
        update_kept s.update v.update,
        version_kept s.api_version tidy.version v.version,
        security_kept lib s.security tidy.allowlist tidy.blocked_ips v.security,
        notifications_kept s.notifications tidy.smtp_host tidy.from_email tidy.reply_to
            v.notifications,
        web_kept s.web v.web,
      )
      refl
