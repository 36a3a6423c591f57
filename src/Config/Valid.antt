-- ===== src/Config/Valid.antt =====
-- What `Validate` of src/config/limits.go leaves: settings that the rest of the program can use.
pub mod Blocks
pub mod Proof
pub mod Kept
use shortner.Shared.{
  ℕ, ◌*◌, ◌≤◌, ◌<◌, ◌≡◌, ◌⊎◌, Bool, true, false, Option, none, some, List, [], ◌∷◌, Bytes, codes,
  eq_bytes, All, trim_space, ℤ, pos, parse_int,
}
use shortner.Library.{Library}
use shortner.Config.{parse_duration}
use shortner.Config.Limits.{parse_size, parse_retention_size, normalize_cidr}
use shortner.Config.Validate.Warnings.{any_of, contains_any}
use shortner.Config.Validate.Server.{cache_types, update_branches, ends_version}
use shortner.Config.Validate.Mail.{positions, smtp_tls_modes, looks_like_email}
use shortner.Config.Validate.Headers.{
  coop_values, coep_values, corp_values, cross_domain_values, prefetch_values, csp_modes,
}
use shortner.Config.Settings.{
  Limits, Compression, RateLimitClass, RateLimit, Backup, Update, AddressEntry, Security,
  Notifications, SampleRate, is_negative, exceeds_one, Hsts, Headers, Csp, Reports, Web, Settings,
}

-- An integer of at least lo.
abbrev pub AtLeast : ℕ → ℤ → Type 0
AtLeast lo n = (k : ℕ) × (n ≡ pos k) × (lo ≤ k)

abbrev pub Between : ℕ → ℕ → ℤ → Type 0
Between lo hi n = (k : ℕ) × (n ≡ pos k) × (lo ≤ k) × (k ≤ hi)

module _ {A : Type 0} where
  abbrev pub NonEmpty : List A → Type 0
  NonEmpty xs = (x : A) × (rest : List A) × (xs ≡ x ∷ rest)

abbrev pub OneOf : List Bytes → Bytes → Type 0
OneOf allowed s = any_of s allowed ≡ true

abbrev pub ValidPort : Bytes → Type 0
ValidPort s = (n : ℤ) × (parse_int s ≡ some n) × Between 1 65535 n

-- The text of a duration above zero.
abbrev pub Lasting : Library → Bytes → Type 0
Lasting lib s = (d : ℕ) × (parse_duration lib s (pos 0) ≡ (pos d, true)) × (1 ≤ d)

pub record ValidLimits (lib : Library) (l : Limits) : Type 0 where
  pub size : (parse_size l.max_body_size (pos 0)).1 ≡ true
  pub read : Lasting lib l.read_timeout
  pub write : Lasting lib l.write_timeout
  pub idle : Lasting lib l.idle_timeout

pub record ValidClass (c : RateLimitClass) : Type 0 where
  pub requests : AtLeast 1 c.requests
  pub window : AtLeast 1 c.window

pub record ValidRateLimit (r : RateLimit) : Type 0 where
  pub read : ValidClass r.read
  pub write : ValidClass r.write
  pub health : ValidClass r.health
  pub burst : AtLeast 1 r.global_burst

pub record ValidBackup (b : Backup) : Type 0 where
  pub daily : AtLeast 1 b.retention.max_backups
  pub weekly : AtLeast 0 b.retention.keep_weekly
  pub monthly : AtLeast 0 b.retention.keep_monthly
  pub yearly : AtLeast 0 b.retention.keep_yearly
  pub size : (parse_retention_size b.retention.max_total_size (pos 0)).1 ≡ true
  pub threshold : Between 1 100 b.disk_threshold

pub record ValidUpdate (u : Update) : Type 0 where
  pub branch : OneOf update_branches u.branch
  pub days : Between 0 365 u.defer_days

-- A version that can stand in a path.
abbrev pub ValidVersion : Bytes → Type 0
ValidVersion v = (eq_bytes v [] ≡ false) × (contains_any ends_version v ≡ false)

-- An entry in the normal form of one that is valid.
abbrev pub Normal : Library → AddressEntry → Type 0
Normal lib e = (written : Bytes) × (normalize_cidr lib written ≡ some e.cidr)

pub record ValidSecurity (lib : Library) (s : Security) : Type 0 where
  pub allowlist : All (Normal lib) s.allowlist
  pub blocked_ips : All (Normal lib) s.blocked_ips
  pub multiplier : AtLeast 2 s.request_flood.multiplier
  pub duration : (parse_duration lib s.request_flood.block_duration (pos 0)).1 ≡ true

abbrev pub NoneOrEmail : Bytes → Type 0
NoneOrEmail s = (s ≡ []) ⊎ (looks_like_email s ≡ true)

pub record ValidNotifications (n : Notifications) : Type 0 where
  pub position : OneOf positions n.position
  pub duration : AtLeast 0 n.duration
  pub smtp_port : Between 1 65535 n.smtp_port
  pub smtp_tls : OneOf smtp_tls_modes n.smtp_tls
  pub from_email : NoneOrEmail n.from_email
  pub reply_to : NoneOrEmail n.reply_to

abbrev pub ValidRate : SampleRate → Type 0
ValidRate x = (is_negative x ≡ false) × (exceeds_one x ≡ false)

pub record ValidHeaders (h : Headers) : Type 0 where
  pub coop : OneOf coop_values h.coop
  pub coep : OneOf coep_values h.coep
  pub corp : OneOf corp_values h.corp
  pub cross : OneOf cross_domain_values h.cross_domain_policies
  pub prefetch : OneOf prefetch_values h.dns_prefetch_control
  pub age : AtLeast 0 h.nel_max_age_seconds
  pub rate : ValidRate h.nel_sample_rate

pub record ValidWeb (w : Web) : Type 0 where
  pub hsts : AtLeast 0 w.hsts.max_age_seconds
  pub headers : ValidHeaders w.headers
  pub mode : OneOf csp_modes w.csp.mode
  pub rate : ValidRate w.csp.reports_sample_rate
  pub minute : AtLeast 1 w.reports.rate_limit_per_minute
  pub burst : AtLeast 1 w.reports.rate_limit_per_ip_burst
  pub policy : NonEmpty w.permissions_policy
  pub unsupported : w.unsupported_behavior ≡ pos 404

pub record Valid (lib : Library) (s : Settings) : Type 0 where
  pub port : ValidPort s.port
  pub limits : ValidLimits lib s.limits
  pub level : Between 1 9 s.compression.level
  pub types : NonEmpty s.compression.types
  pub rate_limit : ValidRateLimit s.rate_limit
  pub cache : OneOf cache_types s.cache_type
  pub backup : ValidBackup s.backup
  pub update : ValidUpdate s.update
  pub version : ValidVersion s.api_version
  pub security : ValidSecurity lib s.security
  pub notifications : ValidNotifications s.notifications
  pub web : ValidWeb s.web
