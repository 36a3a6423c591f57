-- ===== src/Config/Valid/Blocks.antt =====
-- Each block of the settings after its part of `Validate` (src/config/limits.go, notifications.go).
use shortner.Shared.{
  ℕ, ◌*◌, ◌≤◌, ◌≡◌, refl, ap, ◌∙◌, inl, inr, Bool, true, false, not, ◌&&◌, ◌||◌, some, List, [],
  ◌∷◌, Bytes, codes, arith, Bool-cases, Option-cases, eq_bytes, All, trim_space, trim_space_id,
  is_some, is_space, has_prefix, to_upper, to_lower, eq_bytes_iff, ℤ, pos, negsuc, below, outside,
  parse_int, parse_int-IsInk,
}
use shortner.Library.{Library}
use shortner.Config.{parse_duration, is_falsy}
use shortner.Config.Limits.{parse_size, parse_retention_size, normalize_cidr, valid_port}
use shortner.Config.Validate.Warnings.{or_replace, any_of, contains_any, validate_enum}
use shortner.Config.Validate.Server.{
  validate_port, bad_timeout, validate_limits, validate_class, validate_rate_limit,
  validate_counter, validate_backup, validate_update, ends_version, validate_api_version,
  validate_entries, validate_security, update_branches, validate_cache_type, cache_types,
}
use shortner.Config.Validate.Mail.{
  positions, smtp_tls_modes, looks_like_email, validate_address, validate_notifications,
}
use shortner.Config.Settings.{
  Limits, RateLimitClass, RateLimit, Backup, Update, AddressEntry, Security, Notifications,
}
use shortner.Config.Valid.{
  AtLeast, Between, OneOf, ValidPort, Lasting, ValidLimits, ValidClass, ValidRateLimit, ValidBackup,
  ValidUpdate, ValidVersion, Normal, ValidSecurity, NoneOrEmail, ValidNotifications,
}

default_size : (parse_size (codes "10MB") (pos 0)).1 ≡ true
unfolding parse_size eq_bytes trim_space is_space has_prefix to_upper parse_int
default_size = refl

default_retention : (parse_retention_size (codes "10%") (pos 0)).1 ≡ true
unfolding parse_retention_size eq_bytes trim_space is_space has_prefix to_lower parse_int is_falsy
default_retention = refl

of_negated : (b : Bool) → not b ≡ false → b ≡ true
of_negated b h = ground (arith, h)

-- What holds of a setting that is not invalid, and of the default.
pub or_replace_lem :
    {A : Type 0} (P : A → Type 0) (invalid : Bool) (name : Bytes) (value default : A)
    → (invalid ≡ false → P value)
    → P default
    → P (or_replace invalid name value default).0
or_replace_lem P true name value default good fallback = fallback
or_replace_lem P false name value default good fallback = good refl

pub validate_enum-OneOf :
    (name value default : Bytes) (allowed : List Bytes)
    → OneOf allowed default
    → OneOf allowed (validate_enum name value default allowed).0
unfolding validate_enum
validate_enum-OneOf name value default allowed fallback = elim (Bool-cases (eq_bytes value [])) [
  | inl blank ↦ rw blank fallback
  | inr written ↦ rw written (
      or_replace_lem (OneOf allowed) (not (any_of value allowed)) name value default
        (λ h. ground (arith, h)) fallback)
]

pub outside-Between : (lo hi : ℕ) (n : ℤ) → outside lo hi n ≡ false → Between lo hi n
outside-Between lo hi (pos n) h = (n, refl, ground (arith, h), ground (arith, h))
outside-Between lo hi (negsuc n) h = absurd (ground (arith, h))

pub below-AtLeast : (lo : ℕ) (n : ℤ) → below lo n ≡ false → AtLeast lo n
below-AtLeast lo (pos n) h = (n, refl, ground (arith, h))
below-AtLeast lo (negsuc n) h = absurd (ground (arith, h))

valid_port_lem : (s : Bytes) (n : ℤ) → parse_int s ≡ some n → valid_port s ≡ true → ValidPort s
unfolding valid_port
valid_port_lem s n read valid =
    let trimmed : parse_int (trim_space s) ≡ some n =
      ap (λ (t : Bytes). parse_int t) (trim_space_id s (parse_int-IsInk s n read)) ∙ read in
    let inside : not (outside 1 65535 n) ≡ true = rw (valid_port, trimmed) at valid in
    (n, read, outside-Between 1 65535 n (ground (arith, inside)))

pub validate_port-ValidPort : (s : Bytes) → ValidPort (validate_port s).0
unfolding validate_port parse_int
validate_port-ValidPort s =
    or_replace_lem ValidPort (not (is_some (parse_int s)) || not (valid_port s)) _ s (codes "8090")
      (λ h. elim (Option-cases (parse_int s)) [
        | inl bad ↦ let refused : true ≡ false = rw bad at h in absurd (cc)
        | inr (n, read) ↦
            let fits : not (valid_port s) ≡ false = rw read at h in
            valid_port_lem s n read (ground (arith, fits))
      ])
      (pos 8090, refl, (8090, refl, omega arith, omega arith))

-- What `time.ParseDuration` says of the texts of the defaults.
pub record ReadsDefaults (lib : Library) : Type 0 where
  pub seconds_30 : lib.parse_duration (codes "30s") ≡ some (pos (30 * 1_000_000_000))
  pub seconds_120 : lib.parse_duration (codes "120s") ≡ some (pos (120 * 1_000_000_000))
  pub hour : lib.parse_duration (codes "1h") ≡ some (pos (3600 * 1_000_000_000))

module _ (lib : Library) where
  timeout_lem : (s : Bytes) → bad_timeout lib s ≡ false → Lasting lib s
  timeout_lem s h = lasts (parse_duration lib s (pos 0)) h
    where
      lasts :
          (p : ℤ × Bool)
          → (not p.1 || below 1 p.0) ≡ false
          → (k : ℕ) × (p ≡ (pos k, true)) × (1 ≤ k)
      lasts (pos n, true) h = (n, refl, ground (arith, h))
      lasts (negsuc n, true) h = absurd (ground (arith, h))
      lasts (z, false) h = absurd (ground (arith, h))

  -- A text without white space at its ends that the library reads.
  lasting_lem :
      (s : Bytes) (k : ℕ)
      → trim_space s ≡ s
      → eq_bytes s [] ≡ false
      → lib.parse_duration s ≡ some (pos k)
      → 1 ≤ k
      → Lasting lib s
  unfolding parse_duration
  lasting_lem s k trimmed written read least = (k, rw (trimmed, written, read) refl, least)

  entries-Normal :
      (name : Bytes) (entries : List AddressEntry)
      → All (Normal lib) (validate_entries lib name entries).0
  unfolding validate_entries
  entries-Normal name [] = tt
  entries-Normal name (e ∷ entries) = elim (Option-cases (normalize_cidr lib e.cidr)) [
    | inl bad ↦ rw bad (entries-Normal name entries)
    | inr (norm, good) ↦ rw good ((e.cidr, good), entries-Normal name entries)
  ]

  module _ (reads : ReadsDefaults lib) where
    pub limits-ValidLimits : (l : Limits) → ValidLimits lib (validate_limits lib l).0
    unfolding validate_limits trim_space is_space eq_bytes
    limits-ValidLimits l = record {
      size =
          or_replace_lem (λ s. (parse_size s (pos 0)).1 ≡ true)
            (not (parse_size l.max_body_size (pos 0)).1) _ _ _ (λ h. ground (arith, h))
            default_size;
      read =
          or_replace_lem (Lasting lib) _ _ _ _ (timeout_lem l.read_timeout)
            (lasting_lem (codes "30s") _ refl refl reads.seconds_30 (omega arith));
      write =
          or_replace_lem (Lasting lib) _ _ _ _ (timeout_lem l.write_timeout)
            (lasting_lem (codes "30s") _ refl refl reads.seconds_30 (omega arith));
      idle =
          or_replace_lem (Lasting lib) _ _ _ _ (timeout_lem l.idle_timeout)
            (lasting_lem (codes "120s") _ refl refl reads.seconds_120 (omega arith));
    }

    hour_valid : (parse_duration lib (codes "1h") (pos 0)).1 ≡ true
    unfolding parse_duration trim_space is_space eq_bytes
    hour_valid = rw (reads.hour) refl

    pub security-ValidSecurity : (s : Security) → ValidSecurity lib (validate_security lib s).0
    unfolding validate_security parse_duration trim_space is_space eq_bytes
    security-ValidSecurity s = record {
      allowlist = entries-Normal _ s.allowlist;
      blocked_ips = entries-Normal _ s.blocked_ips;
      multiplier =
          or_replace_lem (AtLeast 2) _ _ s.request_flood.multiplier _
            (below-AtLeast 2 s.request_flood.multiplier) (10, refl, omega arith);
      duration =
          or_replace_lem (λ d. (parse_duration lib d (pos 0)).1 ≡ true)
            (not (parse_duration lib s.request_flood.block_duration (pos 0)).1)
            (codes "server.security.abuse_detection.request_flood.block_duration")
            s.request_flood.block_duration (codes "1h") (λ h. of_negated _ h) hour_valid;
    }

class-ValidClass :
    (name : Bytes) (c d : RateLimitClass) → ValidClass d → ValidClass (validate_class name c d).0
unfolding validate_class
class-ValidClass name c d fallback = record {
  requests =
      or_replace_lem (AtLeast 1) _ _ c.requests _ (below-AtLeast 1 c.requests) fallback.requests;
  window = or_replace_lem (AtLeast 1) _ _ c.window _ (below-AtLeast 1 c.window) fallback.window;
}

pub rate_limit-ValidRateLimit : (r : RateLimit) → ValidRateLimit (validate_rate_limit r).0
unfolding validate_rate_limit
rate_limit-ValidRateLimit r = record {
  read =
      class-ValidClass (codes "server.rate_limit.read") r.read _
        (record { requests = (120, refl, omega arith); window = (60, refl, omega arith) });
  write =
      class-ValidClass (codes "server.rate_limit.write") r.write _
        (record { requests = (10, refl, omega arith); window = (60, refl, omega arith) });
  health =
      class-ValidClass (codes "server.rate_limit.health") r.health _
        (record { requests = (120, refl, omega arith); window = (60, refl, omega arith) });
  burst =
      or_replace_lem (AtLeast 1) _ _ r.global_burst _ (below-AtLeast 1 r.global_burst)
        (240, refl, omega arith);
}

counter_lem :
    (name : Bytes) (n : ℤ) (default least warn_above : ℕ)
    → least ≤ default
    → AtLeast least (validate_counter name n (pos default) least warn_above).0
counter_lem name n default least warn_above fallback = elim (Bool-cases (below least n)) [
  | inl low ↦ rw low (default, refl, fallback)
  | inr fits ↦ rw fits (below-AtLeast least n fits)
]

pub backup-ValidBackup : (b : Backup) → ValidBackup (validate_backup b).0
unfolding validate_backup
backup-ValidBackup b = record {
  daily = counter_lem _ b.retention.max_backups 1 1 7 (omega arith);
  weekly = counter_lem _ b.retention.keep_weekly 0 0 8 (omega arith);
  monthly = counter_lem _ b.retention.keep_monthly 0 0 12 (omega arith);
  yearly = counter_lem _ b.retention.keep_yearly 0 0 2 (omega arith);
  size =
      or_replace_lem (λ s. (parse_retention_size s (pos 0)).1 ≡ true) _ _ _ _ (λ h. of_negated _ h)
        default_retention;
  threshold =
      or_replace_lem (Between 1 100) _ _ b.disk_threshold _ (outside-Between 1 100 b.disk_threshold)
        (90, refl, omega arith, omega arith);
}

pub update-ValidUpdate : (u : Update) → ValidUpdate (validate_update u).0
unfolding validate_update eq_bytes
update-ValidUpdate u = record {
  branch = validate_enum-OneOf _ u.branch (codes "stable") update_branches refl;
  days =
      or_replace_lem (Between 0 365) _ _ u.defer_days _ (outside-Between 0 365 u.defer_days)
        (0, refl, omega arith, omega arith);
}

pub api_version-ValidVersion : (v : Bytes) → ValidVersion (validate_api_version v).0
unfolding validate_api_version eq_bytes
api_version-ValidVersion v = elim (Bool-cases (eq_bytes (trim_space v) [])) [
  | inl blank ↦ rw blank (refl, refl)
  | inr written ↦ rw written (
      or_replace_lem ValidVersion (contains_any ends_version (trim_space v)) _ (trim_space v)
        (codes "v1") (λ h. (written, h)) (refl, refl))
]

pub cache_type-OneOf : (t : Bytes) → OneOf cache_types (validate_cache_type t).0
unfolding validate_cache_type eq_bytes
cache_type-OneOf t = validate_enum-OneOf _ t (codes "memory") cache_types refl

address_lem : (name s : Bytes) → NoneOrEmail (validate_address name s).0
address_lem name s =
    or_replace_lem NoneOrEmail
      (not (eq_bytes (trim_space s) []) && not (looks_like_email (trim_space s))) name
      (trim_space s) []
      (λ h. elim (Bool-cases (eq_bytes (trim_space s) [])) [
        | inl blank ↦ inl ((eq_bytes_iff (trim_space s) []).0 blank)
        | inr written ↦ inr (ground (arith, h, written))
      ])
      (inl refl)

pub notifications-ValidNotifications :
    (n : Notifications) → ValidNotifications (validate_notifications n).0
unfolding validate_notifications eq_bytes
notifications-ValidNotifications n = record {
  position = validate_enum-OneOf _ n.position (codes "top-right") positions refl;
  duration =
      or_replace_lem (AtLeast 0) _ _ n.duration _ (below-AtLeast 0 n.duration)
        (5, refl, omega arith);
  smtp_port =
      or_replace_lem (Between 1 65535) _ _ n.smtp_port _ (outside-Between 1 65535 n.smtp_port)
        (587, refl, omega arith, omega arith);
  smtp_tls = validate_enum-OneOf _ n.smtp_tls (codes "auto") smtp_tls_modes refl;
  from_email = address_lem _ n.from_email;
  reply_to = address_lem _ n.reply_to;
}
