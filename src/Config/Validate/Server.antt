-- ===== src/Config/Validate/Server.antt =====
-- The blocks of `server` that `Validate` of src/config/limits.go checks itself, with `validateBackup`,
-- `validateUpdate` and `validateSecurity`. Where the code ranges over a map, the order of the warnings is
-- one of the possible ones.
use shortner.Shared.{
  ℕ, Bool, not, ◌||◌, Option, none, some, List, [], ◌∷◌, ◌++◌, Bytes, codes, ◌==◌, if◌then◌else◌,
  eq_bytes, trim_space, is_some, ℤ, pos, below, above, outside, parse_int,
}
use shortner.Library.{Library}
use shortner.Config.{parse_duration}
use shortner.Config.Limits.{parse_size, parse_retention_size, normalize_cidr, valid_port}
use shortner.Config.Settings.{
  Limits, default_limits, Compression, default_compression, RateLimitClass, RateLimit,
  default_rate_limit, Backup, default_backup, Update, default_update, AddressEntry, Security,
  default_security,
}
use shortner.Config.Validate.Warnings.{
  Checked, or_replace, validate_enum, contains_any, replaced, noted,
}

unfoldable pub validate_port : Bytes → Checked Bytes
validate_port port =
    or_replace (not (is_some (parse_int port)) || not (valid_port port)) (codes "server.port") port
      (codes "8090")

-- err != nil || d <= 0
abbrev pub bad_timeout : Library → Bytes → Bool
bad_timeout lib s = let d = parse_duration lib s (pos 0) in not d.1 || below 1 d.0

unfoldable pub validate_limits : Library → Limits → Checked Limits
validate_limits lib l =
    let d = default_limits in
    let size =
      or_replace (not (parse_size l.max_body_size (pos 0)).1) (codes "server.limits.max_body_size")
        l.max_body_size d.max_body_size in
    let read =
      or_replace (bad_timeout lib l.read_timeout) (codes "server.limits.read_timeout")
        l.read_timeout d.read_timeout in
    let write =
      or_replace (bad_timeout lib l.write_timeout) (codes "server.limits.write_timeout")
        l.write_timeout d.write_timeout in
    let idle =
      or_replace (bad_timeout lib l.idle_timeout) (codes "server.limits.idle_timeout")
        l.idle_timeout d.idle_timeout in
    (
      record {
        max_body_size = size.0;
        read_timeout = read.0;
        write_timeout = write.0;
        idle_timeout = idle.0;
      },
      size.1 ++ (read.1 ++ (write.1 ++ idle.1)),
    )

abbrev pub or_types : List Bytes → List Bytes
or_types [] = default_compression.types
or_types (t ∷ ts) = t ∷ ts

unfoldable pub validate_compression : Compression → Checked Compression
validate_compression c =
    let level =
      or_replace (outside 1 9 c.level) (codes "server.compression.level") c.level
        default_compression.level in
    (record c { level = level.0; types = or_types c.types }, level.1)

unfoldable pub validate_class : Bytes → RateLimitClass → RateLimitClass → Checked RateLimitClass
validate_class name c d =
    let requests =
      or_replace (below 1 c.requests) (name ++ codes ".requests") c.requests d.requests in
    let window = or_replace (below 1 c.window) (name ++ codes ".window") c.window d.window in
    (record { requests = requests.0; window = window.0 }, requests.1 ++ window.1)

unfoldable pub validate_rate_limit : RateLimit → Checked RateLimit
unfolding validate_class
validate_rate_limit r =
    let d = default_rate_limit in
    let read = validate_class (codes "server.rate_limit.read") r.read d.read in
    let write = validate_class (codes "server.rate_limit.write") r.write d.write in
    let health = validate_class (codes "server.rate_limit.health") r.health d.health in
    let burst =
      or_replace (below 1 r.global_burst) (codes "server.rate_limit.global_burst") r.global_burst
        d.global_burst in
    (
      record r { read = read.0; write = write.0; health = health.0; global_burst = burst.0 },
      read.1 ++ (write.1 ++ (health.1 ++ burst.1)),
    )

abbrev pub cache_types : List Bytes
cache_types = codes "none" ∷ codes "memory" ∷ codes "valkey" ∷ codes "redis" ∷ []

unfoldable pub validate_cache_type : Bytes → Checked Bytes
unfolding validate_enum
validate_cache_type t = validate_enum (codes "server.cache.type") t (codes "memory") cache_types

-- A counter below its least value is replaced, one above the recommendation noted.
abbrev pub validate_counter : Bytes → ℤ → ℤ → ℕ → ℕ → Checked ℤ
validate_counter name n default least warn_above =
    if below least n
    then (default, replaced name ∷ [])
    else (n, (if above warn_above n then noted name ∷ [] else []))

unfoldable pub validate_backup : Backup → Checked Backup
validate_backup b =
    let r = b.retention in
    let d = default_backup in
    let daily =
      validate_counter (codes "server.backup.retention.max_backups") r.max_backups
        d.retention.max_backups 1 7 in
    let weekly =
      validate_counter (codes "server.backup.retention.keep_weekly") r.keep_weekly
        d.retention.keep_weekly 0 8 in
    let monthly =
      validate_counter (codes "server.backup.retention.keep_monthly") r.keep_monthly
        d.retention.keep_monthly 0 12 in
    let yearly =
      validate_counter (codes "server.backup.retention.keep_yearly") r.keep_yearly
        d.retention.keep_yearly 0 2 in
    let size =
      or_replace (not (parse_retention_size r.max_total_size (pos 0)).1)
        (codes "server.backup.retention.max_total_size") r.max_total_size
        d.retention.max_total_size in
    let threshold =
      or_replace (outside 1 100 b.disk_threshold) (codes "server.backup.disk_threshold")
        b.disk_threshold d.disk_threshold in
    (
      record {
        retention = record {
          max_backups = daily.0;
          keep_weekly = weekly.0;
          keep_monthly = monthly.0;
          keep_yearly = yearly.0;
          max_total_size = size.0;
        };
        disk_threshold = threshold.0;
      },
      daily.1 ++ (weekly.1 ++ (monthly.1 ++ (yearly.1 ++ (size.1 ++ threshold.1)))),
    )

abbrev pub update_branches : List Bytes
update_branches = codes "stable" ∷ codes "beta" ∷ codes "daily" ∷ []

unfoldable pub validate_update : Update → Checked Update
unfolding validate_enum
validate_update u =
    let branch =
      validate_enum (codes "server.update.branch") u.branch default_update.branch update_branches in
    let days =
      or_replace (outside 0 365 u.defer_days) (codes "server.update.defer_days") u.defer_days
        default_update.defer_days in
    (record u { branch = branch.0; defer_days = days.0 }, branch.1 ++ days.1)

abbrev pub ends_version : ℕ → Bool
ends_version c = c == b'/' || (c == 32 || (c == b'?' || c == b'#'))

unfoldable pub validate_api_version : Bytes → Checked Bytes
validate_api_version version =
    let v = trim_space version in
    if eq_bytes v []
    then (codes "v1", [])
    else or_replace (contains_any ends_version v) (codes "server.api_version") v (codes "v1")

abbrev pub kept_entry :
    Bytes → AddressEntry → Option Bytes → Checked (List AddressEntry) → Checked (List AddressEntry)
kept_entry name e none rest = (rest.0, replaced name ∷ rest.1)
kept_entry name e (some norm) rest = (record e { cidr = norm } ∷ rest.0, rest.1)

-- The entries that are valid, in their normal form.
unfoldable pub validate_entries : Library → Bytes → List AddressEntry → Checked (List AddressEntry)
validate_entries lib name [] = ([], [])
validate_entries lib name (e ∷ entries) =
    kept_entry name e (normalize_cidr lib e.cidr) (validate_entries lib name entries)

unfoldable pub validate_security : Library → Security → Checked Security
unfolding validate_entries
validate_security lib s =
    let flood = s.request_flood in
    let d = default_security.request_flood in
    let allow = validate_entries lib (codes "server.security.allowlist") s.allowlist in
    let block = validate_entries lib (codes "server.security.blocked_ips") s.blocked_ips in
    let multiplier =
      or_replace (below 2 flood.multiplier)
        (codes "server.security.abuse_detection.request_flood.multiplier") flood.multiplier
        d.multiplier in
    let duration =
      or_replace (not (parse_duration lib flood.block_duration (pos 0)).1)
        (codes "server.security.abuse_detection.request_flood.block_duration") flood.block_duration
        d.block_duration in
    (
      record {
        allowlist = allow.0;
        blocked_ips = block.0;
        request_flood = record { multiplier = multiplier.0; block_duration = duration.0 };
      },
      allow.1 ++ (block.1 ++ (multiplier.1 ++ duration.1)),
    )
