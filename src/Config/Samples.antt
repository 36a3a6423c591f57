-- ===== src/Config/Samples.antt =====
-- Sample texts for booleans and sizes, and sample settings.
use shortner.Shared.{
  ◌≡◌, ◌⊎◌, ◌*◌, ◌-◌, ◌^◌, ◌++◌, ◌∷◌, refl, true, false, none, some, [], codes, arith,
  if◌then◌else◌, eq_bytes, format_int, pos, negsuc,
}
use shortner.Config.{is_falsy}
use shortner.Shared
use shortner.Config.Limits
use shortner.Config.Validate.Server
use shortner.Config.Validate.Mail
use shortner.Library.{Library}
use shortner.Http.Samples.{sample_library}
use shortner.Config.Limits.{parse_size, parse_retention_size, percent}
use shortner.Config.Sizes.{parse_size-format_int}
use shortner.Config.Overlay.{default_tor, default_i2p}
use shortner.Config.Settings.{
  default_limits, default_rate_limit, default_backup, default_security, default_notifications,
  default_headers, default_csp, default_reports, Settings,
}
use shortner.Config.Validate.{validate}
use shortner.Config.Valid.{Valid}
use shortner.Config.Valid.Blocks.{ReadsDefaults}
use shortner.Config.Valid.Proof.{validate-Valid}
use shortner.Config.Valid.Kept.{Tidy, validate_kept}

-- The library of the samples, which also reads the durations of the defaults.
abbrev durations : Library
durations = record sample_library {
  parse_duration = λ s.
      if eq_bytes s (codes "30s")
      then some (pos (30 * 1_000_000_000))
      else if eq_bytes s (codes "120s")
      then some (pos (120 * 1_000_000_000))
      else if eq_bytes s (codes "1h")
      then some (pos (3600 * 1_000_000_000))
      else none;
}

durations-ReadsDefaults : ReadsDefaults durations
unfolding Shared.eq_bytes
durations-ReadsDefaults = record { seconds_30 = refl; seconds_120 = refl; hour = refl }

-- Much is invalid: the port, a timeout, a limit, the branch, an address of the list.
abbrev broken : Settings
broken = record {
  port = codes " 80";
  limits = record default_limits { read_timeout = codes "soon"; max_body_size = codes "-1KB" };
  compression = record { enabled = true; level = pos 11; types = [] };
  rate_limit = record default_rate_limit { global_burst = negsuc 4 };
  cache_type = codes "disk";
  backup = record default_backup { disk_threshold = pos 0 };
  update = record { branch = codes "edge"; auto_install = true; defer_days = pos 400 };
  api_version = codes "v 1";
  security = record default_security {
    allowlist = record { cidr = codes "nowhere"; text = [] } ∷ [];
  };
  notifications = record default_notifications { from_email = codes "a@b" };
  web = record {
    hsts = record { enabled = true; max_age_seconds = negsuc 0 };
    headers = record default_headers { coop = codes "any" };
    csp = default_csp;
    reports = default_reports;
    permissions_policy = [];
    unsupported_behavior = pos 200;
  };
  tor = record default_tor { max_circuits = pos 0 };
  i2p = default_i2p;
}

-- What `Validate` left is tidy here.
corrected-Tidy : Tidy durations (validate durations broken).0
unfolding validate Server.validate_api_version Server.validate_security Server.validate_entries
    Mail.validate_notifications Mail.looks_like_email Limits.normalize_cidr Shared.eq_bytes
    Shared.trim_space Shared.is_space Shared.contains Shared.has_prefix
corrected-Tidy = record {
  version = refl;
  smtp_host = refl;
  from_email = refl;
  reply_to = refl;
  allowlist = tt;
  blocked_ips = tt;
}

validate_kept_example :
    (validate durations (validate durations broken).0).0 ≡ (validate durations broken).0
validate_kept_example =
    validate_kept durations (validate durations broken).0
      (validate-Valid durations broken durations-ReadsDefaults) corrected-Tidy

port_replaced : (validate durations broken).0.port ≡ codes "8090"
unfolding validate Server.validate_port Limits.valid_port Shared.parse_int Shared.trim_space
    Shared.is_space
port_replaced = refl

parse_size-format_int_example :
    parse_size (format_int 10 ++ codes "MB") (pos 0) ≡ (pos (10 * 2 ^ 20), true)
parse_size-format_int_example =
    parse_size-format_int 10 2 (record { suffix = codes "MB"; mult = 2 ^ 20 }) (pos 0) refl
      (omega arith)

size_wraps : parse_size (codes "8388608TB") (pos 0) ≡ (negsuc (2 ^ 63 - 1), true)
unfolding parse_size Shared.parse_int Shared.trim_space Shared.is_space Shared.eq_bytes
    Shared.has_prefix Shared.to_upper
size_wraps = refl

percentage : parse_retention_size (codes " 10 %") (pos 0) ≡ (percent 10, true)
unfolding parse_retention_size Shared.parse_int Shared.trim_space Shared.is_space Shared.eq_bytes
    Shared.has_prefix Shared.to_lower is_falsy
percentage = refl
