-- ===== src/Config/Settings.antt =====
-- The settings that `Validate` of src/config/limits.go reads, with their framework defaults
-- (src/config/config.go, security.go, notifications.go, overlay.go). Settings that it leaves alone are no
-- fields here, but for those that the text of a block shows with the others.
use shortner.Shared.{Bool, true, false, List, [], ◌∷◌, Bytes, codes, ℤ, pos}
use shortner.Config.Overlay.{Tor, I2p}

pub record Limits : Type 0 where
  pub max_body_size : Bytes
  pub read_timeout : Bytes
  pub write_timeout : Bytes
  pub idle_timeout : Bytes

abbrev pub default_limits : Limits
default_limits = record {
  max_body_size = codes "10MB";
  read_timeout = codes "30s";
  write_timeout = codes "30s";
  idle_timeout = codes "120s";
}

pub record Compression : Type 0 where
  pub enabled : Bool
  pub level : ℤ
  pub types : List Bytes

abbrev pub default_compression : Compression
default_compression = record {
  enabled = true;
  level = pos 5;
  types =
      codes "text/html"
      ∷ codes "text/css"
      ∷ codes "text/javascript"
      ∷ codes "application/json"
      ∷ codes "application/xml"
      ∷ [];
}

pub record RateLimitClass : Type 0 where
  pub requests : ℤ
  pub window : ℤ

pub record RateLimit : Type 0 where
  pub enabled : Bool
  pub read : RateLimitClass
  pub write : RateLimitClass
  pub health : RateLimitClass
  pub global_burst : ℤ

abbrev pub default_rate_limit : RateLimit
default_rate_limit = record {
  enabled = true;
  read = record { requests = pos 120; window = pos 60 };
  write = record { requests = pos 10; window = pos 60 };
  health = record { requests = pos 120; window = pos 60 };
  global_burst = pos 240;
}

pub record BackupRetention : Type 0 where
  pub max_backups : ℤ
  pub keep_weekly : ℤ
  pub keep_monthly : ℤ
  pub keep_yearly : ℤ
  pub max_total_size : Bytes

pub record Backup : Type 0 where
  pub retention : BackupRetention
  pub disk_threshold : ℤ

abbrev pub default_backup : Backup
default_backup = record {
  retention = record {
    max_backups = pos 1;
    keep_weekly = pos 0;
    keep_monthly = pos 0;
    keep_yearly = pos 0;
    max_total_size = codes "10%";
  };
  disk_threshold = pos 90;
}

-- `Update` as it is read; the task takes a valid one.
pub record Update : Type 0 where
  pub branch : Bytes
  pub auto_install : Bool
  pub defer_days : ℤ

abbrev pub default_update : Update
default_update = record { branch = codes "stable"; auto_install = false; defer_days = pos 0 }

-- An entry of the allowlist or of the blocklist, by its range and its description or reason.
pub record AddressEntry : Type 0 where
  pub cidr : Bytes
  pub text : Bytes

pub record RequestFlood : Type 0 where
  pub multiplier : ℤ
  pub block_duration : Bytes

pub record Security : Type 0 where
  pub allowlist : List AddressEntry
  pub blocked_ips : List AddressEntry
  pub request_flood : RequestFlood

abbrev pub default_security : Security
default_security = record {
  allowlist = [];
  blocked_ips = [];
  request_flood = record { multiplier = pos 10; block_duration = codes "1h" };
}

pub record Notifications : Type 0 where
  pub position : Bytes
  pub duration : ℤ
  pub smtp_host : Bytes
  pub smtp_port : ℤ
  pub smtp_tls : Bytes
  pub from_email : Bytes
  pub reply_to : Bytes

abbrev pub default_notifications : Notifications
default_notifications = record {
  position = codes "top-right";
  duration = pos 5;
  smtp_host = [];
  smtp_port = pos 587;
  smtp_tls = codes "auto";
  from_email = [];
  reply_to = [];
}

-- A float64 by where it lies: below 0, from 0 to 1, above 1, or, for NaN, nowhere.
pub data SampleRate : Type 0 where
  negative in_range above_one not_a_number : SampleRate

-- `x < 0`, and `x > 1` below: NaN compares with nothing.
abbrev pub is_negative : SampleRate → Bool
is_negative negative = true
is_negative _ = false

abbrev pub exceeds_one : SampleRate → Bool
exceeds_one above_one = true
exceeds_one _ = false

pub record Hsts : Type 0 where
  pub enabled : Bool
  pub max_age_seconds : ℤ

pub record Headers : Type 0 where
  pub coop : Bytes
  pub coep : Bytes
  pub corp : Bytes
  pub cross_domain_policies : Bytes
  pub dns_prefetch_control : Bytes
  pub nel_max_age_seconds : ℤ
  pub nel_sample_rate : SampleRate

pub record Csp : Type 0 where
  pub mode : Bytes
  pub reports_sample_rate : SampleRate

pub record Reports : Type 0 where
  pub rate_limit_per_minute : ℤ
  pub rate_limit_per_ip_burst : ℤ

pub record Web : Type 0 where
  pub hsts : Hsts
  pub headers : Headers
  pub csp : Csp
  pub reports : Reports
  pub permissions_policy : List (Bytes × Bytes)
  pub unsupported_behavior : ℤ

abbrev pub default_hsts : Hsts
default_hsts = record { enabled = true; max_age_seconds = pos 63_072_000 }

abbrev pub default_headers : Headers
default_headers = record {
  coop = codes "unsafe-none";
  coep = codes "unsafe-none";
  corp = codes "cross-origin";
  cross_domain_policies = codes "none";
  dns_prefetch_control = [];
  nel_max_age_seconds = pos 2_592_000;
  nel_sample_rate = in_range;
}

abbrev pub default_csp : Csp
default_csp = record { mode = codes "enforce"; reports_sample_rate = in_range }

abbrev pub default_reports : Reports
default_reports = record { rate_limit_per_minute = pos 60; rate_limit_per_ip_burst = pos 10 }

-- The part of the configuration that `Validate` changes.
pub record Settings : Type 0 where
  pub port : Bytes
  pub limits : Limits
  pub compression : Compression
  pub rate_limit : RateLimit
  pub cache_type : Bytes
  pub backup : Backup
  pub update : Update
  pub api_version : Bytes
  pub security : Security
  pub notifications : Notifications
  pub web : Web
  pub tor : Tor
  pub i2p : I2p
