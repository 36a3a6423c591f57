-- ===== src/Library.antt =====
-- What the modelled code calls in Go's standard library and does not implement: SHA-256 and its
-- HMAC in hexadecimal, net.ParseIP and IP.String, url.Parse, net.ParseCIDR, net.SplitHostPort,
-- net.LookupHost, path.Clean, base64's RawStdEncoding, time.Parse, Time.Format, time.ParseDuration.
-- The definitions that use them take this record as an argument; a theorem names what it assumes of them.
use shortner.Shared.{ℕ, ℤ, Bool, Option, List, Bytes}

-- An address as `To4` and `To16` see it.
pub data Ip : Type 0 where
  v4 : ℕ → ℕ → ℕ → ℕ → Ip
  -- The first six bytes, and the last ten.
  v6 : Bytes → Bytes → Ip

pub record Url : Type 0 where
  pub scheme : Bytes
  pub host : Bytes

-- A `*net.IPNet`, by its `String` and `Contains` and the `Size` of its mask.
pub record Network : Type 0 where
  pub text : Bytes
  pub covers : Ip → Bool
  pub ones : ℕ
  pub bits : ℕ

pub record Library : Type 0 where
  -- hex(sha256(raw))
  pub hash : Bytes → Bytes
  pub parse_ip : Bytes → Option Ip
  pub ip_string : Ip → Bytes
  pub parse_url : Bytes → Option Url
  -- `time.Parse(time.RFC3339, s)`, as an instant of Db/Rows.
  pub parse_rfc3339 : Bytes → Option ℕ
  pub parse_cidr : Bytes → Option Network
  -- `time.ParseDuration`, in nanoseconds.
  pub parse_duration : Bytes → Option ℤ
  -- `net.SplitHostPort`
  pub split_host_port : Bytes → Option (Bytes × Bytes)
  -- The addresses that `net.LookupHost` finds.
  pub lookup_host : Bytes → Option (List Bytes)
  -- ip.IsLoopback() || ip.IsUnspecified()
  pub is_local : Ip → Bool
  -- `path.Clean`
  pub path_clean : Bytes → Bytes
  -- `base64.RawStdEncoding.EncodeToString`
  pub base64 : Bytes → Bytes
  -- hex(hmac(sha256, key, text))
  pub mac : Bytes → Bytes → Bytes
  -- `t.UTC().Format(time.RFC3339)`; `none` is the zero time.
  pub utc_text : Option ℕ → Bytes
