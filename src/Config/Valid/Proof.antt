-- ===== src/Config/Valid/Proof.antt =====
-- `Validate` of src/config/limits.go as a whole.
use shortner.Shared.{
  ℕ, ◌≡◌, refl, inl, inr, false, not, List, [], ◌∷◌, Bytes, codes, arith, Bool-cases, eq_bytes, ℤ,
  pos, negsuc, below, outside,
}
use shortner.Library.{Library}
use shortner.Config.Settings.{SampleRate, Hsts, Headers, Web, Compression, Settings}
use shortner.Config.Validate.{validate}
use shortner.Config.Validate.Warnings.{or_replace, any_of}
use shortner.Config.Validate.Server.{or_types, validate_compression}
use shortner.Config.Validate.Headers.{
  bad_rate, validate_hsts, coop_values, coep_values, corp_values, cross_domain_values,
  prefetch_values, validate_headers, csp_modes, validate_csp, validate_reports, or_policy,
  default_permissions_policy, validate_web,
}
use shortner.Config.Valid.{
  AtLeast, Between, OneOf, NonEmpty, ValidRate, ValidHeaders, ValidWeb, Valid,
}
use shortner.Config.Valid.Blocks.{
  or_replace_lem, validate_enum-OneOf, outside-Between, below-AtLeast, validate_port-ValidPort,
  ReadsDefaults, limits-ValidLimits, security-ValidSecurity, rate_limit-ValidRateLimit,
  backup-ValidBackup, update-ValidUpdate, api_version-ValidVersion, cache_type-OneOf,
  notifications-ValidNotifications,
}

rate_lem :
    (name : Bytes) (x d : SampleRate) → ValidRate d → ValidRate (or_replace (bad_rate x) name x d).0
rate_lem name x d fallback =
    or_replace_lem ValidRate (bad_rate x) name x d (λ h. (ground (arith, h), ground (arith, h)))
      fallback

hsts_lem : (h : Hsts) → AtLeast 0 (validate_hsts h).0.max_age_seconds
unfolding validate_hsts
hsts_lem h = elim (Bool-cases (below 0 h.max_age_seconds)) [
  | inl low ↦ rw low (63_072_000, refl, omega arith)
  | inr fits ↦ rw fits (below-AtLeast 0 h.max_age_seconds fits)
]

headers-ValidHeaders : (h : Headers) → ValidHeaders (validate_headers h).0
unfolding validate_headers eq_bytes
headers-ValidHeaders h = record {
  coop = validate_enum-OneOf _ h.coop (codes "unsafe-none") coop_values refl;
  coep = validate_enum-OneOf _ h.coep (codes "unsafe-none") coep_values refl;
  corp = validate_enum-OneOf _ h.corp (codes "cross-origin") corp_values refl;
  cross = validate_enum-OneOf _ h.cross_domain_policies (codes "none") cross_domain_values refl;
  prefetch =
      or_replace_lem (OneOf prefetch_values) (not (any_of h.dns_prefetch_control prefetch_values)) _
        h.dns_prefetch_control [] (λ e. ground (arith, e)) refl;
  age =
      or_replace_lem (AtLeast 0) _ _ h.nel_max_age_seconds _ (below-AtLeast 0 h.nel_max_age_seconds)
        (2_592_000, refl, omega arith);
  rate = rate_lem _ h.nel_sample_rate _ (refl, refl);
}

policy_lem : (policy : List (Bytes × Bytes)) → NonEmpty (or_policy policy)
unfolding default_permissions_policy
policy_lem [] = (_, _, refl)
policy_lem (entry ∷ policy) = (entry, policy, refl)

exactly : (k : ℕ) (n : ℤ) → outside k k n ≡ false → n ≡ pos k
exactly k (pos n) h = ground (arith, h)
exactly k (negsuc n) h = absurd (ground (arith, h))

web-ValidWeb : (w : Web) → ValidWeb (validate_web w).0
unfolding validate_web validate_csp validate_reports eq_bytes
web-ValidWeb w = record {
  hsts = hsts_lem w.hsts;
  headers = headers-ValidHeaders w.headers;
  mode = validate_enum-OneOf _ w.csp.mode (codes "enforce") csp_modes refl;
  rate = rate_lem _ w.csp.reports_sample_rate _ (refl, refl);
  minute =
      or_replace_lem (AtLeast 1) _ _ w.reports.rate_limit_per_minute _
        (below-AtLeast 1 w.reports.rate_limit_per_minute) (60, refl, omega arith);
  burst =
      or_replace_lem (AtLeast 1) _ _ w.reports.rate_limit_per_ip_burst _
        (below-AtLeast 1 w.reports.rate_limit_per_ip_burst) (10, refl, omega arith);
  policy = policy_lem w.permissions_policy;
  unsupported =
      or_replace_lem (λ n. n ≡ pos 404) (outside 404 404 w.unsupported_behavior) _
        w.unsupported_behavior (pos 404) (exactly 404 w.unsupported_behavior) refl;
}

or_types_lem : (types : List Bytes) → NonEmpty (or_types types)
or_types_lem [] = (_, _, refl)
or_types_lem (t ∷ ts) = (t, ts, refl)

types_lem : (c : Compression) → NonEmpty (validate_compression c).0.types
unfolding validate_compression
types_lem c = or_types_lem c.types

level_lem : (c : Compression) → Between 1 9 (validate_compression c).0.level
unfolding validate_compression
level_lem c =
    or_replace_lem (Between 1 9) _ _ c.level _ (outside-Between 1 9 c.level)
      (5, refl, omega arith, omega arith)

pub validate-Valid :
    (lib : Library) (s : Settings) → ReadsDefaults lib → Valid lib (validate lib s).0
unfolding validate
validate-Valid lib s reads = record {
  port = validate_port-ValidPort s.port;
  limits = limits-ValidLimits lib reads s.limits;
  level = level_lem s.compression;
  types = types_lem s.compression;
  rate_limit = rate_limit-ValidRateLimit s.rate_limit;
  cache = cache_type-OneOf s.cache_type;
  backup = backup-ValidBackup s.backup;
  update = update-ValidUpdate s.update;
  version = api_version-ValidVersion s.api_version;
  security = security-ValidSecurity lib reads s.security;
  notifications = notifications-ValidNotifications s.notifications;
  web = web-ValidWeb s.web;
}
