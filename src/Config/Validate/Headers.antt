-- ===== src/Config/Validate/Headers.antt =====
-- `validateWebHeaders` of src/config/limits.go.
use shortner.Shared.{
  Bool, not, ◌&&◌, ◌||◌, List, [], ◌∷◌, ◌++◌, Bytes, codes, if◌then◌else◌, pos, below, outside,
}
use shortner.Config.Settings.{
  SampleRate, is_negative, exceeds_one, Hsts, Headers, Csp, Reports, Web, default_hsts,
  default_headers, default_csp, default_reports,
}
use shortner.Config.Validate.Warnings.{Checked, or_replace, any_of, validate_enum, replaced, noted}

abbrev pub bad_rate : SampleRate → Bool
bad_rate x = is_negative x || exceeds_one x

unfoldable pub validate_hsts : Hsts → Checked Hsts
validate_hsts h =
    let name = codes "web.hsts.max_age_seconds" in
    if below 0 h.max_age_seconds
    then (record h { max_age_seconds = default_hsts.max_age_seconds }, replaced name ∷ [])
    else (h, (if h.enabled && below 31_536_000 h.max_age_seconds then noted name ∷ [] else []))

abbrev pub coop_values : List Bytes
coop_values = codes "unsafe-none" ∷ codes "same-origin" ∷ codes "same-origin-allow-popups" ∷ []

abbrev pub coep_values : List Bytes
coep_values = codes "unsafe-none" ∷ codes "require-corp" ∷ codes "credentialless" ∷ []

abbrev pub corp_values : List Bytes
corp_values = codes "same-site" ∷ codes "same-origin" ∷ codes "cross-origin" ∷ []

abbrev pub cross_domain_values : List Bytes
cross_domain_values =
    codes "none" ∷ codes "master-only" ∷ codes "by-content-type" ∷ codes "all" ∷ []

abbrev pub prefetch_values : List Bytes
prefetch_values = [] ∷ codes "on" ∷ codes "off" ∷ []

unfoldable pub validate_headers : Headers → Checked Headers
unfolding validate_enum
validate_headers h =
    let d = default_headers in
    let coop = validate_enum (codes "web.headers.coop") h.coop d.coop coop_values in
    let coep = validate_enum (codes "web.headers.coep") h.coep d.coep coep_values in
    let corp = validate_enum (codes "web.headers.corp") h.corp d.corp corp_values in
    let cross =
      validate_enum (codes "web.headers.cross_domain_policies") h.cross_domain_policies
        d.cross_domain_policies cross_domain_values in
    let prefetch =
      or_replace (not (any_of h.dns_prefetch_control prefetch_values))
        (codes "web.headers.dns_prefetch_control") h.dns_prefetch_control [] in
    let rate =
      or_replace (bad_rate h.nel_sample_rate) (codes "web.headers.nel.sample_rate")
        h.nel_sample_rate d.nel_sample_rate in
    let age =
      or_replace (below 0 h.nel_max_age_seconds) (codes "web.headers.nel.max_age_seconds")
        h.nel_max_age_seconds d.nel_max_age_seconds in
    (
      record {
        coop = coop.0;
        coep = coep.0;
        corp = corp.0;
        cross_domain_policies = cross.0;
        dns_prefetch_control = prefetch.0;
        nel_max_age_seconds = age.0;
        nel_sample_rate = rate.0;
      },
      coop.1 ++ (coep.1 ++ (corp.1 ++ (cross.1 ++ (prefetch.1 ++ (rate.1 ++ age.1))))),
    )

abbrev pub csp_modes : List Bytes
csp_modes = codes "enforce" ∷ codes "report-only" ∷ []

unfoldable pub validate_csp : Csp → Checked Csp
unfolding validate_enum
validate_csp c =
    let mode = validate_enum (codes "web.csp.mode") c.mode default_csp.mode csp_modes in
    let rate =
      or_replace (bad_rate c.reports_sample_rate) (codes "web.csp.reports_sample_rate")
        c.reports_sample_rate default_csp.reports_sample_rate in
    (record { mode = mode.0; reports_sample_rate = rate.0 }, mode.1 ++ rate.1)

unfoldable pub validate_reports : Reports → Checked Reports
validate_reports r =
    let d = default_reports in
    let minute =
      or_replace (below 1 r.rate_limit_per_minute) (codes "web.reports.rate_limit_per_minute")
        r.rate_limit_per_minute d.rate_limit_per_minute in
    let burst =
      or_replace (below 1 r.rate_limit_per_ip_burst) (codes "web.reports.rate_limit_per_ip_burst")
        r.rate_limit_per_ip_burst d.rate_limit_per_ip_burst in
    (
      record { rate_limit_per_minute = minute.0; rate_limit_per_ip_burst = burst.0 },
      minute.1 ++ burst.1,
    )

abbrev locked : List Bytes → List (Bytes × Bytes)
locked [] = []
locked (name ∷ names) = (name, codes "()") ∷ locked names

abbrev scoped : List Bytes → List (Bytes × Bytes)
scoped [] = []
scoped (name ∷ names) = (name, codes "(self)") ∷ scoped names

unfoldable pub default_permissions_policy : List (Bytes × Bytes)
default_permissions_policy =
    locked (
      codes "accelerometer"
      ∷ codes "ambient-light-sensor"
      ∷ codes "battery"
      ∷ codes "camera"
      ∷ codes "display-capture"
      ∷ codes "geolocation"
      ∷ codes "gyroscope"
      ∷ codes "hid"
      ∷ codes "idle-detection"
      ∷ codes "magnetometer"
      ∷ codes "microphone"
      ∷ codes "midi"
      ∷ codes "screen-wake-lock"
      ∷ codes "serial"
      ∷ codes "usb"
      ∷ codes "xr-spatial-tracking"
      ∷ codes "attribution-reporting"
      ∷ codes "browsing-topics"
      ∷ codes "interest-cohort"
      ∷ [])
    ++ scoped (
        codes "autoplay"
        ∷ codes "encrypted-media"
        ∷ codes "fullscreen"
        ∷ codes "payment"
        ∷ codes "picture-in-picture"
        ∷ codes "publickey-credentials-get"
        ∷ codes "storage-access"
        ∷ codes "web-share"
        ∷ [])

abbrev pub or_policy : List (Bytes × Bytes) → List (Bytes × Bytes)
or_policy [] = default_permissions_policy
or_policy (entry ∷ policy) = entry ∷ policy

-- `validateWebHeaders`
unfoldable pub validate_web : Web → Checked Web
validate_web w =
    let hsts = validate_hsts w.hsts in
    let headers = validate_headers w.headers in
    let csp = validate_csp w.csp in
    let reports = validate_reports w.reports in
    let unsupported =
      or_replace (outside 404 404 w.unsupported_behavior)
        (codes "web.well_known.unsupported_behavior") w.unsupported_behavior (pos 404) in
    (
      record {
        hsts = hsts.0;
        headers = headers.0;
        csp = csp.0;
        reports = reports.0;
        permissions_policy = or_policy w.permissions_policy;
        unsupported_behavior = unsupported.0;
      },
      hsts.1 ++ (headers.1 ++ (csp.1 ++ (reports.1 ++ unsupported.1))),
    )
