-- ===== src/Config/Validate.antt =====
-- `Validate` of src/config/limits.go: an invalid setting is replaced by its default and reported; those
-- of the overlay networks are reported only. The warnings of the languages are not in the list.
pub mod Warnings
pub mod Server
pub mod Mail
pub mod Headers
use shortner.Shared.{◌++◌}
use shortner.Library.{Library}
use shortner.Config.Overlay.{validate_tor, validate_i2p}
use shortner.Config.Settings.{Settings}
use shortner.Config.Validate.Warnings.{Checked}
use shortner.Config.Validate.Server.{
  validate_port, validate_limits, validate_compression, validate_rate_limit, validate_cache_type,
  validate_backup, validate_update, validate_api_version, validate_security,
}
use shortner.Config.Validate.Mail.{validate_notifications}
use shortner.Config.Validate.Headers.{validate_web}

unfoldable pub validate : Library → Settings → Checked Settings
validate lib s =
    let port = validate_port s.port in
    let limits = validate_limits lib s.limits in
    let compression = validate_compression s.compression in
    let rate = validate_rate_limit s.rate_limit in
    let cache = validate_cache_type s.cache_type in
    let backup = validate_backup s.backup in
    let update = validate_update s.update in
    let version = validate_api_version s.api_version in
    let security = validate_security lib s.security in
    let notifications = validate_notifications s.notifications in
    let web = validate_web s.web in
    (
      record {
        port = port.0;
        limits = limits.0;
        compression = compression.0;
        rate_limit = rate.0;
        cache_type = cache.0;
        backup = backup.0;
        update = update.0;
        api_version = version.0;
        security = security.0;
        notifications = notifications.0;
        web = web.0;
        tor = s.tor;
        i2p = s.i2p;
      },
      port.1
          ++ (limits.1
              ++ (compression.1
                  ++ (rate.1
                      ++ (cache.1
                          ++ (backup.1
                              ++ (update.1
                                  ++ (version.1
                                      ++ (security.1
                                          ++ (notifications.1
                                              ++ (web.1
                                                  ++ (validate_tor s.tor
                                                      ++ validate_i2p s.i2p))))))))))),
    )
