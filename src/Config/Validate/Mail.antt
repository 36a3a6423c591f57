-- ===== src/Config/Validate/Mail.antt =====
-- `validateNotifications` of src/config/notifications.go.
use shortner.Shared.{
  ℕ, suc, ◌+◌, Bool, false, not, ◌&&◌, ◌||◌, Option, none, some, List, [], ◌∷◌, ◌++◌, Bytes, codes,
  ltb, ◌==◌, if◌then◌else◌, length, drop, eq_bytes, trim_space, is_some, below, outside,
}
use shortner.Config.Settings.{Notifications, default_notifications}
use shortner.Config.Validate.Warnings.{Checked, or_replace, validate_enum, contains_any}

-- strings.Index of a byte.
abbrev pub index_from : ℕ → ℕ → Bytes → Option ℕ
index_from i c [] = none
index_from i c (b ∷ s) = let rest = index_from (suc i) c s in if b == c then some i else rest

abbrev pub unaddressed : ℕ → Bool
unaddressed c =
    c == 32
    || (c == 9
        || (c == 13
            || (c == 10 || (c == b'<' || (c == b'>' || (c == b',' || (c == b';' || c == b'"')))))))

-- The domain's first dot is neither its first byte nor its last.
abbrev pub dotted : Bytes → Bool
dotted domain = elim (index_from 0 b'.' domain) [
  | none ↦ false
  | some dot ↦ ltb 0 dot && ltb (dot + 1) (length domain)
]

-- An @ that is neither the first byte nor the last, and the only one.
unfoldable pub looks_like_email : Bytes → Bool
looks_like_email addr = elim (index_from 0 b'@' addr) [
  | none ↦ false
  | some at ↦
      let domain = drop (at + 1) addr in
      not (contains_any unaddressed addr)
      && (ltb 0 at
          && (not (is_some (index_from 0 b'@' domain))
              && (ltb (at + 1) (length addr) && dotted domain)))
]

abbrev pub positions : List Bytes
positions = codes "top-right" ∷ codes "top-left" ∷ codes "bottom-right" ∷ codes "bottom-left" ∷ []

abbrev pub smtp_tls_modes : List Bytes
smtp_tls_modes = codes "auto" ∷ codes "starttls" ∷ codes "tls" ∷ codes "none" ∷ []

-- An address that is none is dropped.
abbrev pub validate_address : Bytes → Bytes → Checked Bytes
validate_address name address =
    let a = trim_space address in
    or_replace (not (eq_bytes a []) && not (looks_like_email a)) name a []

unfoldable pub validate_notifications : Notifications → Checked Notifications
unfolding validate_enum
validate_notifications n =
    let d = default_notifications in
    let position =
      validate_enum (codes "server.notifications.webui.position") n.position d.position positions in
    let duration =
      or_replace (below 0 n.duration) (codes "server.notifications.webui.duration") n.duration
        d.duration in
    let tls =
      validate_enum (codes "server.notifications.email.smtp.tls") n.smtp_tls d.smtp_tls
        smtp_tls_modes in
    let port =
      or_replace (outside 1 65535 n.smtp_port) (codes "server.notifications.email.smtp.port")
        n.smtp_port d.smtp_port in
    let from = validate_address (codes "server.notifications.email.from.email") n.from_email in
    let reply = validate_address (codes "server.notifications.email.reply_to") n.reply_to in
    (
      record {
        position = position.0;
        duration = duration.0;
        smtp_host = trim_space n.smtp_host;
        smtp_port = port.0;
        smtp_tls = tls.0;
        from_email = from.0;
        reply_to = reply.0;
      },
      position.1 ++ (duration.1 ++ (tls.1 ++ (port.1 ++ (from.1 ++ reply.1)))),
    )
