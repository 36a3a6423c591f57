-- ===== src/Config/Overlay/Normalized.antt =====
-- What `Normalized` of src/config/overlay.go replaces is what the warnings name.
use shortner.Shared.{
  ℕ, ◌≤◌, ◌≡◌, refl, inl, inr, true, false, not, [], ◌++◌, ◌&&◌, Bytes, codes, arith, Bool-cases,
  if◌then◌else◌, eq_bytes, contains, has_prefix, trim_space, is_space, ℤ, pos, below, outside,
}
use shortner.Config.Validate.Warnings.{noted}
use shortner.Config.Overlay.{
  I2p, within_or, warn_if, normalized_i2p, validate_i2p, Tor, normalized_tor, validate_tor,
  is_blank, written_or,
}

within_or_inside :
    (lo hi d : ℕ) (n : ℤ) → lo ≤ d → d ≤ hi → outside lo hi (within_or lo hi n (pos d)) ≡ false
within_or_inside lo hi d n least most = elim (Bool-cases (outside lo hi n)) [
  | inl far ↦ rw far (ground (arith, least, most))
  | inr near ↦ rw near near
]

sam_inside :
    (s : Bytes)
    → contains (if not (contains s (codes ":")) then codes "127.0.0.1:7656" else s) (codes ":")
      ≡ true
unfolding contains has_prefix
sam_inside s = elim (Bool-cases (contains s (codes ":"))) [
  | inl there ↦ rw there there
  | inr absent ↦ rw absent refl
]

signature_inside : (n : ℤ) → below 0 (if below 0 n then pos 7 else n) ≡ false
signature_inside n = elim (Bool-cases (below 0 n)) [
  | inl low ↦ rw low refl
  | inr fits ↦ rw fits fits
]

written_or_written :
    (s default : Bytes) → is_blank default ≡ false → is_blank (written_or s default) ≡ false
written_or_written s default h = elim (Bool-cases (is_blank s)) [
  | inl blank ↦ rw blank h
  | inr written ↦ rw written written
]

-- No warning is left about the settings of I2P that are used.
pub validate_i2p-normalized_i2p : (c : I2p) → validate_i2p (normalized_i2p c) ≡ []
unfolding validate_i2p normalized_i2p
validate_i2p-normalized_i2p c = elim (Bool-cases c.enabled) [
  | inr off ↦ rw off refl
  | inl on ↦
      rw
        (
          on,
          sam_inside c.sam_address,
          within_or_inside 1 65535 80 c.virtual_port (omega arith) (omega arith),
          within_or_inside 0 7 3 c.inbound_length (omega arith) (omega arith),
          within_or_inside 0 7 3 c.outbound_length (omega arith) (omega arith),
          within_or_inside 1 16 5 c.inbound_quantity (omega arith) (omega arith),
          within_or_inside 1 16 5 c.outbound_quantity (omega arith) (omega arith),
          signature_inside c.signature_type,
          within_or_inside 30 600 300 c.bootstrap_timeout (omega arith) (omega arith),
        )
        refl
]

-- Of the settings of Tor that are used, only the logging and the contact may still be warned about.
pub validate_tor-normalized_tor :
    (c : Tor)
    → validate_tor (normalized_tor c)
      ≡ warn_if (not c.safe_logging) (noted (codes "server.tor.safe_logging"))
        ++ warn_if
            (not (eq_bytes c.contact_email []) && not (contains c.contact_email (codes "@")))
            (noted (codes "server.tor.contact_email"))
unfolding validate_tor normalized_tor trim_space is_space eq_bytes
validate_tor-normalized_tor c =
    rw
      (
        within_or_inside 1 128 32 c.max_circuits (omega arith) (omega arith),
        within_or_inside 10 300 60 c.circuit_timeout (omega arith) (omega arith),
        within_or_inside 30 600 180 c.bootstrap_timeout (omega arith) (omega arith),
        within_or_inside 10 500 100 c.max_streams_per_circuit (omega arith) (omega arith),
        within_or_inside 3 10 3 c.num_intro_points (omega arith) (omega arith),
        within_or_inside 1 65535 80 c.virtual_port (omega arith) (omega arith),
        written_or_written c.bandwidth_rate (codes "1 MB") refl,
        written_or_written c.bandwidth_burst (codes "2 MB") refl,
      )
      refl
