-- ===== src/Config/Overlay.antt =====
-- src/config/overlay.go: the settings of the Tor hidden service and of the I2P eepsite, the warnings about
-- them, and the values that are used in the place of invalid ones.
pub mod Normalized
use shortner.Shared.{
  ℕ, Bool, true, false, not, ◌&&◌, ◌||◌, List, [], ◌∷◌, ◌++◌, Bytes, codes, if◌then◌else◌, eq_bytes,
  contains, trim_space, ℤ, pos, below, outside,
}
use shortner.Config.Validate.Warnings.{Warning, replaced, noted}

pub record Tor : Type 0 where
  pub binary : Bytes
  pub use_network : Bool
  pub max_circuits : ℤ
  pub circuit_timeout : ℤ
  pub bootstrap_timeout : ℤ
  pub safe_logging : Bool
  pub max_streams_per_circuit : ℤ
  pub close_circuit_on_stream_limit : Bool
  pub bandwidth_rate : Bytes
  pub bandwidth_burst : Bytes
  pub max_monthly_bandwidth : Bytes
  pub num_intro_points : ℤ
  pub virtual_port : ℤ
  pub contact_email : Bytes

abbrev pub default_tor : Tor
default_tor = record {
  binary = [];
  use_network = false;
  max_circuits = pos 32;
  circuit_timeout = pos 60;
  bootstrap_timeout = pos 180;
  safe_logging = true;
  max_streams_per_circuit = pos 100;
  close_circuit_on_stream_limit = true;
  bandwidth_rate = codes "1 MB";
  bandwidth_burst = codes "2 MB";
  max_monthly_bandwidth = codes "100 GB";
  num_intro_points = pos 3;
  virtual_port = pos 80;
  contact_email = [];
}

abbrev pub is_blank : Bytes → Bool
is_blank s = eq_bytes (trim_space s) []

-- The integer, or the default outside the range.
abbrev pub within_or : ℕ → ℕ → ℤ → ℤ → ℤ
within_or lo hi n default = if outside lo hi n then default else n

abbrev pub written_or : Bytes → Bytes → Bytes
written_or s default = if is_blank s then default else s

unfoldable pub normalized_tor : Tor → Tor
normalized_tor c =
    let d = default_tor in
    record c {
      max_circuits = within_or 1 128 c.max_circuits d.max_circuits;
      circuit_timeout = within_or 10 300 c.circuit_timeout d.circuit_timeout;
      bootstrap_timeout = within_or 30 600 c.bootstrap_timeout d.bootstrap_timeout;
      max_streams_per_circuit =
          within_or 10 500 c.max_streams_per_circuit d.max_streams_per_circuit;
      num_intro_points = within_or 3 10 c.num_intro_points d.num_intro_points;
      virtual_port = within_or 1 65535 c.virtual_port d.virtual_port;
      bandwidth_rate = written_or c.bandwidth_rate d.bandwidth_rate;
      bandwidth_burst = written_or c.bandwidth_burst d.bandwidth_burst;
    }

abbrev pub warn_if : Bool → Warning → List Warning
warn_if b w = if b then w ∷ [] else []

unfoldable pub validate_tor : Tor → List Warning
validate_tor c =
    warn_if (outside 1 128 c.max_circuits) (replaced (codes "server.tor.max_circuits"))
    ++ (warn_if (outside 10 300 c.circuit_timeout) (replaced (codes "server.tor.circuit_timeout"))
        ++ (warn_if (outside 30 600 c.bootstrap_timeout)
              (replaced (codes "server.tor.bootstrap_timeout"))
            ++ (warn_if (outside 10 500 c.max_streams_per_circuit)
                  (replaced (codes "server.tor.max_streams_per_circuit"))
                ++ (warn_if (outside 3 10 c.num_intro_points)
                      (replaced (codes "server.tor.num_intro_points"))
                    ++ (warn_if (outside 1 65535 c.virtual_port)
                          (replaced (codes "server.tor.virtual_port"))
                        ++ (warn_if (not c.safe_logging) (noted (codes "server.tor.safe_logging"))
                            ++ (warn_if (is_blank c.bandwidth_rate)
                                  (replaced (codes "server.tor.bandwidth_rate"))
                                ++ (warn_if (is_blank c.bandwidth_burst)
                                      (replaced (codes "server.tor.bandwidth_burst"))
                                    ++ warn_if
                                        (not (eq_bytes c.contact_email [])
                                          && not (contains c.contact_email (codes "@")))
                                        (noted (codes "server.tor.contact_email"))))))))))

pub record I2p : Type 0 where
  pub enabled : Bool
  pub binary : Bytes
  pub sam_address : Bytes
  pub virtual_port : ℤ
  pub inbound_length : ℤ
  pub outbound_length : ℤ
  pub inbound_quantity : ℤ
  pub outbound_quantity : ℤ
  pub signature_type : ℤ
  pub bootstrap_timeout : ℤ

abbrev pub default_i2p : I2p
default_i2p = record {
  enabled = false;
  binary = [];
  sam_address = codes "127.0.0.1:7656";
  virtual_port = pos 80;
  inbound_length = pos 3;
  outbound_length = pos 3;
  inbound_quantity = pos 5;
  outbound_quantity = pos 5;
  signature_type = pos 7;
  bootstrap_timeout = pos 300;
}

unfoldable pub normalized_i2p : I2p → I2p
normalized_i2p c =
    let d = default_i2p in
    record c {
      sam_address =
          if not (contains c.sam_address (codes ":")) then d.sam_address else c.sam_address;
      virtual_port = within_or 1 65535 c.virtual_port d.virtual_port;
      inbound_length = within_or 0 7 c.inbound_length d.inbound_length;
      outbound_length = within_or 0 7 c.outbound_length d.outbound_length;
      inbound_quantity = within_or 1 16 c.inbound_quantity d.inbound_quantity;
      outbound_quantity = within_or 1 16 c.outbound_quantity d.outbound_quantity;
      signature_type = if below 0 c.signature_type then d.signature_type else c.signature_type;
      bootstrap_timeout = within_or 30 600 c.bootstrap_timeout d.bootstrap_timeout;
    }

abbrev pub i2p_warnings : I2p → List Warning
i2p_warnings c =
    warn_if (not (contains c.sam_address (codes ":"))) (replaced (codes "server.i2p.sam_address"))
    ++ (warn_if (outside 1 65535 c.virtual_port) (replaced (codes "server.i2p.virtual_port"))
        ++ (warn_if (outside 0 7 c.inbound_length) (replaced (codes "server.i2p.inbound_length"))
            ++ (warn_if (outside 0 7 c.outbound_length)
                  (replaced (codes "server.i2p.outbound_length"))
                ++ (warn_if (outside 1 16 c.inbound_quantity)
                      (replaced (codes "server.i2p.inbound_quantity"))
                    ++ (warn_if (outside 1 16 c.outbound_quantity)
                          (replaced (codes "server.i2p.outbound_quantity"))
                        ++ (warn_if (below 0 c.signature_type)
                              (replaced (codes "server.i2p.signature_type"))
                            ++ warn_if (outside 30 600 c.bootstrap_timeout)
                                (replaced (codes "server.i2p.bootstrap_timeout"))))))))

unfoldable pub validate_i2p : I2p → List Warning
validate_i2p c = if not c.enabled then [] else i2p_warnings c
