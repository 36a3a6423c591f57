-- ===== src/Config/Compliance.antt =====
-- The standards of `server.compliance` (src/config/config.go), and what they ask for.
use shortner.Shared.{
  ℕ, ◌≡◌, Bool, true, ◌&&◌, ◌||◌, List, [], ◌∷◌, Bytes, codes, arith, ltb, if◌then◌else◌,
}

pub record Compliance : Type 0 where
  pub enabled : Bool
  pub gdpr : Bool
  pub ccpa : Bool
  pub hipaa : Bool
  pub soc2 : Bool
  pub pci_dss : Bool
  pub iso27001 : Bool
  pub fed_ramp : Bool
  pub lgpd : Bool
  pub pipeda : Bool
  pub appi : Bool
  pub pdpa : Bool

abbrev pub names_of : List (Bytes × Bool) → List Bytes
names_of [] = []
names_of ((name, on) ∷ pairs) = let rest = names_of pairs in if on then name ∷ rest else rest

unfoldable pub enabled_standards : Compliance → List Bytes
enabled_standards c = names_of (
    (codes "gdpr", c.gdpr)
    ∷ (codes "ccpa", c.ccpa)
    ∷ (codes "hipaa", c.hipaa)
    ∷ (codes "soc2", c.soc2)
    ∷ (codes "pci_dss", c.pci_dss)
    ∷ (codes "iso27001", c.iso27001)
    ∷ (codes "fedramp", c.fed_ramp)
    ∷ (codes "lgpd", c.lgpd)
    ∷ (codes "pipeda", c.pipeda)
    ∷ (codes "appi", c.appi)
    ∷ (codes "pdpa", c.pdpa)
    ∷ [])

abbrev pub bump : Bool → ℕ → ℕ → ℕ
bump on n years = if on && ltb years n then n else years

unfoldable pub audit_retention_years : Compliance → ℕ
audit_retention_years c =
    bump c.iso27001 3
      (bump c.pci_dss 1 (bump c.soc2 1 (bump c.hipaa 6 (bump c.ccpa 1 (bump c.gdpr 1 0)))))

unfoldable pub requires_consent_banner : Compliance → Bool
requires_consent_banner c = c.gdpr || (c.ccpa || (c.lgpd || (c.pipeda || (c.appi || c.pdpa))))

unfoldable pub requires_dpo_contact : Compliance → Bool
requires_dpo_contact c = c.gdpr || c.lgpd

-- Where the officer's page is served, the banner is shown.
pub consent_of_dpo :
    (c : Compliance) → requires_dpo_contact c ≡ true → requires_consent_banner c ≡ true
unfolding requires_dpo_contact requires_consent_banner
consent_of_dpo c h = ground (arith, h)

-- HIPAA keeps the audit log longest.
pub audit_retention_years_hipaa : (c : Compliance) → c.hipaa ≡ true → audit_retention_years c ≡ 6
unfolding audit_retention_years
audit_retention_years_hipaa c h = ground (arith, h)
