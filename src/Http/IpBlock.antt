-- ===== src/Http/IpBlock.antt =====
-- src/httpserver/ipblock.go: the allowlist, the store of blocked addresses, and flood detection.
-- Instants and durations are nanoseconds. A map is an association list without double keys, or, where
-- the code only counts in it, a function.
pub mod Release
pub mod Flood
pub mod Samples
use shortner.Shared.{
  ℤ, pos, negsuc, ℕ, ◌+◌, ◌*◌, Bool, true, false, not, ◌||◌, Option, none, some, List, [], ◌∷◌,
  ◌++◌, map, Bytes, codes, ltb, leb, ◌==◌, if◌then◌else◌, length, eq_bytes, get, put, delete,
  retain, trim_space, is_some,
}
use shortner.Config.{parse_duration}
use shortner.Library.{Library, Ip, Network}

pub data BlockType : Type 0 where
  temporary permanent : BlockType

pub record IpBlock : Type 0 where
  pub ip : Bytes
  pub cidr : Bytes
  pub kind : BlockType
  pub reason : Bytes
  pub blocked_at : ℕ
  pub expires_at : Option ℕ
  pub offense_count : ℕ
  pub auto_blocked : Bool

-- The entries of the audit log.
pub data AuditEvent : Type 0 where
  ip_blocked : Bytes → Bytes → ℕ → ℕ → AuditEvent
  ip_unblocked : Bytes → Bytes → AuditEvent

-- `AllowlistLookup`; `nil` has no network.
abbrev pub Allowlist : Type 0
Allowlist = List Network

unfoldable pub new_allowlist_lookup : Library → List Bytes → Allowlist
new_allowlist_lookup lib [] = []
new_allowlist_lookup lib (cidr ∷ entries) =
    let rest = new_allowlist_lookup lib entries in
    elim (lib.parse_cidr cidr) [ none ↦ rest | some n ↦ n ∷ rest ]

-- The first network that covers the address.
abbrev pub covering : Ip → List Network → Option Network
covering ip [] = none
covering ip (n ∷ ns) = let rest = covering ip ns in if n.covers ip then some n else rest

abbrev pub covering_text : Option Ip → List Network → Option Network
covering_text none ns = none
covering_text (some ip) ns = covering ip ns

unfoldable pub allowlist_contains : Library → Allowlist → Bytes → Bool
allowlist_contains lib networks ip = is_some (covering_text (lib.parse_ip ip) networks)

pub record BlockStore : Type 0 where
  pub permanent : List Network
  pub reasons : List (Bytes × Bytes)
  pub temporary : List (Bytes × IpBlock)
  pub audit : List AuditEvent

abbrev pub empty_store : BlockStore
empty_store = record { permanent = []; reasons = []; temporary = []; audit = [] }

abbrev add_permanent : Option Network → Bytes → BlockStore → BlockStore
add_permanent none reason s = s
add_permanent (some n) reason s = record s {
  permanent = s.permanent ++ n ∷ [];
  reasons = put n.text reason s.reasons;
}

abbrev add_entries : Library → List (Bytes × Bytes) → BlockStore → BlockStore
add_entries lib [] s = s
add_entries lib ((cidr, reason) ∷ entries) s =
    add_entries lib entries (add_permanent (lib.parse_cidr cidr) reason s)

-- The entries are pairs of a range and a reason.
unfoldable pub new_block_store : Library → List (Bytes × Bytes) → BlockStore
new_block_store lib entries = add_entries lib entries empty_store

-- block.ExpiresAt == nil || block.ExpiresAt.After(now)
abbrev pub is_live : ℕ → IpBlock → Bool
is_live now b = elim b.expires_at [ none ↦ true | some e ↦ ltb now e ]

abbrev pub or_empty : Option Bytes → Bytes
or_empty none = []
or_empty (some s) = s

abbrev permanent_block : BlockStore → Bytes → ℕ → Option Network → Option IpBlock
permanent_block s ip now none = none
permanent_block s ip now (some n) = some (record {
  ip = ip;
  cidr = n.text;
  kind = permanent;
  reason = or_empty (get n.text s.reasons);
  blocked_at = now;
  expires_at = none;
  offense_count = 0;
  auto_blocked = false;
})

abbrev or_permanent : ℕ → Option IpBlock → Option IpBlock → Option IpBlock
or_permanent now none other = other
or_permanent now (some b) other = if is_live now b then some b else other

unfoldable pub blocked : Library → Bytes → ℕ → BlockStore → Option IpBlock
blocked lib ip now s =
    or_permanent now (get ip s.temporary)
      (permanent_block s ip now (covering_text (lib.parse_ip ip) s.permanent))

abbrev offenses : Option IpBlock → ℕ
offenses none = 0
offenses (some b) = b.offense_count

unfoldable pub block_temporarily : Bytes → Bytes → ℕ → ℕ → BlockStore → BlockStore
block_temporarily ip reason duration now s =
    let count = offenses (get ip s.temporary) + 1 in
    let block : IpBlock = record {
      ip = ip;
      cidr = [];
      kind = temporary;
      reason = reason;
      blocked_at = now;
      expires_at = some (now + duration);
      offense_count = count;
      auto_blocked = true;
    } in
    record s {
      temporary = put ip block s.temporary;
      audit = s.audit ++ ip_blocked ip reason duration count ∷ [];
    }

unfoldable pub unblock : Bytes → Bytes → BlockStore → Bool × BlockStore
unblock ip reason s =
    if is_some (get ip s.temporary)
    then (
      true,
      record s {
        temporary = delete ip s.temporary;
        audit = s.audit ++ ip_unblocked ip reason ∷ [];
      },
    )
    else (false, s)

abbrev keys_of : List (Bytes × IpBlock) → List Bytes
keys_of [] = []
keys_of ((k, b) ∷ m) = k ∷ keys_of m

-- The blocks that `keep` refuses are dropped, with an entry of the audit log for each.
abbrev release : (Bytes → IpBlock → Bool) → Bytes → BlockStore → ℕ × BlockStore
release keep reason s =
    let released = keys_of (retain (λ k b. not (keep k b)) s.temporary) in
    (
      length released,
      record s {
        temporary = retain keep s.temporary;
        audit = s.audit ++ map (λ ip. ip_unblocked ip reason) released;
      },
    )

unfoldable pub release_expired : ℕ → BlockStore → ℕ × BlockStore
release_expired now = release (λ ip b. is_live now b) (codes "block duration expired")

unfoldable pub release_allowlisted : Library → Allowlist → BlockStore → ℕ × BlockStore
unfolding allowlist_contains
release_allowlisted lib allow =
    release (λ ip b. not (allowlist_contains lib allow ip)) (codes "ip added to allowlist")

-- `AbuseDetection` of the configuration, less `AutoAlert`, which nothing reads.
pub record AbuseDetection : Type 0 where
  pub enabled : Bool
  pub multiplier : ℕ
  pub block_duration : Bytes
  pub auto_block_ip : Bool

pub record AbuseDetector : Type 0 where
  pub auto_block_ip : Bool
  pub threshold : ℕ
  pub duration : ℕ
  pub window : ℕ
  pub counts : Bytes → ℕ
  pub reset_at : ℕ

abbrev pub minute : ℕ
minute = 60 * 1_000_000_000

abbrev pub hour : ℕ
hour = 60 * minute

-- A negative duration, whose blocks are over when they begin, counts as none.
abbrev span : ℤ → ℕ
span (pos n) = n
span (negsuc n) = 0

unfoldable pub new_abuse_detector : Library → AbuseDetection → ℕ → ℕ → Option AbuseDetector
new_abuse_detector lib cfg per_minute_limit now =
    if not cfg.enabled || per_minute_limit == 0
    then none
    else some (record {
      auto_block_ip = cfg.auto_block_ip;
      threshold = per_minute_limit * cfg.multiplier;
      duration = span (parse_duration lib cfg.block_duration (pos hour)).0;
      window = minute;
      counts = λ ip. 0;
      reset_at = now + minute;
    })

abbrev pub bump : Bytes → (Bytes → ℕ) → Bytes → ℕ
bump ip m other = if eq_bytes ip other then m other + 1 else m other

abbrev pub reset : ℕ → AbuseDetector → AbuseDetector
reset now a =
    if ltb a.reset_at now then record a { counts = λ ip. 0; reset_at = now + a.window } else a

-- `Record` on a detector that is not nil.
unfoldable pub record_request : Bytes → ℕ → AbuseDetector → Bool × AbuseDetector
record_request ip now a =
    let b = reset now a in
    let counts = bump ip b.counts in
    (
      if not (counts ip == b.threshold) then false else b.auto_block_ip,
      record b { counts = counts },
    )

-- What the two middlewares share; the notification of a block is not part of it.
pub record Guard : Type 0 where
  pub allowlist : Allowlist
  pub blocks : Option BlockStore
  pub abuse : Option AbuseDetector

abbrev pub flooded : Bytes → ℕ → ℕ → BlockStore → BlockStore
flooded ip duration now s = block_temporarily ip (codes "request flood") duration now s

-- The flood test of `blocklistMiddleware`; `true` calls the next handler.
abbrev pub count_flood : Bytes → ℕ → BlockStore → Option AbuseDetector → Guard → Bool × Guard
count_flood ip now s none g = (true, g)
count_flood ip now s (some a) g =
    let q = record_request ip now a in
    if q.0
    then (false, record g { blocks = some (flooded ip a.duration now s); abuse = some q.1 })
    else (true, record g { abuse = some q.1 })

abbrev pub screen_blocks : Library → Bytes → ℕ → Option BlockStore → Guard → Bool × Guard
screen_blocks lib ip now none g = (true, g)
screen_blocks lib ip now (some s) g =
    if is_some (blocked lib ip now s) then (false, g) else count_flood ip now s g.abuse g

-- `allowlistMiddleware` and `blocklistMiddleware`: `true` calls the next handler, `false` answers 403.
unfoldable pub screen : Library → Bytes → ℕ → Guard → Bool × Guard
screen lib ip now g =
    if allowlist_contains lib g.allowlist ip then (true, g) else screen_blocks lib ip now g.blocks g
