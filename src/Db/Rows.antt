-- ===== src/Db/Rows.antt =====
-- The rows of src/db (links, clicks, api_tokens), the structs that they are scanned into, and the
-- instants of package time.
--
-- An instant is a number of nanoseconds since a whole second before every instant that RFC 3339 can
-- write, so that it is a natural number; `unix` is `Unix()`, counted from there.
use shortner.Shared.{
  ℕ, ◌*◌, ◌/◌, Bool, true, false, Option, none, some, [], Bytes, ltb, eq_bytes, if◌then◌else◌, not,
}

abbrev pub Time : Type 0
Time = ℕ

abbrev pub nanoseconds : ℕ
nanoseconds = 1_000_000_000

abbrev pub unix : Time → ℕ
unix t = t / nanoseconds

-- `time.Unix(s, 0)`
abbrev pub from_unix : ℕ → Time
from_unix s = s * nanoseconds

-- `sql.NullInt64` as it is scanned: NULL leaves the pointer nil.
abbrev pub scan_time : Option ℕ → Option Time
scan_time none = none
scan_time (some s) = some (from_unix s)

-- A nil pointer is stored as NULL, any other as its whole seconds.
abbrev pub null_unix : Option Time → Option ℕ
null_unix none = none
null_unix (some t) = some (unix t)

-- `now.After(t)`, at a pointer that may be nil.
abbrev pub is_past : Time → Option Time → Bool
is_past now none = false
is_past now (some t) = ltb t now

pub record LinkRow : Type 0 where
  pub id : ℕ
  pub short_code : Bytes
  pub destination_url : Bytes
  pub created_at : ℕ
  pub expires_at : Option ℕ
  pub click_count : ℕ

pub record Link : Type 0 where
  pub id : ℕ
  pub short_code : Bytes
  pub destination_url : Bytes
  pub created_at : Time
  pub expires_at : Option Time
  pub click_count : ℕ

unfoldable pub scan_link : LinkRow → Link
scan_link r = record {
  id = r.id;
  short_code = r.short_code;
  destination_url = r.destination_url;
  created_at = from_unix r.created_at;
  expires_at = scan_time r.expires_at;
  click_count = r.click_count;
}

unfoldable pub is_expired : Time → Link → Bool
is_expired now l = is_past now l.expires_at

pub record ClickRow : Type 0 where
  pub id : ℕ
  pub link_id : ℕ
  pub timestamp : ℕ
  pub ip : Option Bytes
  pub user_agent : Option Bytes
  pub referrer : Option Bytes
  pub country : Option Bytes
  pub region : Option Bytes

pub record Click : Type 0 where
  pub id : ℕ
  pub link_id : ℕ
  pub timestamp : Time
  pub ip : Bytes
  pub user_agent : Bytes
  pub referrer : Bytes
  pub country : Bytes
  pub region : Bytes

-- `sql.NullString`: "" is stored as NULL, and NULL is read as "".
unfoldable pub nullable_string : Bytes → Option Bytes
nullable_string s = if not (eq_bytes s []) then some s else none

abbrev pub null_text : Option Bytes → Bytes
null_text none = []
null_text (some s) = s

unfoldable pub scan_click : ClickRow → Click
scan_click r = record {
  id = r.id;
  link_id = r.link_id;
  timestamp = from_unix r.timestamp;
  ip = null_text r.ip;
  user_agent = null_text r.user_agent;
  referrer = null_text r.referrer;
  country = null_text r.country;
  region = null_text r.region;
}

pub record TaskRow : Type 0 where
  pub name : Bytes
  pub enabled : Bool
  pub schedule : Bytes
  pub last_run : Option ℕ
  pub next_run : Option ℕ
  pub last_status : Option Bytes
  pub last_error : Option Bytes
  pub run_count : ℕ
  pub fail_count : ℕ

pub record HistoryRow : Type 0 where
  pub id : ℕ
  pub task_id : Bytes
  pub started_at : ℕ
  pub finished_at : Option ℕ
  pub status : Bytes
  pub error : Option Bytes
  pub duration_ms : ℕ

pub record SecretRow : Type 0 where
  pub value : Bytes
  pub created_at : ℕ
  pub rotated_at : Option ℕ

pub record TokenRow : Type 0 where
  pub id : ℕ
  pub token_hash : Bytes
  pub token_prefix : Bytes
  pub resource_type : Bytes
  pub resource_id : Bytes
  pub created_at : ℕ
  pub expires_at : Option ℕ
  pub last_used_at : Option ℕ
  pub revoked_at : Option ℕ
  pub revoked_reason : Option Bytes

pub record ApiToken : Type 0 where
  pub id : ℕ
  pub token_hash : Bytes
  pub token_prefix : Bytes
  pub resource_type : Bytes
  pub resource_id : Bytes
  pub created_at : Time
  pub expires_at : Option Time
  pub last_used_at : Option Time
  pub revoked_at : Option Time
  pub revoked_reason : Bytes

unfoldable pub scan_token : TokenRow → ApiToken
scan_token r = record {
  id = r.id;
  token_hash = r.token_hash;
  token_prefix = r.token_prefix;
  resource_type = r.resource_type;
  resource_id = r.resource_id;
  created_at = from_unix r.created_at;
  expires_at = scan_time r.expires_at;
  last_used_at = scan_time r.last_used_at;
  revoked_at = scan_time r.revoked_at;
  revoked_reason = null_text r.revoked_reason;
}

abbrev pub is_set {ℓ} : {A : Type ℓ} → Option A → Bool
is_set none = false
is_set (some a) = true

unfoldable pub is_active : Time → ApiToken → Bool
is_active now t =
    if is_set t.revoked_at then false else if is_past now t.expires_at then false else true
