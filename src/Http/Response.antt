-- ===== src/Http/Response.antt =====
-- What the link handlers answer: the structs of src/httpserver/links.go, and the body as a value.
use shortner.Shared.{ℕ, Option, List, ◌++◌, Bytes, codes}
use shortner.AppErr
use shortner.AppErr.{Code, map_code_to_http_status}
use shortner.Db.Exec.{DbError}
use shortner.Db.Exec
use shortner.Db.Rows.{Time, Link}
use shortner.Http.Request.{Request, build_url}

-- `LinkResponse`; the instants are formatted by package time.
pub record LinkResponse : Type 0 where
  pub short_code : Bytes
  pub short_url : Bytes
  pub destination_url : Bytes
  pub created_at : Time
  pub expires_at : Option Time
  pub click_count : ℕ

unfoldable pub to_link_response : Link → Bytes → LinkResponse
to_link_response l short_url = record {
  short_code = l.short_code;
  short_url = short_url;
  destination_url = l.destination_url;
  created_at = l.created_at;
  expires_at = l.expires_at;
  click_count = l.click_count;
}

pub record Pagination : Type 0 where
  pub page : ℕ
  pub limit : ℕ
  pub total : ℕ
  pub pages : ℕ

pub record DayCount : Type 0 where
  -- The UTC day, formatted by package time.
  pub day : ℕ
  pub count : ℕ

pub record ClickInfo : Type 0 where
  pub timestamp : Time
  pub ip : Bytes
  pub referrer : Bytes
  pub country : Bytes
  pub region : Bytes

pub record StatsResponse : Type 0 where
  pub short_code : Bytes
  pub total_clicks : ℕ
  pub referrers : List (Bytes × ℕ)
  pub time_series : List DayCount
  pub recent : List ClickInfo

-- The message of an error: that of its code, or one of the two that a handler supplies.
pub data Message : Type 0 where
  canonical slug_reserved slug_in_use : Message

pub data Response : Type 0 where
  failure : Code → Message → Response
  created_text : Bytes → Response
  created : LinkResponse → Bytes → Response
  link_text link_json : LinkResponse → Response
  list_text list_json : List LinkResponse → Pagination → Response
  updated : LinkResponse → Response
  deleted : Bytes → Response
  redirect : Bytes → Response
  stats_text stats_json : StatsResponse → Response

unfoldable pub status : Response → ℕ
unfolding map_code_to_http_status
status (failure code message) = map_code_to_http_status code
status (created_text url) = 201
status (created l token) = 201
status (redirect url) = 302
status _ = 200

abbrev pub send_error : Code → Response
send_error code = failure code canonical

unfoldable pub map_lookup_err : DbError → Response
map_lookup_err Exec.not_found = send_error AppErr.not_found
map_lookup_err _ = send_error AppErr.server_error

abbrev pub internal : DbError → Response
internal e = send_error AppErr.server_error

abbrev pub short_url_of : Request → Bytes → Bytes
short_url_of r code = build_url r (codes "/" ++ code)
