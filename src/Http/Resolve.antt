-- ===== src/Http/Resolve.antt =====
-- The handlers that read: info, list, resolve and stats (src/httpserver/links.go), with the bot list
-- of src/security/bot.go.
use shortner.Shared.{
  ℕ, ◌+◌, ◌-◌, ◌*◌, ◌/◌, ◌%◌, ◌^◌, Bool, true, false, ◌||◌, List, [], ◌∷◌, map, Bytes, codes, ltb,
  ◌==◌, if◌then◌else◌, take, eq_bytes, contains, to_lower, trim_space,
}
use shortner.Library.{Library}
use shortner.AppErr
use shortner.Db.Rows.{Link, is_expired, Click, nanoseconds}
use shortner.Db.Links.{get_link_by_short_code, list_links}
use shortner.Db.Clicks.{record_click, clicks_for_link}
use shortner.Http.Request.{Request, wants_text, parse_pagination}
use shortner.Http.Response.{
  LinkResponse, to_link_response, Pagination, DayCount, ClickInfo, StatsResponse, link_text,
  link_json, list_text, list_json, redirect, stats_text, stats_json, send_error, map_lookup_err,
  internal, short_url_of,
}
use shortner.Http.Links.{Handler, reply, call}

pub bot_tokens : List Bytes
bot_tokens =
    codes "bot"
    ∷ codes "crawl"
    ∷ codes "spider"
    ∷ codes "scraper"
    ∷ codes "archiver"
    ∷ codes "slurp"
    ∷ codes "fetcher"
    ∷ codes "monitor"
    ∷ codes "preview"
    ∷ codes "validator"
    ∷ codes "feedburner"
    ∷ codes "curl/"
    ∷ codes "wget/"
    ∷ codes "python-requests"
    ∷ codes "python-urllib"
    ∷ codes "go-http-client"
    ∷ codes "java/"
    ∷ codes "okhttp"
    ∷ codes "libwww-perl"
    ∷ codes "httpclient"
    ∷ codes "headlesschrome"
    ∷ codes "phantomjs"
    ∷ codes "puppeteer"
    ∷ codes "playwright"
    ∷ codes "lighthouse"
    ∷ codes "pingdom"
    ∷ codes "uptimerobot"
    ∷ codes "statuscake"
    ∷ codes "newrelicpinger"
    ∷ codes "datadog"
    ∷ codes "prometheus"
    ∷ codes "facebookexternalhit"
    ∷ codes "whatsapp"
    ∷ codes "telegrambot"
    ∷ codes "slackbot"
    ∷ codes "discordbot"
    ∷ codes "twitterbot"
    ∷ codes "linkedinbot"
    ∷ codes "embedly"
    ∷ codes "quora link preview"
    ∷ codes "redditbot"
    ∷ codes "applebot"
    ∷ codes "ia_archiver"
    ∷ codes "semrush"
    ∷ codes "ahrefs"
    ∷ codes "mj12bot"
    ∷ codes "dotbot"
    ∷ codes "petalbot"
    ∷ codes "bytespider"
    ∷ codes "gptbot"
    ∷ codes "claudebot"
    ∷ codes "ccbot"
    ∷ codes "perplexitybot"
    ∷ []

any_token : List Bytes → Bytes → Bool
any_token [] ua = false
any_token (t ∷ ts) ua = contains ua t || any_token ts ua

unfoldable pub is_bot_user_agent : Bytes → Bool
unfolding any_token bot_tokens
is_bot_user_agent ua =
    let trimmed = trim_space ua in
    if eq_bytes trimmed [] then true else any_token bot_tokens (map to_lower trimmed)

-- `(page - 1) * limit` on int64. A negative OFFSET is no offset for SQLite.
unfoldable pub page_offset : ℕ → ℕ → ℕ
page_offset page limit =
    let product = ((page - 1) * limit) % 2 ^ 64 in if ltb product (2 ^ 63) then product else 0

unfoldable pub page_count : ℕ → ℕ → ℕ
page_count total limit = let pages = (total + limit - 1) / limit in if ltb pages 1 then 1 else pages

-- One more of `key` in a `map[K]int`.
module _ {K : Type 0} (same : K → K → Bool) where
  abbrev pub bump : K → List (K × ℕ) → List (K × ℕ)
  bump key [] = (key, 1) ∷ []
  bump key ((k, n) ∷ m) = if same k key then (k, n + 1) ∷ m else (k, n) ∷ bump key m

  abbrev pub tally : List K → List (K × ℕ) → List (K × ℕ)
  tally [] m = m
  tally (k ∷ ks) m = tally ks (bump k m)

abbrev pub referrer_of : Click → Bytes
referrer_of c = if eq_bytes c.referrer [] then codes "(direct)" else c.referrer

-- The UTC day of an instant; `Format("2006-01-02")` writes it, in the order of the days.
abbrev pub day_of : Click → ℕ
day_of c = c.timestamp / (86_400 * nanoseconds)

-- `sort.Strings(days)`, with the count of each.
unfoldable pub insert_day : DayCount → List DayCount → List DayCount
insert_day d [] = d ∷ []
insert_day d (e ∷ ds) =
    let deeper = e ∷ insert_day d ds in if ltb d.day e.day then d ∷ e ∷ ds else deeper

unfoldable pub sort_days : List (ℕ × ℕ) → List DayCount
unfolding insert_day
sort_days [] = []
sort_days ((day, n) ∷ ds) = insert_day (record { day = day; count = n }) (sort_days ds)

abbrev pub stats_recent_limit : ℕ
stats_recent_limit = 50

abbrev pub click_info : Click → ClickInfo
click_info c = record {
  timestamp = c.timestamp;
  ip = c.ip;
  referrer = c.referrer;
  country = c.country;
  region = c.region;
}

unfoldable pub build_stats_response : Link → List Click → StatsResponse
unfolding sort_days
build_stats_response link clicks = record {
  short_code = link.short_code;
  total_clicks = link.click_count;
  referrers = tally eq_bytes (map referrer_of clicks) [];
  time_series = sort_days (tally ◌==◌ (map day_of clicks) []);
  recent = map click_info (take stats_recent_limit clicks);
}

abbrev pub stats_max_rows : ℕ
stats_max_rows = 1000

module _ (lib : Library) (r : Request) where
  unfoldable pub get_link_handler : Handler
  get_link_handler = call (get_link_by_short_code r.slug) map_lookup_err λ link.
      let resp = to_link_response link (short_url_of r link.short_code) in
      reply (if wants_text r then link_text resp else link_json resp)

  abbrev pub link_item : Link → LinkResponse
  link_item l = to_link_response l (short_url_of r l.short_code)

  unfoldable pub list_links_handler : Handler
  unfolding page_offset page_count
  list_links_handler =
      let (page, limit) = parse_pagination r in
      call (list_links limit (page_offset page limit)) internal λ (links, total).
        let items = map link_item links in
        let pagination : Pagination = record {
          page = page;
          limit = limit;
          total = total;
          pages = page_count total limit;
        } in
        reply (if wants_text r then list_text items pagination else list_json items pagination)

  abbrev pub visit : Link → Handler
  visit link s = (
    redirect link.destination_url,
    (record_click lib link.id r.client_ip (r.header (codes "User-Agent"))
        (r.header (codes "Referer")) r.country r.region s).1,
  )

  -- Gone when expired; a click that cannot be recorded does not stop the redirect.
  unfoldable pub resolve_handler : Handler
  unfolding is_bot_user_agent is_expired
  resolve_handler = call (get_link_by_short_code r.slug) map_lookup_err λ link s.
      if is_expired s.now link
      then (send_error AppErr.gone, s)
      else if is_bot_user_agent (r.header (codes "User-Agent"))
      then (redirect link.destination_url, s)
      else visit link s

  unfoldable pub stats_handler : Handler
  unfolding build_stats_response
  stats_handler = call (get_link_by_short_code r.slug) map_lookup_err λ link.
      call (clicks_for_link link.id stats_max_rows) internal λ clicks.
        let resp = build_stats_response link clicks in
        reply (if wants_text r then stats_text resp else stats_json resp)
