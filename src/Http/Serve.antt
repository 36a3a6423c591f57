-- ===== src/Http/Serve.antt =====
-- Sequences of requests: every one keeps the invariant of the tables.
use shortner.Shared.{Option, List, [], ◌∷◌, Bytes}
use shortner.Library.{Library}
use shortner.Db.Rows.{Time}
use shortner.Db.Exec.{Db, Fault}
use shortner.Db.Consistent.{Consistent}
use shortner.Http.Request.{Request}
use shortner.Http.Links.{Handler, CreateLinkRequest, create_link_handler}
use shortner.Http.Manage.{UpdateLinkRequest, update_link_handler, delete_link_handler}
use shortner.Http.Resolve.{get_link_handler, list_links_handler, resolve_handler, stats_handler}
use shortner.Http.Invariant.{
  KeepsH, create_link_handler-Consistent, update_link_handler-Consistent,
  delete_link_handler-Consistent, resolve_handler-Consistent, get_link_handler-Keeps,
  list_links_handler-Keeps, stats_handler-Keeps,
}

-- A request to the link API, with its decoded body. The form of the home page (frontend.go), which also
-- creates links, is not among the requests.
pub data Call : Type 0 where
  create : Option CreateLinkRequest → Call
  update : Option UpdateLinkRequest → Call
  delete resolve info listing stats : Call

-- The route table of `registerLinkAPIRoutes`, and the resolve route.
pub serve_one : Library → Bytes → Request → Call → Handler
serve_one lib op r (create body) = create_link_handler lib r body
serve_one lib op r (update body) = update_link_handler lib op r body
serve_one lib op r delete = delete_link_handler lib op r
serve_one lib op r resolve = resolve_handler lib r
serve_one lib op r info = get_link_handler lib r
serve_one lib op r listing = list_links_handler lib r
serve_one lib op r stats = stats_handler lib r

-- Between two requests the environment moves the clock, and chooses the faults and the random bytes.
pub record Event : Type 0 where
  pub request : Request
  pub wanted : Call
  pub now : Time
  pub schedule : List (Option Fault)
  pub random : Bytes

abbrev pub arrive : Event → Db → Db
arrive e s = record s { schedule = e.schedule; now = e.now; random = e.random }

pub serve : Library → Bytes → List Event → Db → Db
serve lib op [] s = s
serve lib op (e ∷ es) s = serve lib op es (serve_one lib op e.request e.wanted (arrive e s)).1

serve_one-Consistent :
    (lib : Library) (op : Bytes) (r : Request) (c : Call) → KeepsH Consistent (serve_one lib op r c)
unfolding serve_one
serve_one-Consistent lib op r (create body) = create_link_handler-Consistent lib r body
serve_one-Consistent lib op r (update body) = update_link_handler-Consistent lib op r body
serve_one-Consistent lib op r delete = delete_link_handler-Consistent lib op r
serve_one-Consistent lib op r resolve = resolve_handler-Consistent lib r
serve_one-Consistent lib op r info = get_link_handler-Keeps lib r Consistent
serve_one-Consistent lib op r listing = list_links_handler-Keeps lib r Consistent
serve_one-Consistent lib op r stats = stats_handler-Keeps lib r Consistent

-- From consistent tables, after any requests to the link API and the resolve route with any faults, clocks and random bytes: short codes
-- are distinct, every click belongs to a link that exists, and each link's click counter is the
-- number of its clicks in the table.
pub serve-Consistent :
    (lib : Library) (op : Bytes) (es : List Event) (s : Db)
    → Consistent s.tables
    → Consistent (serve lib op es s).tables
unfolding serve
serve-Consistent lib op [] s h = h
serve-Consistent lib op (e ∷ es) s h =
    serve-Consistent lib op es _ (serve_one-Consistent lib op e.request e.wanted (arrive e s) h)
