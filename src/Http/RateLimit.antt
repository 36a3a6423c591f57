-- ===== src/Http/RateLimit.antt =====
-- src/httpserver/ratelimit.go: fixed windows of requests, one per class and IP and one per IP for
-- all classes. Instants are nanoseconds of a clock that never runs backwards; the instant 0 is the
-- zero time, at which no sweep has been done. A map is a function to the window, if any.
pub mod Sweep
pub mod Step
pub mod Bound
pub mod Samples
use shortner.Shared.{
  has_suffix, ℕ, ◌+◌, ◌-◌, ◌*◌, ◌/◌, ◌%◌, ◌^◌, Bool, true, false, not, ◌&&◌, ◌||◌, Option, none,
  some, Bytes, codes, ltb, leb, if◌then◌else◌, length, eq_bytes,
}

-- `rlClass`
pub data Class : Type 0 where
  read write health : Class

abbrev pub same_class : Class → Class → Bool
same_class read read = true
same_class write write = true
same_class health health = true
same_class _ _ = false

-- `window`
pub record Window : Type 0 where
  pub count : ℕ
  pub window_start : ℕ

-- `config.RateLimitClass`; `window` is in seconds.
pub record ClassLimit : Type 0 where
  pub requests : ℕ
  pub window : ℕ

pub record Config : Type 0 where
  pub enabled : Bool
  pub read_limit : ClassLimit
  pub write_limit : ClassLimit
  pub health_limit : ClassLimit
  pub global_burst : ℕ

abbrev pub Windows : Type 0
Windows = Bytes → Option Window

pub record Limiter : Type 0 where
  pub by_class : Class → Windows
  pub global : Windows
  pub last_sweep : ℕ

abbrev pub new_limiter : Limiter
new_limiter = record { by_class = λ c ip. none; global = λ ip. none; last_sweep = 0 }

abbrev pub second : ℕ
second = 1_000_000_000

abbrev pub minute : ℕ
minute = 60 * second

abbrev pub rl_sweep_interval : ℕ
rl_sweep_interval = minute

unfoldable pub class_limit : Config → Class → ClassLimit
class_limit cfg write = cfg.write_limit
class_limit cfg health = cfg.health_limit
class_limit cfg read = cfg.read_limit

-- The int64 that the product wraps around to; 0 stands for a negative one, before which no time has
-- passed either.
unfoldable pub span_of : Config → Class → ℕ
unfolding class_limit
span_of cfg c =
    let product = ((class_limit cfg c).window * second) % 2 ^ 64 in
    if ltb product (2 ^ 63) then product else 0

-- now.Sub(w.windowStart) >= span
abbrev pub elapsed : ℕ → ℕ → Window → Bool
elapsed now span w = leb span (now - w.window_start)

abbrev pub put : Bytes → Window → Windows → Windows
put ip w m other = if eq_bytes ip other then some w else m other

abbrev pub put_class : Class → Bytes → Window → (Class → Windows) → Class → Windows
put_class c ip w m d = if same_class c d then put ip w (m d) else m d

-- A window whose period has passed is dropped.
abbrev pub unexpired : ℕ → ℕ → Option Window → Option Window
unexpired now span none = none
unexpired now span (some w) = if elapsed now span w then none else some w

unfoldable pub sweep_locked : Config → ℕ → Limiter → Limiter
unfolding class_limit
sweep_locked cfg now rl = if ltb (now - rl.last_sweep) rl_sweep_interval then rl else record {
  by_class = λ c ip. unexpired now (span_of cfg c) (rl.by_class c ip);
  global = λ ip. unexpired now minute (rl.global ip);
  last_sweep = now;
}

-- The window to count in: a new one where there is none, or where its period has passed.
abbrev pub current : ℕ → ℕ → Option Window → Window
current now span none = record { count = 0; window_start = now }
current now span (some w) =
    if elapsed now span w then record { count = 0; window_start = now } else w

unfoldable pub remaining_seconds : ℕ → ℕ → ℕ → ℕ
remaining_seconds start span now =
    let remaining = (span - (now - start)) / second in if ltb remaining 1 then 1 else remaining

abbrev pub counted : Window → Window
counted w = record w { count = w.count + 1 }

abbrev pub stored : Class → Bytes → Window → Window → Limiter → Limiter
stored c ip w gw rl = record rl {
  by_class = put_class c ip w rl.by_class;
  global = put ip gw rl.global;
}

-- The windows are stored, and counted only if the request passes.
unfoldable pub decide :
    Config → ℕ → Bytes → Class → Window → Window → Limiter → (Bool × ℕ) × Limiter
unfolding class_limit remaining_seconds
decide cfg now ip c w gw rl =
    let limit = class_limit cfg c in
    if leb limit.requests w.count
    then ((false, remaining_seconds w.window_start (span_of cfg c) now), stored c ip w gw rl)
    else if leb cfg.global_burst gw.count
    then ((false, remaining_seconds gw.window_start minute now), stored c ip w gw rl)
    else ((true, 0), stored c ip (counted w) (counted gw) rl)

-- `Allow` after the sweep.
unfoldable pub admit : Config → ℕ → Bytes → Class → Limiter → (Bool × ℕ) × Limiter
unfolding decide
admit cfg now ip c rl =
    decide cfg now ip c (current now (span_of cfg c) (rl.by_class c ip))
      (current now minute (rl.global ip)) rl

unfoldable pub allow : Config → ℕ → Bytes → Class → Limiter → (Bool × ℕ) × Limiter
unfolding sweep_locked admit
allow cfg now ip c rl =
    if not cfg.enabled then ((true, 0), rl) else admit cfg now ip c (sweep_locked cfg now rl)

unfoldable pub is_health_path : Bytes → Bool
is_health_path path =
    if eq_bytes path (codes "/server/healthz")
      || eq_bytes path (codes "/healthz")
      || eq_bytes path (codes "/api/healthz")
    then true
    else ltb (length (codes "/server/healthz")) (length path)
      && has_suffix path (codes "/server/healthz")

unfoldable pub classify : Bytes → Bytes → Class
unfolding is_health_path
classify method path =
    if is_health_path path
    then health
    else if eq_bytes method (codes "GET") || eq_bytes method (codes "HEAD")
    then read
    else write

-- A request, as `Allow` sees it.
pub record Arrival : Type 0 where
  pub now : ℕ
  pub ip : Bytes
  pub kind : Class
