-- ===== src/Http/IpBlock/Samples.antt =====
-- Blocks and floods on sample addresses.
use shortner.Shared
use shortner.Shared.{
  ℕ, ◌+◌, ◌≤◌, ◌<◌, ◌≡◌, refl, Bool, true, false, Option, none, some, List, [], ◌∷◌, Bytes, codes,
  arith,
}
use shortner.Http.Samples.{sample_library}
use shortner.Http.IpBlock.{
  BlockStore, AbuseDetector, allowlist_contains, new_block_store, empty_store, blocked,
  block_temporarily, release_expired, record_request, screen,
}
use shortner.Http.IpBlock.Release.{blocked-release_expired, created, blocking}
use shortner.Http.IpBlock.Flood.{Arrival, guard, let_through, screen_all}
use shortner.Http.IpBlock.Flood.Bound.{let_through-screen_all}

abbrev visitor : Bytes
visitor = codes "192.0.2.1"

abbrev other_visitor : Bytes
other_visitor = codes "192.0.2.2"

abbrev at : Bytes → ℕ → Arrival
at ip now = record { ip = ip; now = now }

abbrev sample_detector : AbuseDetector
sample_detector = record {
  auto_block_ip = true;
  threshold = 3;
  duration = 100;
  window = 60;
  counts = λ ip. 0;
  reset_at = 60;
}

abbrev sample_arrivals : List Arrival
sample_arrivals =
    at visitor 10 ∷ at other_visitor 11 ∷ at visitor 12 ∷ at visitor 13 ∷ at visitor 14 ∷ []

-- The third request of the visitor reaches the threshold.
sample_verdicts :
    screen_all sample_library sample_arrivals (guard [] empty_store sample_detector)
    ≡ true ∷ true ∷ true ∷ false ∷ false ∷ []
unfolding screen_all screen blocked block_temporarily record_request allowlist_contains
    Shared.eq_bytes
sample_verdicts = refl

let_through-screen_all_example :
    let_through visitor sample_arrivals
        (screen_all sample_library sample_arrivals (guard [] empty_store sample_detector))
      + 0
    < 3
unfolding allowlist_contains
let_through-screen_all_example =
    let_through-screen_all sample_library [] visitor 10 sample_arrivals empty_store sample_detector
      refl
      (
        (omega arith, omega arith),
        (
          (omega arith, omega arith),
          (
            (omega arith, omega arith),
            ((omega arith, omega arith), ((omega arith, omega arith), tt)),
          ),
        ),
      )
      (omega arith) refl (omega arith)

abbrev sample_store : BlockStore
sample_store = block_temporarily visitor (codes "probe") 40 20 (new_block_store sample_library [])

blocked-release_expired_example :
    blocked sample_library visitor 50 (release_expired 30 sample_store).1
    ≡ blocked sample_library visitor 50 sample_store
blocked-release_expired_example =
    blocked-release_expired sample_library visitor 30 50
      (blocking visitor (codes "probe") 40 20 (created [])) (omega arith)
