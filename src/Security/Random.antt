-- ===== src/Security/Random.antt =====
-- `RandomString` of src/security/token.go: rejection sampling over the bytes of crypto/rand.
-- The random source is a finite stream of bytes; a read of more bytes than are left is an error.
pub mod Uniform
pub mod Total
pub mod Success
use shortner.Shared.{
  ℕ, zero, suc, ◌+◌, ◌-◌, ◌%◌, Bool, ◌||◌, List, [], ◌∷◌, ◌++◌, Bytes, length, take, drop, ltb, leb,
  ◌==◌, if◌then◌else◌,
}

pub data RandomResult : Type 0 where
  ok : Bytes → Bytes → RandomResult
  size_out_of_range read_failed out_of_fuel : RandomResult

-- Bytes at or above this multiple of the alphabet's size are drawn again.
unfoldable pub limit : ℕ → ℕ
limit size = 256 - 256 % size

abbrev pub char_at : Bytes → ℕ → ℕ
char_at [] i = 0
char_at (c ∷ cs) zero = c
char_at (c ∷ cs) (suc i) = char_at cs i

-- The inner loop over one buffer; it breaks when `out` has `n` bytes.
unfoldable pub fill : Bytes → ℕ → Bytes → Bytes → Bytes
unfolding limit
fill alphabet n [] out = out
fill alphabet n (v ∷ buf) out =
    let next = out ++ char_at alphabet (v % length alphabet) ∷ [] in
    let skipped = fill alphabet n buf out in
    let taken = fill alphabet n buf next in
    if leb (limit (length alphabet)) v then skipped else if length next == n then next else taken

-- The outer loop: a buffer of `n` fresh bytes in each round.
unfoldable pub draw : ℕ → Bytes → ℕ → Bytes → Bytes → RandomResult
unfolding fill
draw zero alphabet n stream out = out_of_fuel
draw (suc fuel) alphabet n stream out =
    let rest = draw fuel alphabet n (drop n stream) (fill alphabet n (take n stream) out) in
    if ltb (length out) n
    then (if ltb (length stream) n then read_failed else rest)
    else ok out stream

unfoldable pub random_string : Bytes → ℕ → Bytes → RandomResult
unfolding draw
random_string alphabet n stream =
    if length alphabet == 0 || ltb 256 (length alphabet)
    then size_out_of_range
    else draw (length stream + 1) alphabet n stream []
