-- ===== src/Security/Slug.antt =====
-- src/security/slug.go: generated short codes, and the format and reserved names of custom slugs.
use shortner.Shared.{
  ℕ, zero, suc, ◌<◌, ◌≡◌, refl, Bool, true, false, ◌&&◌, ◌||◌, List, [], ◌∷◌, map, Bytes, codes,
  arith, leb, ◌==◌, length, eq_bytes, to_lower, All,
}
use shortner.Security.Random.{RandomResult, ok}
use shortner.Security.Random.{char_at, random_string}
use shortner.Security.Random.Total.{IsDrawn, random_string-Returns}

abbrev pub short_code_alphabet : Bytes
short_code_alphabet = codes "ABCDEFGHIJKLMNOPQRSTUVWXYZabcdefghijklmnopqrstuvwxyz0123456789"

abbrev pub short_code_length : ℕ
short_code_length = 6

unfoldable pub generate_short_code : Bytes → RandomResult
generate_short_code = random_string short_code_alphabet short_code_length

-- A byte of `[A-Za-z0-9-]`.
unfoldable pub is_slug_char : ℕ → Bool
is_slug_char c =
    (leb b'A' c && leb c b'Z')
    || (leb b'a' c && leb c b'z')
    || (leb b'0' c && leb c b'9')
    || c == b'-'

unfoldable pub all_slug_chars : Bytes → Bool
unfolding is_slug_char
all_slug_chars [] = true
all_slug_chars (c ∷ s) = is_slug_char c && all_slug_chars s

-- `^[A-Za-z0-9-]{3,20}$`
unfoldable pub validate_slug_format : Bytes → Bool
unfolding all_slug_chars
validate_slug_format slug = leb 3 (length slug) && leb (length slug) 20 && all_slug_chars slug

pub reserved_slugs : List Bytes
reserved_slugs =
    codes "api"
    ∷ codes "server"
    ∷ codes "static"
    ∷ codes "assets"
    ∷ codes "healthz"
    ∷ codes "metrics"
    ∷ codes "webhook"
    ∷ codes "webhooks"
    ∷ codes "search"
    ∷ codes "explore"
    ∷ codes "discover"
    ∷ codes "trending"
    ∷ codes "help"
    ∷ codes "support"
    ∷ codes "docs"
    ∷ codes "documentation"
    ∷ codes "about"
    ∷ codes "contact"
    ∷ codes "terms"
    ∷ codes "privacy"
    ∷ codes "legal"
    ∷ codes "security"
    ∷ codes "graphql"
    ∷ codes "swagger"
    ∷ codes "rest"
    ∷ codes "rpc"
    ∷ codes "ws"
    ∷ codes "websocket"
    ∷ codes "cdn"
    ∷ codes "media"
    ∷ codes "uploads"
    ∷ codes "files"
    ∷ codes "images"
    ∷ codes ".well-known"
    ∷ codes "robots.txt"
    ∷ codes "sitemap.xml"
    ∷ codes "favicon.ico"
    ∷ codes "health"
    ∷ codes "admin"
    ∷ codes "login"
    ∷ codes "logout"
    ∷ codes "list"
    ∷ codes "domains"
    ∷ codes "stats"
    ∷ codes "well-known"
    ∷ codes "security.txt"
    ∷ []

member : Bytes → List Bytes → Bool
member s [] = false
member s (x ∷ xs) = eq_bytes x s || member s xs

-- The map is keyed by the lower-cased slug.
unfoldable pub is_reserved_slug : Bytes → Bool
unfolding reserved_slugs member eq_bytes to_lower
is_reserved_slug slug = member (map to_lower slug) reserved_slugs

char_at-is_slug_char :
    (s : Bytes) (i : ℕ) → all_slug_chars s ≡ true → i < length s → is_slug_char (char_at s i) ≡ true
unfolding all_slug_chars
char_at-is_slug_char [] i h l = elim l [ ]
char_at-is_slug_char (c ∷ s) zero h l = ground arith
char_at-is_slug_char (c ∷ s) (suc i) h l = char_at-is_slug_char s i (ground arith) (omega arith)

drawn-all_slug_chars :
    (alphabet s : Bytes)
    → all_slug_chars alphabet ≡ true
    → All (IsDrawn alphabet) s
    → all_slug_chars s ≡ true
unfolding all_slug_chars
drawn-all_slug_chars alphabet [] h d = refl
drawn-all_slug_chars alphabet (c ∷ s) h ((i, l, e), d) =
    ground (arith, char_at-is_slug_char alphabet i h l, drawn-all_slug_chars alphabet s h d)

alphabet-all_slug_chars : all_slug_chars short_code_alphabet ≡ true
unfolding all_slug_chars
alphabet-all_slug_chars = refl

-- A generated short code has six bytes and passes the format rule of custom slugs.
pub generate_short_code-valid :
    (stream code rest : Bytes)
    → generate_short_code stream ≡ ok code rest
    → (length code ≡ 6) × (validate_slug_format code ≡ true)
unfolding generate_short_code validate_slug_format
generate_short_code-valid stream code rest h =
    let r = random_string-Returns short_code_alphabet short_code_length stream in
    let (l, d) = rw h at r in
    (l, ground (arith, drawn-all_slug_chars short_code_alphabet code alphabet-all_slug_chars d))
