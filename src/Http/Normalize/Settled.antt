-- ===== src/Http/Normalize/Settled.antt =====
-- What `urlNormalizeMiddleware` passes on or redirects to is a settled path (src/httpserver/middleware.go).
use shortner.Shared.{
  ℕ, ◌≡◌, refl, Bool, true, false, inl, inr, not, ◌&&◌, ◌||◌, [], ◌∷◌, Bytes, codes, if◌then◌else◌,
  eq_bytes, arith, Bool-cases, if_intro,
}
use shortner.Http.Normalize.{
  is_slash, doubled, collapse, ends_in_slash, is_empty, trim_right_slashes, or_root, single_slashes,
  with_query, url_normalize, Normalized, moved, next, has_dot, last_segment,
}

abbrev starts_slash : Bytes → Bool
starts_slash [] = false
starts_slash (c ∷ s) = is_slash c

doubled_cons : (c : ℕ) (t : Bytes) → doubled (c ∷ t) ≡ ((is_slash c && starts_slash t) || doubled t)
doubled_cons c [] = ground arith
doubled_cons c (d ∷ s) = refl

ends_cons :
    (c : ℕ) (t : Bytes)
    → ends_in_slash (c ∷ t) ≡ (if is_empty t then is_slash c else ends_in_slash t)
ends_cons c [] = refl
ends_cons c (d ∷ s) = refl

is_empty-collapse : (p : Bytes) → is_empty (collapse p) ≡ is_empty p
is_empty-collapse [] = refl
is_empty-collapse (c ∷ []) = refl
is_empty-collapse (c ∷ d ∷ s) = ground (arith, is_empty-collapse (d ∷ s))

starts_slash-collapse : (p : Bytes) → starts_slash (collapse p) ≡ starts_slash p
starts_slash-collapse [] = refl
starts_slash-collapse (c ∷ []) = refl
starts_slash-collapse (c ∷ d ∷ s) = ground (arith, starts_slash-collapse (d ∷ s))

collapse_single : (p : Bytes) → doubled (collapse p) ≡ false
collapse_single [] = refl
collapse_single (c ∷ []) = refl
collapse_single (c ∷ d ∷ s) = ground (
  arith,
  collapse_single (d ∷ s),
  doubled_cons c (collapse (d ∷ s)),
  starts_slash-collapse (d ∷ s),
)

ends_in_slash-collapse : (p : Bytes) → ends_in_slash (collapse p) ≡ ends_in_slash p
ends_in_slash-collapse [] = refl
ends_in_slash-collapse (c ∷ []) = refl
ends_in_slash-collapse (c ∷ d ∷ s) = ground (
  arith,
  ends_in_slash-collapse (d ∷ s),
  ends_cons c (collapse (d ∷ s)),
  is_empty-collapse (d ∷ s),
)

trimmed_end : (p : Bytes) → ends_in_slash (trim_right_slashes p) ≡ false
trimmed_end [] = refl
trimmed_end (c ∷ s) = ground (arith, trimmed_end s, ends_cons c (trim_right_slashes s))

starts_slash_trimmed :
    (p : Bytes) → starts_slash (trim_right_slashes p) ≡ true → starts_slash p ≡ true
starts_slash_trimmed [] h = h
starts_slash_trimmed (c ∷ s) h = ground arith

trimmed_single : (p : Bytes) → doubled p ≡ false → doubled (trim_right_slashes p) ≡ false
trimmed_single [] h = refl
trimmed_single (c ∷ s) h =
    let apart = doubled_cons c s in
    let deeper = trimmed_single s in
    let first = starts_slash_trimmed s in
    let step = doubled_cons c (trim_right_slashes s) in ground (arith, deeper, first, apart, step)

single_slashes_single : (p : Bytes) → doubled (single_slashes p) ≡ false
single_slashes_single p = ground (arith, collapse_single p, ends_in_slash-collapse p)

-- A path that is neither doubled nor ends in a slash is served as it is; and so is "/".
settled_next :
    (raw_query p : Bytes)
    → doubled p ≡ false
    → ends_in_slash p ≡ false
    → url_normalize raw_query p ≡ next p
unfolding url_normalize
settled_next raw_query p single end =
    rw (single, end)
      (elim (Bool-cases (eq_bytes p (codes "/"))) [
        | inl root ↦ rw root refl
        | inr other ↦ rw other refl
      ])

root_next : (raw_query : Bytes) → url_normalize raw_query (codes "/") ≡ next (codes "/")
unfolding url_normalize eq_bytes
root_next raw_query = refl

-- The path is served as it is, with any query.
abbrev pub Settled : Bytes → Type 0
Settled p = (raw_query : Bytes) → url_normalize raw_query p ≡ next p

abbrev pub Settles : Bytes → Normalized → Type 0
Settles raw_query (moved dest) = (p : Bytes) × (dest ≡ with_query raw_query p) × Settled p
Settles raw_query (next p) = Settled p

or_root-Settled : (t : Bytes) → doubled t ≡ false → ends_in_slash t ≡ false → Settled (or_root t)
or_root-Settled [] single end raw_query = root_next raw_query
or_root-Settled (c ∷ s) single end raw_query = settled_next raw_query (c ∷ s) single end

trimmed-Settled : (p : Bytes) → doubled p ≡ false → Settled (or_root (trim_right_slashes p))
trimmed-Settled p single =
    or_root-Settled (trim_right_slashes p) (trimmed_single p single) (trimmed_end p)

untrimmed-Settled :
    (p : Bytes)
    → doubled p ≡ false
    → not (eq_bytes p (codes "/")) && ends_in_slash p ≡ false
    → Settled p
unfolding url_normalize
untrimmed-Settled p single kept raw_query = rw (single, kept) refl

-- The decoded path that reaches the next handler is one that this stage would pass on again as it is,
-- and the destination of a redirect is such a path with the query of the request after it. The statement
-- ends there: it does not cover how `http.Redirect` writes the destination, nor how a client parses it.
pub url_normalize-Settles : (raw_query p : Bytes) → Settles raw_query (url_normalize raw_query p)
unfolding url_normalize
url_normalize-Settles raw_query p =
    let single = single_slashes_single p in
    let q = single_slashes p in
    let trimmed = trimmed-Settled q single in
    elim (Bool-cases (not (eq_bytes q (codes "/")) && ends_in_slash q)) [
      | inl cut ↦ rw cut (
          if_intro (Settles raw_query)
            (not (has_dot (last_segment (or_root (trim_right_slashes q)))))
            (or_root (trim_right_slashes q), refl, trimmed) trimmed)
      | inr kept ↦ rw kept (untrimmed-Settled q single kept)
    ]
