-- ===== src/Http/Chain/Admitted.antt =====
-- What is known of a request that the stages let through, or keep out (src/httpserver/middleware.go).
use shortner.Shared.{
  ℕ, ◌≡◌, refl, sym, ap, ◌∙◌, ◌⊎◌, Bool, true, false, inl, inr, Bytes, codes, Bool-cases, contains,
  arith,
}
use shortner.Library.{Library}
use shortner.Http.Overlay.{Incoming}
use shortner.Http.Proxy.{resolve_client_ip}
use shortner.Http.Normalize.{Normalized, moved, next, url_normalize, path_security}
use shortner.Http.IpBlock.{allowlist_contains, screen}
use shortner.Http.RateLimit.{allow, classify}
use shortner.Http.Chain.Passed.{unblocked, screen-unblocked, Within, allow-Within}
use shortner.Http.Csrf.{csrf_passes, sec_fetch_passes}
use shortner.Http.Cors.{is_preflight}
use shortner.Http.Chain.{
  Deps, Server, Answer, preflight, redirected, refused, limited, handled, geo_passes, at_geo,
  at_guard, at_security, at_normalize, setup_middleware, operator_of,
}

module _ (lib : Library) (d : Deps) (now later : ℕ) where
  -- The checks that a request for the handlers has passed.
  pub record Admitted (s : Server) (j : Incoming) : Type 0 where
    pub not_blocked :
        (allowlist_contains lib s.guard.allowlist (resolve_client_ip lib d.resolver j) ≡ true)
        ⊎ (unblocked lib (resolve_client_ip lib d.resolver j) now s.guard.blocks ≡ true)
    pub within_limit :
        (allowlist_contains lib s.guard.allowlist (resolve_client_ip lib d.resolver j) ≡ true)
        ⊎ Within d.limits later
            (resolve_client_ip lib d.resolver j)
            (classify j.method j.path)
            s.limiter
    pub from_country :
        geo_passes lib d
          (allowlist_contains lib s.guard.allowlist (resolve_client_ip lib d.resolver j))
          (resolve_client_ip lib d.resolver j)
        ≡ true
    pub same_site : sec_fetch_passes d.sec_fetch_validation j ≡ true
    pub unforged : csrf_passes d.csrf j ≡ true

  -- Where the answer hands the request on, it has passed the checks, and the flag is the token's.
  abbrev pub Handled : Server → Incoming → Answer → Type 0
  Handled s i (handled j operator) = Admitted s j × (j ≡ i) × (operator ≡ operator_of lib d j)
  Handled s i _ = Unit

  module _ (s : Server) (i : Incoming) where
    abbrev from : Bytes
    from = resolve_client_ip lib d.resolver i

    abbrev trusted : Bool
    trusted = allowlist_contains lib s.guard.allowlist from

    at_geo-Handled :
        (screen lib from now s.guard).0 ≡ true
        → (trusted ≡ true) ⊎ Within d.limits later from (classify i.method i.path) s.limiter
        → Handled s i (at_geo lib d trusted from i)
    at_geo-Handled screened within = elim (Bool-cases (geo_passes lib d trusted from)) [
      | inr foreign ↦ rw foreign tt
      | inl home ↦ elim (Bool-cases (sec_fetch_passes d.sec_fetch_validation i)) [
        | inr cross ↦ rw (home, cross) tt
        | inl same ↦ elim (Bool-cases (csrf_passes d.csrf i)) [
          | inr forged ↦ rw (home, same, forged) tt
          | inl genuine ↦
              rw (home, same, genuine)
                (
                  record {
                    not_blocked = screen-unblocked lib from now s.guard screened;
                    within_limit = within;
                    from_country = home;
                    same_site = same;
                    unforged = genuine;
                  },
                  refl,
                  refl,
                )
        ]
      ]
    ]

    at_guard-Handled : Handled s i (at_guard lib d now later i s).0
    at_guard-Handled = elim (Bool-cases (screen lib from now s.guard).0) [
      | inr shut ↦ rw shut tt
      | inl screened ↦ elim (Bool-cases trusted) [
        | inl listed ↦ rw (screened, listed) (rw listed at (at_geo-Handled screened (inl listed)))
        | inr other ↦
            elim (Bool-cases (allow d.limits later from (classify i.method i.path) s.limiter).0.0) [
              | inl within ↦
                  let below = allow-Within d.limits later from _ s.limiter within in
                  rw (screened, other, within) (rw other at (at_geo-Handled screened (inr below)))
              | inr over ↦ rw (screened, other, over) tt
            ]
      ]
    ]

  -- The path of the request is the normalized one as `path.Clean` has it, and held no "..".
  abbrev pub Cleaned : Incoming → Incoming → Type 0
  Cleaned i j =
      (p : Bytes) × (url_normalize i.raw_query i.path ≡ next p)
      × (path_security lib i.raw_path p ≡ (true, j.path))
      × (contains p (codes "..") ≡ false)

  abbrev pub HandedOn : Server → Incoming → Answer → Type 0
  HandedOn s i (handled j operator) =
      Admitted s j
      × (j ≡ record i { path = j.path })
      × (operator ≡ operator_of lib d j)
      × Cleaned i j
  HandedOn s i _ = Unit

  no_dots :
      (raw_path p : Bytes)
      → (path_security lib raw_path p).0 ≡ true
      → contains p (codes "..") ≡ false
  unfolding path_security
  no_dots raw_path p h = elim (Bool-cases (contains p (codes ".."))) [
    | inl dots ↦ let wrong : false ≡ true = rw dots at h in absurd (ground (arith, wrong))
    | inr none_there ↦ none_there
  ]

  with_path :
      (s : Server) (i : Incoming) (p q : Bytes) (a : Answer)
      → url_normalize i.raw_query i.path ≡ next p
      → path_security lib i.raw_path p ≡ (true, q)
      → Handled s (record i { path = q }) a
      → HandedOn s i a
  with_path s i p q (handled j operator) normal clean (admitted, path, flag) =
      let its_path : j.path ≡ q = ap (λ (k : Incoming). k.path) path in
      let whole = path ∙ ap (λ (r : Bytes). record i { path = r }) (sym its_path) in
      let cleaned = clean ∙ ap (λ (r : Bytes). (true, r)) (sym its_path) in
      let harmless = no_dots i.raw_path p (ap (λ (r : Bool × Bytes). r.0) clean) in
      (admitted, whole, flag, (p, normal, cleaned, harmless))
  with_path s i p q preflight normal clean h = tt
  with_path s i p q (redirected dest) normal clean h = tt
  with_path s i p q (refused code) normal clean h = tt
  with_path s i p q (limited seconds) normal clean h = tt

  at_security-HandedOn :
      (s : Server) (i : Incoming) (p : Bytes) (v : Bool × Bytes)
      → url_normalize i.raw_query i.path ≡ next p
      → path_security lib i.raw_path p ≡ v
      → HandedOn s i (at_security lib d now later i s v).0
  at_security-HandedOn s i p (false, q) normal clean = tt
  at_security-HandedOn s i p (true, q) normal clean =
      with_path s i p q _ normal clean (at_guard-Handled s (record i { path = q }))

  at_normalize-HandedOn :
      (s : Server) (i : Incoming) (n : Normalized)
      → url_normalize i.raw_query i.path ≡ n
      → HandedOn s i (at_normalize lib d now later i s n).0
  at_normalize-HandedOn s i (moved dest) is = tt
  at_normalize-HandedOn s i (next p) is = at_security-HandedOn s i p _ is refl

  -- A request that the stages hand to the handlers is the client's but for its path, which is the
  -- cleaned form of one without "..". Its address, as the trusted proxies tell it, is on the allowlist,
  -- or no block is in force for it and, where limiting is on, the windows that the request falls in
  -- have counted fewer requests than the limit of its class and the global burst. The rules on
  -- countries, on the Fetch Metadata and on CSRF let it through, and it is the operator's if its
  -- token is.
  pub setup_middleware-HandedOn :
      (s : Server) (i : Incoming) → HandedOn s i (setup_middleware lib d now later i s).0
  unfolding setup_middleware
  setup_middleware-HandedOn s i =
      elim (Bool-cases (is_preflight i.method (i.header (codes "Origin")))) [
        | inl asked ↦ rw asked tt
        | inr other ↦ rw other (at_normalize-HandedOn s i (url_normalize i.raw_query i.path) refl)
      ]
