-- ===== src/Http/Csrf/Forged.antt =====
-- What a form of another site can have a browser send (src/httpserver/middleware.go, secfetch.go).
use shortner.Shared.{
  ◌≡◌, refl, ap, ◌∙◌, Bool, true, false, inl, inr, not, ◌&&◌, List, [], ◌∷◌, Bytes, codes,
  if◌then◌else◌, eq_bytes, eq_bytes_iff, trim_space, has_prefix, All, arith, Bool-cases,
}
use shortner.Http.Request.{extract_token}
use shortner.Http.Overlay.{Incoming, is_empty, equal_fold}
use shortner.Http.Csrf.{
  Csrf, token_of, safe_method, exempt, submitted, matches, cookie_name, header_name, csrf_passes,
  sec_fetch_passes, state_changing_method, is_csrf_exempt,
}

-- The headers that a form cannot set.
abbrev pub unsettable : Csrf → List Bytes
unsettable csrf =
    codes "Authorization"
    ∷ codes "X-API-Key"
    ∷ codes "API-Key"
    ∷ codes "X-Auth-Token"
    ∷ codes "X-Access-Token"
    ∷ codes "X-Token"
    ∷ codes "Token"
    ∷ codes "Upgrade"
    ∷ header_name csrf
    ∷ []

-- A request that a form of another site sends, without the CSRF token.
pub record Forged (csrf : Csrf) (i : Incoming) : Type 0 where
  pub changing : state_changing_method i.method ≡ true
  pub bare : All (λ (name : Bytes). i.header name ≡ []) (unsettable csrf)
  pub cross_site : i.header (codes "Sec-Fetch-Site") ≡ codes "cross-site"
  pub guessed : matches (i.cookie (cookie_name csrf)) (i.form (codes "csrf_token")) ≡ false

abbrev pub query_token : Incoming → Bytes
query_token i = trim_space (i.query (codes "token"))

same_safety : (m n : Bytes) → eq_bytes m n ≡ true → safe_method n ≡ false → safe_method m ≡ false
same_safety m n same h = ap safe_method ((eq_bytes_iff m n).0 same) ∙ h

unsafe : (m : Bytes) → state_changing_method m ≡ true → safe_method m ≡ false
unfolding state_changing_method safe_method eq_bytes
unsafe m h = elim (Bool-cases (eq_bytes m (codes "POST"))) [
  | inl post ↦ same_safety m (codes "POST") post refl
  | inr a ↦ elim (Bool-cases (eq_bytes m (codes "PUT"))) [
    | inl put ↦ same_safety m (codes "PUT") put refl
    | inr b ↦ elim (Bool-cases (eq_bytes m (codes "PATCH"))) [
      | inl patch ↦ same_safety m (codes "PATCH") patch refl
      | inr c ↦ same_safety m (codes "DELETE") (rw (a, b, c) at h) refl
    ]
  ]
]

token_only : (b : Bool) → (if not b then true else false) ≡ not b
token_only b = ground arith

refused_without : (b x : Bool) → (if b && true then false else not (x && false)) ≡ not b
refused_without b x = ground arith

-- A path that is not exempt is no path of the API.
not_exempt_api :
    (path : Bytes) → is_csrf_exempt path ≡ false → has_prefix path (codes "/api/") ≡ false
unfolding is_csrf_exempt
not_exempt_api path h = ground (arith, h)

module _ (csrf : Csrf) (i : Incoming) (forged : Forged csrf i) where
  token_of_forged : token_of i ≡ query_token i
  unfolding token_of extract_token eq_bytes trim_space
  token_of_forged =
      let (a, (b, (c, (d, (e, (f, (g, _))))))) = forged.bare in rw (a, b, c, d, e, f, g) refl

  submitted_forged : submitted csrf i ≡ i.form (codes "csrf_token")
  unfolding eq_bytes
  submitted_forged = let (_, (_, (_, (_, (_, (_, (_, (_, (h, _))))))))) = forged.bare in rw h refl

  csrf_passes_forged :
      csrf.enabled ≡ true
      → exempt csrf i.path ≡ false
      → csrf_passes csrf i ≡ not (is_empty (query_token i))
  unfolding csrf_passes equal_fold eq_bytes
  csrf_passes_forged on path =
      let (_, (_, (_, (_, (_, (_, (_, (upgrade, _)))))))) = forged.bare in
      rw
        (
          unsafe i.method forged.changing,
          upgrade,
          token_of_forged,
          path,
          submitted_forged,
          forged.guessed,
          on,
        )
        (token_only (is_empty (query_token i)))

  sec_fetch_passes_forged :
      is_csrf_exempt i.path ≡ false → sec_fetch_passes true i ≡ not (is_empty (query_token i))
  unfolding sec_fetch_passes eq_bytes
  sec_fetch_passes_forged path =
      rw (forged.changing, forged.cross_site, token_of_forged, path, not_exempt_api i.path path)
        (refused_without (is_empty (query_token i)) _)

  -- A request that a form of another site sends without the CSRF token, to a path that is not exempt,
  -- passes the CSRF check, and likewise the Fetch Metadata check, if and only if its URL has a `token`
  -- parameter that is not blank, whatever its value.
  pub csrf_passes-Forged :
      csrf.enabled ≡ true
      → exempt csrf i.path ≡ false
      → (csrf_passes csrf i ≡ not (is_empty (query_token i)))
        × (sec_fetch_passes true i ≡ not (is_empty (query_token i)))
  unfolding exempt
  csrf_passes-Forged on path =
      (csrf_passes_forged on path, sec_fetch_passes_forged (ground (arith, path)))
