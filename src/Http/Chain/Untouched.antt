-- ===== src/Http/Chain/Untouched.antt =====
-- Which requests the stages keep no trace of (src/httpserver/middleware.go, ipblock.go).
use shortner.Shared.{ℕ, ◌≡◌, refl, Bool, true, false, inl, inr, Bytes, codes, Bool-cases}
use shortner.Library.{Library}
use shortner.Http.Overlay.{Incoming, overlay_client_identity, overlay_of}
use shortner.Http.Proxy.{resolve_client_ip}
use shortner.Http.Normalize.{Normalized, moved, next, url_normalize, path_security}
use shortner.Http.IpBlock.{Guard, allowlist_contains, screen}
use shortner.Http.Cors.{is_preflight}
use shortner.Http.Chain.{Deps, Server, at_guard, at_security, at_normalize, setup_middleware}

module _ (lib : Library) (d : Deps) (now later : ℕ) (s : Server) (i : Incoming) where
  abbrev from : Bytes
  from = resolve_client_ip lib d.resolver i

  -- What leads the stages before the guard to a state leads all of them to it.
  setup_middleware_by_guard :
      (P : Server → Type 0)
      → P s
      → ((path : Bytes) → P (at_guard lib d now later (record i { path = path }) s).1)
      → P (setup_middleware lib d now later i s).1
  unfolding setup_middleware
  setup_middleware_by_guard P early guarded =
      elim (Bool-cases (is_preflight i.method (i.header (codes "Origin")))) [
        | inl asked ↦ rw asked early
        | inr other ↦ rw other (normalized (url_normalize i.raw_query i.path))
      ]
    where
      secured : (v : Bool × Bytes) → P (at_security lib d now later i s v).1
      secured (false, path) = early
      secured (true, path) = guarded path

      normalized : (n : Normalized) → P (at_normalize lib d now later i s n).1
      normalized (moved dest) = early
      normalized (next path) = secured (path_security lib i.raw_path path)

  screen_allowlisted :
      (ip : Bytes) (g : Guard)
      → allowlist_contains lib g.allowlist ip ≡ true
      → screen lib ip now g ≡ (true, g)
  unfolding screen
  screen_allowlisted ip g listed = rw listed refl

  -- Nothing is kept of a request whose address is on the allowlist.
  pub setup_middleware_allowlisted :
      allowlist_contains lib s.guard.allowlist from ≡ true
      → (setup_middleware lib d now later i s).1 ≡ s
  unfolding resolve_client_ip overlay_client_identity overlay_of
  setup_middleware_allowlisted listed =
      setup_middleware_by_guard (λ t. t ≡ s) refl
        (λ path. rw (screen_allowlisted from s.guard listed, listed) refl)
