-- ===== src/Db/Secrets/Samples.antt =====
-- A secret made in empty tables, and looked up again.
use shortner.Shared.{refl, take}
use shortner.Db.Exec.{Db, attempt, exec, handle_query_error}
use shortner.Http.Samples.{sample_library, start}
use shortner.Db.Secrets.{
  ensure_secret, secret_installation, get_secret, set_secret, create_secret, generate_secret,
}
use shortner.Db.Secrets.Stable.{Gives, ensure_secret_stable}

-- The state after the secret was made.
abbrev made : Db
made = (ensure_secret sample_library secret_installation start).1

ensure_secret_stable_example :
    Gives (take 32 start.random) made.tables (ensure_secret sample_library secret_installation made)
unfolding ensure_secret create_secret generate_secret get_secret set_secret exec attempt
    handle_query_error
ensure_secret_stable_example =
    ensure_secret_stable sample_library secret_installation (take 32 start.random) start made refl
      refl
