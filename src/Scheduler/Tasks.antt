-- ===== src/Scheduler/Tasks.antt =====
-- The tasks of src/scheduler/tasks.go that work on the database alone. The text of the error that is
-- wrapped is left out.
use shortner.Shared.{Option, none, some, Bytes, codes}
use shortner.Db.Exec.{Result, ok, err, wrapped, attempt, exec}
use shortner.Db.Exec.Keeps.{Keeps-exec, Keeps-bind, Keeps-attempt, Keeps-pure}
use shortner.Db.Exec.Calm.{Calm-exec, Calm-bind, Calm-attempt, Calm-pure}
use shortner.Db.Tokens.{cleanup_expired_tokens, delete_expired}
use shortner.Scheduler.{TaskFunc}
use shortner.Scheduler.Disabled.{Off}
use shortner.Scheduler.Idle.{Gentle}

abbrev text_if_failed : {A : Type 0} → Bytes → Result A → Option Bytes
text_if_failed text (ok a) = none
text_if_failed text (err e) = some text

unfoldable pub token_cleanup_task : TaskFunc
token_cleanup_task s =
    let removed = cleanup_expired_tokens s in
    (text_if_failed (codes "token_cleanup") removed.0, removed.1)

-- A ping, a call of the driver.
unfoldable pub healthcheck_self_task : TaskFunc
healthcheck_self_task s =
    let ping = attempt wrapped s in
    (text_if_failed (codes "healthcheck_self: database unreachable") ping.0, ping.1)

module _ (id : Bytes) where
  pub token_cleanup_task-Gentle : Gentle id token_cleanup_task
  unfolding token_cleanup_task cleanup_expired_tokens delete_expired
  token_cleanup_task-Gentle s calm off = (
    Calm-bind (exec delete_expired) _ (Calm-exec delete_expired)
        (λ rows. Calm-bind (attempt _) _ (Calm-attempt _) (λ u. Calm-pure rows)) s calm,
    Keeps-bind (Off id) (exec delete_expired) _ (Keeps-exec (Off id) delete_expired (λ now t h. h))
        (λ rows.
          Keeps-bind (Off id) (attempt _) _ (Keeps-attempt (Off id) _)
            (λ u. Keeps-pure (Off id) rows))
        s off,
  )

  pub healthcheck_self_task-Gentle : Gentle id healthcheck_self_task
  unfolding healthcheck_self_task
  healthcheck_self_task-Gentle s calm off =
      (Calm-attempt wrapped s calm, Keeps-attempt (Off id) wrapped s off)
