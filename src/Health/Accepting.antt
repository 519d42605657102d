-- ===== src/Health/Accepting.antt =====
-- The accept loop of src/health.rs.
use cncnet_server.Base.{ℕ, suc, ◌+◌, ◌≡◌, refl, ◌∙◌, ◌≢◌, List, [], ◌∷◌, arith}
use cncnet_server.Health.{
  HealthTask, listening, accept_disabled, stopped, panicked, HealthEvent, accepted, accept_failed,
  shut_down, next_task, health_step, health_run,
}

-- The connections that come before the first failure and before the shutdown.
abbrev pub heard : List HealthEvent → ℕ
heard [] = 0
heard (accepted ∷ es) = suc (heard es)
heard (accept_failed ∷ es) = 0
heard (shut_down ∷ es) = 0

not_listening :
    (task : HealthTask) (n : ℕ) (es : List HealthEvent)
    → task ≢ listening
    → (health_run (record { task = task; connections = n }) es).connections ≡ n
unfolding health_run health_step next_task
not_listening task n [] h = refl
not_listening listening n (e ∷ es) h = absurd (h refl)
not_listening accept_disabled n (accepted ∷ es) h =
    not_listening accept_disabled (n + 0) es (λ q. cc) ∙ omega arith
not_listening accept_disabled n (accept_failed ∷ es) h =
    not_listening accept_disabled (n + 0) es (λ q. cc) ∙ omega arith
not_listening accept_disabled n (shut_down ∷ es) h =
    not_listening stopped (n + 0) es (λ q. cc) ∙ omega arith
not_listening stopped n (e ∷ es) h = not_listening stopped (n + 0) es (λ q. cc) ∙ omega arith
not_listening panicked n (e ∷ es) h = not_listening panicked (n + 0) es (λ q. cc) ∙ omega arith

-- A server that listens spawns a task for each connection that comes before the first failure of
-- `accept` and before the shutdown, and for none after: one failure ends its service for good.
pub health_run-connections :
    (n : ℕ) (es : List HealthEvent)
    → (health_run (record { task = listening; connections = n }) es).connections ≡ n + heard es
unfolding health_run health_step next_task
health_run-connections n [] = omega arith
health_run-connections n (accepted ∷ es) = health_run-connections (n + 1) es ∙ omega arith
health_run-connections n (accept_failed ∷ es) = not_listening accept_disabled (n + 0) es (λ q. cc)
health_run-connections n (shut_down ∷ es) = not_listening stopped (n + 0) es (λ q. cc)
