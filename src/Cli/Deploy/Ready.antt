-- ===== src/Cli/Deploy/Ready.antt =====
-- `waitHealthy`, `checkReadiness` and `readinessProbe` of internal/cli/deploy.go.
pub mod Facts
pub mod Ends
use iold.Base.{
  ℕ, zero, suc, ◌+◌, ◌/◌, ◌&&◌, ◌||◌, ◌==◌, ltb, not, Bool, true, false, List, [], ◌∷◌, ◌++◌, Text,
  text_eq, is_empty, codes, Option, none, some, if◌then◌else◌,
}
use iold.Fault.{
  Fault, Result, ok, err, runtime_exited, never_healthy, not_ready, system_failed, wrapped,
}
use iold.Action.{Action, pure, raise, attempt, ◌>>=◌, ◌>>◌}
use iold.Host.{Host, Request, health, list_models, chat, Response, unreachable, answered}
use iold.World.{World, ask}
use iold.Supervisor.Process.{Process, Status, running, stale, reused, unknown, reconcile}
use iold.Cli.Deploy.Spec.{DeploySpec, Deps}

abbrev is_running : Status → Bool
is_running running = true
is_running _ = false

abbrev is_ok : Response → Bool
is_ok unreachable = false
is_ok (answered status body) = status == 200

-- Every model is compared, and one that agrees is enough.
abbrev lists : Text → List Text → Bool
lists id [] = false
lists id (m ∷ ms) = text_eq m id || lists id ms

lists_model : Text → Response → Bool
lists_model id unreachable = false
lists_model id (answered status none) = false
lists_model id (answered status (some names)) = status == 200 && lists id names

-- The first choice has content.
replies : Response → Bool
replies unreachable = false
replies (answered status none) = false
replies (answered status (some [])) = false
replies (answered status (some (c ∷ cs))) = status == 200 && not (is_empty c)

-- `ended f` is the end of a poll loop by the error `f`; `starved` is fuel that ran out.
pub data Polled : Type 0 where
  satisfied : Polled
  ended : Fault → Polled
  starved : Polled

-- Enough rounds for a timeout, when the pause is not zero.
abbrev pub rounds : Deps → ℕ → ℕ
rounds deps timeout = suc (suc (suc (timeout / deps.poll_interval)))

module _ {D : Type 0} (h : Host) (deps : Deps) where
  pause : Action (World D h.Os) Unit
  pause = ask (λ s. (tt {0}, h.sleep deps.poll_interval s))

  unfoldable pub health_round :
      Text → Process → ℕ → Action (World D h.Os) Polled → Action (World D h.Os) Polled
  unfolding pause
  health_round base p deadline rest = do
    status ← reconcile h p
    if not (is_running status) then pure (ended runtime_exited) else do
      answer ← ask (h.http (health base))
      if is_ok answer then pure satisfied else do
        now ← ask h.now
        if ltb deadline now then pure (ended never_healthy) else do pause; rest

  unfoldable pub poll_health : ℕ → Text → Process → ℕ → Action (World D h.Os) Polled
  poll_health zero base p deadline = pure starved
  poll_health (suc fuel) base p deadline =
      health_round base p deadline (poll_health fuel base p deadline)

  unfoldable pub readiness_probe : Text → DeploySpec → Action (World D h.Os) Unit
  unfolding lists_model replies
  readiness_probe base spec = do
    models ← ask (h.http (list_models base spec.api_key))
    if not (lists_model spec.id models) then raise not_ready else do
      answer ← ask (h.http (chat base spec.api_key spec.id))
      if not (replies answer) then raise not_ready else pure tt

  not_yet : ℕ → Fault → Action (World D h.Os) Polled → Action (World D h.Os) Polled
  unfolding pause
  not_yet deadline f rest = do
    now ← ask h.now
    if ltb deadline now
        then pure (ended (wrapped (codes "readiness checks failed") f))
        else do pause; rest

  unfoldable pub after_probe :
      ℕ → Result (Unit {0}) → Action (World D h.Os) Polled → Action (World D h.Os) Polled
  unfolding not_yet
  after_probe deadline (ok u) rest = pure satisfied
  after_probe deadline (err f) rest = not_yet deadline f rest

  unfoldable pub poll_ready : ℕ → Text → DeploySpec → ℕ → Action (World D h.Os) Polled
  poll_ready zero base spec deadline = pure starved
  poll_ready (suc fuel) base spec deadline = do
    result ← attempt (readiness_probe base spec)
    after_probe deadline result (poll_ready fuel base spec deadline)

  conclude : Polled → Action (World D h.Os) Unit
  conclude satisfied = pure tt
  conclude (ended f) = raise f
  conclude starved = raise system_failed

  unfoldable pub wait_healthy : Text → Process → Action (World D h.Os) Unit
  unfolding conclude
  wait_healthy base p = do
    now ← ask h.now
    r ← poll_health (rounds deps deps.health_timeout) base p (now + deps.health_timeout)
    conclude r

  unfoldable pub check_readiness : Text → DeploySpec → Action (World D h.Os) Unit
  unfolding conclude
  check_readiness base spec = do
    now ← ask h.now
    r ← poll_ready (rounds deps deps.ready_timeout) base spec (now + deps.ready_timeout)
    conclude r
