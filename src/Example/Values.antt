-- ===== src/Example/Values.antt =====
-- The theorems on the diagram, the ports, the exit codes and the identifiers, at concrete values.
use iold.Base.{◌≡◌, refl, true, false, none, some, [], ◌∷◌, codes, ◌↔◌, ◌≤◌, arith, ◌<◌}
use iold.State.Machine.{starting, destroyed, check_transition}
use iold.State.Machine.{healthy, unregistered_healthy, registering}
use iold.State.Machine.Graph.{
  ◌⟶◌, ◌⟶*◌, here, onward, check_transition_iff, given_up_absorbs, is_given_up,
  serving-Visits_healthy, Visits, destroyed_reachable,
}
use iold.Supervisor.Ports.{
  allocate_port, Usable, allocate_port-Usable, allocate_port-first, allocate_port-none,
}
use iold.Fault.{wrapped, usage}
use iold.Fault.ExitCode.{exit_code, category, exit_code-category}
use iold.Cli.Names.{is_valid_id}
use iold.Cli.Names.{deployment_id}
use iold.Cli.Names.Valid.{deployment_id_lem}

check_transition_iff_example : (check_transition starting healthy ≡ none) ↔ (starting ⟶ healthy)
check_transition_iff_example = check_transition_iff starting healthy

given_up_absorbs_example : is_given_up destroyed ≡ true
given_up_absorbs_example = given_up_absorbs (onward ◌⟶◌.retire_failed (onward ◌⟶◌.finish here)) refl

serving-Visits_healthy_example : Visits healthy starting unregistered_healthy
serving-Visits_healthy_example =
    serving-Visits_healthy (onward ◌⟶◌.become_healthy (onward ◌⟶◌.register (onward ◌⟶◌.split here)))
      refl refl

destroyed_reachable_example : healthy ⟶* destroyed
destroyed_reachable_example = destroyed_reachable healthy (registering ∷ []) refl

allocate_port-Usable_example : (8000 ≤ 8001) × (8001 < 8100) × Usable (λ p. true) (8000 ∷ []) 8001
unfolding allocate_port iold.Supervisor.Ports.reserves
allocate_port-Usable_example = allocate_port-Usable (λ p. true) 8000 (8000 ∷ []) 8001 refl

allocate_port-first_example : ¬ Usable (λ p. true) (8000 ∷ []) 8000
unfolding allocate_port iold.Supervisor.Ports.reserves
allocate_port-first_example =
    allocate_port-first (λ p. true) 8000 (8000 ∷ []) 8001 8000 refl (omega arith) (omega arith)

allocate_port-none_example : ¬ Usable (λ p. false) [] 8050
unfolding allocate_port iold.Supervisor.Ports.reserves
allocate_port-none_example =
    allocate_port-none (λ p. false) 8000 [] 8050 refl (omega arith) (omega arith)

exit_code-category_example :
    exit_code (some (wrapped (codes "deploy") usage)) ≡ category (wrapped (codes "deploy") usage)
exit_code-category_example = exit_code-category (wrapped (codes "deploy") usage)

deployment_id_lem_example : is_valid_id (deployment_id (codes "00ff00ff") (codes "Qwen/..")) ≡ true
unfolding iold.Cli.Names.every
deployment_id_lem_example = deployment_id_lem (codes "00ff00ff") (codes "Qwen/..") refl refl
