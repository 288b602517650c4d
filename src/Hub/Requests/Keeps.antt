-- ===== src/Hub/Requests/Keeps.antt =====
-- The requests to the hub leave alone what does not depend on the system.
use iold.Base.{ℕ, List, Text, is_empty}
use iold.Fault.{Result, ok, err}
use iold.Action.Keeps.{Keeps, Keeps-pure, Keeps-raise, Keeps-bind, Keeps-if}
use iold.Host.{Host}
use iold.World.{World}
use iold.Hub.{Client, Model, Config, Reply, get_json}
use iold.Hub.Requests.{returned, get_model, get_config_at_revision, search_models}
use iold.Supervisor.Identity.Indifferent.{IsIndifferent}

module _ {D : Type 0} (h : Host) (P : World D h.Os → Type 0) (i : IsIndifferent h P)
    (c : Client) where
  returned-Keeps : {A : Type 0} (what : Text) (r : Result A) → Keeps P (returned h c what r)
  unfolding returned
  returned-Keeps what (ok a) = Keeps-pure _
  returned-Keeps what (err f) = Keeps-raise _

  pub get_model-Keeps : (id : Text) → Keeps P (get_model h c id)
  unfolding get_model
  get_model-Keeps id =
      Keeps-bind _ _ (i.asks (Reply Model) (h.hub_model c id)) (λ r. returned-Keeps _ (get_json r))

  pub get_config-Keeps : (id revision : Text) → Keeps P (get_config_at_revision h c id revision)
  unfolding get_config_at_revision
  get_config-Keeps id revision = Keeps-if (is_empty revision) _ _ (Keeps-raise _) (
      Keeps-bind _ _ (i.asks (Reply Config) (h.hub_config c id revision))
        λ r. Keeps-bind _ _ (returned-Keeps _ (get_json r)) (λ config. Keeps-pure _))

  pub search_models-Keeps : (query : Text) (limit : ℕ) → Keeps P (search_models h c query limit)
  unfolding search_models
  search_models-Keeps query limit =
      Keeps-bind _ _ (i.asks (Reply (List Model)) (h.hub_search c query limit))
        (λ r. returned-Keeps _ (get_json r))
