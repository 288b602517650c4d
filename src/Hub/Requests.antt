-- ===== src/Hub/Requests.antt =====
-- `GetModel`, `GetConfigAtRevision` and `Search` of internal/hf/hf.go.
pub mod Keeps
pub mod Answered
use iold.Base.{ℕ, Bool, true, false, List, [], ◌∷◌, Text, codes, is_empty, if◌then◌else◌}
use iold.Fault.{Fault, Result, ok, err, wrapped, no_revision}
use iold.Action.{Action, pure, raise, catch, ◌>>=◌}
use iold.Host.{Host}
use iold.World.{World, ask}
use iold.Hub.{Client, Model, Fields, Config, Reply, get_json, resolved, top}

module _ {D : Type 0} (h : Host) (c : Client) where
  -- A result of a call as an action.
  returned : {A : Type 0} → Text → Result A → Action (World D h.Os) A
  returned what (ok a) = pure a
  returned what (err f) = raise (wrapped what f)

  unfoldable pub get_model : Text → Action (World D h.Os) Model
  unfolding returned
  get_model id = do reply ← ask (h.hub_model c id); returned (codes "resolve") (get_json reply)

  -- The fields of the resolved config at its top are all that its readers use.
  unfoldable pub get_config_at_revision : Text → Text → Action (World D h.Os) Fields
  unfolding returned
  get_config_at_revision id revision = if is_empty revision then raise no_revision else (do
    reply ← ask (h.hub_config c id revision)
    config ← returned (codes "config") (get_json reply)
    pure (top (resolved config)))

  unfoldable pub search_models : Text → ℕ → Action (World D h.Os) (List Model)
  unfolding returned
  search_models query limit = do
    reply ← ask (h.hub_search c query limit)
    returned (codes "search") (get_json reply)
