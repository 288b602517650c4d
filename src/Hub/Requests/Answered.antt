-- ===== src/Hub/Requests/Answered.antt =====
-- What the requests return is what the hub answered.
use iold.Base.{◌≡◌, refl, false, is_empty, Text, codes}
use iold.Fault.{Result, ok, err, wrapped}
use iold.Action.{pure, raise, attempt, ◌>>=◌}
use iold.Action.Yields.{
  Yields, Yields-pure, Yields-raise, Yields-bind, Yields-ask, Yields-map, Answers,
}
use iold.Host.{Host}
use iold.World.{World, ask}
use iold.Hub.{Client, Model, Fields, Config, Reply, get_json, resolved, top}
use iold.Hub.Requests.{returned, get_model, get_config_at_revision}

module _ (h : Host) (c : Client) where
  returned-Yields :
      {D A : Type 0} (what : Text) (r : Result A)
      → Yields (λ a. r ≡ ok a) (returned {D = D} h c what r)
  unfolding returned
  returned-Yields what (ok a) = Yields-pure a refl
  returned-Yields what (err f) = Yields-raise _

  -- The hub answered the request for `id` with this model.
  pub record IsModel (id : Text) (model : Model) : Type 0 where
    pub reply : Reply Model
    pub answered : Answers (h.hub_model c id) reply
    pub read : get_json reply ≡ ok model

  pub get_model-Yields : {D : Type 0} (id : Text) → Yields (IsModel id) (get_model {D = D} h c id)
  unfolding get_model
  get_model-Yields id = Yields-bind _ _ (Yields-ask (h.hub_model c id)) λ reply a.
      Yields-map (returned-Yields (codes "resolve") (get_json reply))
        (λ model e. record { reply = reply; answered = a; read = e })

  -- What the client makes of an answer to the request for a config.
  abbrev pub config_result : Result Config → Result Fields
  config_result (ok config) = ok (top (resolved config))
  config_result (err f) = err (wrapped (codes "config") f)

  -- `found` is what the client makes of what the hub answered for the config at the revision.
  pub record IsConfigResult (id revision : Text) (found : Result Fields) : Type 0 where
    pub reply : Reply Config
    pub answered : Answers (h.hub_config c id revision) reply
    pub is : found ≡ config_result (get_json reply)

  after_config :
      {D : Type 0} (r : Result Config) (w : World D h.Os)
      → (◌>>=◌
          (returned {D = D} h c (codes "config") r)
          (λ config. pure (top (resolved config)))
          w).0
        ≡ config_result r
  unfolding returned ◌>>=◌ pure raise
  after_config (ok config) w = refl
  after_config (err f) w = refl

  pub attempt-get_config :
      {D : Type 0} (id revision : Text)
      → is_empty revision ≡ false
      → Yields
          (IsConfigResult id revision)
          (attempt (get_config_at_revision {D = D} h c id revision))
  unfolding get_config_at_revision attempt ◌>>=◌ ask
  attempt-get_config id revision t = record {
    at = λ w. record {
      reply = (h.hub_config c id revision w.os).0;
      answered = (w.os, refl);
      is = rw t (after_config (get_json (h.hub_config c id revision w.os).0) _);
    };
  }
