-- ===== src/Hub.antt =====
-- internal/hf/hf.go: the metadata that the hub publishes, and the client that asks for it. Numbers are
-- bit patterns of 64 bits. A count of parameters is not negative.
pub mod Wire
pub mod Requests
use iold.Base.{
  ℕ, ◌==◌, ◌||◌, not, Bool, true, false, List, [], ◌∷◌, Text, is_empty, Option, none, some,
  if◌then◌else◌,
}
use iold.Fault.{
  Fault, Result, ok, err, wrapped, auth_required, hub_not_found, no_revision, system_failed,
}

pub record Gated : Type 0 where
  pub is_gated : Bool
  pub mode : Text

-- A JSON value, as far as `UnmarshalJSON` tells them apart.
pub data Json : Type 0 where
  json_null json_other : Json
  json_bool : Bool → Json
  json_string : Text → Json

-- `json.Unmarshal` of null leaves the bool as it is.
unfoldable pub unmarshal_gated : Json → Option Gated
unmarshal_gated json_null = some (record { is_gated = false; mode = [] })
unmarshal_gated (json_bool b) = some (record { is_gated = b; mode = [] })
unmarshal_gated (json_string s) = some (record { is_gated = true; mode = s })
unmarshal_gated json_other = none

unfoldable pub marshal_gated : Gated → Json
marshal_gated g =
    if not g.is_gated
    then json_bool false
    else if is_empty g.mode
    then json_bool true
    else json_string g.mode

-- The client of the hub, with its token; the empty text is no token.
pub record Client : Type 0 where
  pub base_url : Text
  pub token : Text

-- The census, in the order in which the map is walked; `none` is the null pointer. What nothing reads is left
-- out: private, pipeline_tag and the total of the census.
pub record Model : Type 0 where
  pub id : Text
  pub sha : Text
  pub gated : Gated
  pub downloads : ℕ
  pub tags : List Text
  pub safetensors : Option (List (Text × ℕ))

pub record Quantized : Type 0 where
  pub quant_method : Text
  pub bits : ℕ

pub record Fields : Type 0 where
  pub architectures : List Text
  pub model_type : Text
  pub num_hidden_layers : ℕ
  pub num_attention_heads : ℕ
  pub num_key_value_heads : ℕ
  pub hidden_size : ℕ
  pub head_dim : ℕ
  pub max_position_embeddings : ℕ
  pub quantization_config : Option Quantized

-- `nested` is a config with a text_config.
pub data Config : Type 0 where
  flat : Fields → Config
  nested : Fields → Config → Config

abbrev pub top : Config → Fields
top (flat f) = f
top (nested f c) = f

abbrev or_list : List Text → List Text → List Text
or_list [] outer = outer
or_list (a ∷ l) outer = a ∷ l

abbrev or_text : Text → Text → Text
or_text [] outer = outer
or_text (a ∷ l) outer = a ∷ l

abbrev or_option : Option Quantized → Option Quantized → Option Quantized
or_option none outer = outer
or_option (some q) outer = some q

abbrev pub inherit : Fields → Fields → Fields
inherit outer inner = record inner {
  architectures = or_list inner.architectures outer.architectures;
  model_type = or_text inner.model_type outer.model_type;
  quantization_config = or_option inner.quantization_config outer.quantization_config;
}

abbrev pub inheriting : Fields → Config → Config
inheriting outer (flat f) = flat (inherit outer f)
inheriting outer (nested f c) = nested (inherit outer f) c

unfoldable pub resolved : Config → Config
resolved (flat f) = flat f
resolved (nested f c) =
    let inner = resolved c in if f.num_hidden_layers == 0 then inheriting f inner else nested f c

-- What comes back from a request: the status, and what `json.Unmarshal` makes of the body.
pub data Reply (A : Type 0) : Type 0 where
  no_reply : Reply A
  replied : (status : ℕ) (body : Option A) → Reply A

decoded : {A : Type 0} → Option A → Result A
decoded none = err system_failed
decoded (some a) = ok a

unfoldable pub get_json : {A : Type 0} → Reply A → Result A
unfolding decoded
get_json no_reply = err system_failed
get_json (replied status body) =
    if status == 401 || status == 403
    then err auth_required
    else if status == 404
    then err hub_not_found
    else if not (status == 200)
    then err system_failed
    else decoded body
