-- ===== src/Transport.antt =====
-- sentinel-core/transport/command: command_request.h and .cc, command_response.h: what a command
-- gets and answers. Texts are lists of bytes, and an unordered map is a list of pairs.
pub mod Uri
pub mod Handlers
pub mod Center
mod Tests
use sentinel_cpp.Prelude.{
  ◌≡◌, refl, arith, if◌then◌else◌, Bool, true, false, Option, none, some, List, [], ◌∷◌,
}
pub use sentinel_cpp.Log.Format.{codes}
use sentinel_cpp.Log.Format.{Text, codes}
use sentinel_cpp.Log.Text.{text_eq}

-- `find` on a map.
abbrev pub find_key {ℓ} : {V : Type ℓ} → Text → List (Text × V) → Option V
find_key key [] = none
find_key key (pair ∷ m) = if text_eq pair.0 key then some pair.1 else find_key key m

-- `m[key] = value`
abbrev pub put_key {ℓ} : {V : Type ℓ} → Text → V → List (Text × V) → List (Text × V)
put_key key value [] = (key, value) ∷ []
put_key key value (pair ∷ m) =
    if text_eq pair.0 key then (pair.0, value) ∷ m else pair ∷ put_key key value m

pub record CommandRequest : Type 0 where
  pub metadata : List (Text × Text)
  pub parameters : List (Text × Text)
  pub body : Text

abbrev pub new_request : CommandRequest
new_request = record { metadata = []; parameters = []; body = [] }

abbrev pub set_body : Text → CommandRequest → CommandRequest
set_body body request = record request { body = body }

-- The second form of GetParam.
unfoldable pub get_param_or : Text → Text → CommandRequest → Text
get_param_or key default_value request = elim (find_key key request.parameters) [
  | none ↦ default_value
  | some value ↦ value
]

unfoldable pub get_param : Text → CommandRequest → Text
get_param key request = elim (find_key key request.parameters) [ none ↦ [] | some value ↦ value ]

unfoldable pub get_metadata : Text → CommandRequest → Text
get_metadata key request = elim (find_key key request.metadata) [ none ↦ [] | some value ↦ value ]

unfoldable pub add_param : Text → Text → CommandRequest → CommandRequest
add_param key value request =
    if text_eq key []
    then request
    else record request { parameters = put_key key value request.parameters }

unfoldable pub add_metadata : Text → Text → CommandRequest → CommandRequest
add_metadata key value request =
    if text_eq key []
    then request
    else record request { metadata = put_key key value request.metadata }

abbrev pub request_target : Text
request_target = codes "command-target"

pub record CommandResponse : Type 0 where
  pub success : Bool
  pub result : Text

abbrev pub of_success : Text → CommandResponse
of_success result = record { success = true; result = result }

abbrev pub of_failure : Text → CommandResponse
of_failure result = record { success = false; result = result }
