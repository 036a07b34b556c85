-- ===== src/Prelude/Assoc.antt =====
-- Maps with texts as keys, as association lists. The order of an unordered map is that of the list.
use Prim.Native.String.{String}
use mathlib.Core.Path.{◌≡◌, refl}
use mathlib.Core.List.{List, [], ◌∷◌}
use mathlib.Core.Option.{Option, none, some}
use native.Mathlib.Omega.{arith}
use text.Mathlib.Text.{◌==◌ as str_eq}
use text.Mathlib.TextEquality.{eq_iff}
use sentinel_cpp.Prelude.Tests.{if◌then◌else◌}

-- The value of the first pair with the name.
abbrev pub lookup {ℓ} : {V : Type ℓ} → String → List (String × V) → Option V
lookup name [] = none
lookup name (pair ∷ rest) = if str_eq pair.0 name then some pair.1 else lookup name rest

-- An overwriting in place, or a new pair at the end.
abbrev pub insert {ℓ} : {V : Type ℓ} → String → V → List (String × V) → List (String × V)
insert name value [] = (name, value) ∷ []
insert name value (pair ∷ rest) =
    if str_eq pair.0 name then (pair.0, value) ∷ rest else pair ∷ insert name value rest

pub lookup-insert {ℓ} :
    {V : Type ℓ} (written asked : String) (value : V) (pairs : List (String × V))
    → lookup asked (insert written value pairs)
      ≡ (if str_eq written asked then some value else lookup asked pairs)
lookup-insert written asked value [] = refl
lookup-insert written asked value (pair ∷ rest) = ground (
  arith,
  lookup-insert written asked value rest,
  eq_iff pair.0 written,
  eq_iff pair.0 asked,
  eq_iff written asked,
)
