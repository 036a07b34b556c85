-- ===== src/Property.antt =====
-- sentinel-core/property/dynamic_sentinel_property.h: a value with listeners. A listener is the
-- update that it makes to the state `S` of its owner.
mod Laws
mod Tests
use sentinel_cpp.Prelude.{
  Option, none, some, ℕ, if◌then◌else◌, Bool, true, false, List, [], ◌∷◌, String, str_eq,
}

pub record DynamicSentinelProperty (T S : Type 0) : Type 0 where
  pub last_value : T
  pub listeners : List (String × (T → S → S))

module _ {T S : Type 0} where
  -- `emplace`, which keeps a listener of that name.
  pub add_to : String → (T → S → S) → List (String × (T → S → S)) → List (String × (T → S → S))
  add_to name l [] = (name, l) ∷ []
  add_to name l ((k, l') ∷ ls) =
      let rest = add_to name l ls in if str_eq k name then (k, l') ∷ ls else (k, l') ∷ rest

  unfoldable pub add_listener :
      String → (T → S → S) → DynamicSentinelProperty T S → DynamicSentinelProperty T S
  unfolding add_to
  add_listener name l p = record p { listeners = add_to name l p.listeners }

  pub remove_from : String → List (String × (T → S → S)) → List (String × (T → S → S))
  remove_from name [] = []
  remove_from name ((k, l) ∷ ls) =
      let rest = remove_from name ls in if str_eq k name then rest else (k, l) ∷ rest

  unfoldable pub remove_listener :
      String → DynamicSentinelProperty T S → DynamicSentinelProperty T S
  unfolding remove_from
  remove_listener name p = record p { listeners = remove_from name p.listeners }

  -- RegisterToProperty of a rule manager, at its property and another one, `none` if that is null: the
  -- property that it leaves, and the one that it then has.
  unfoldable pub register_to_property :
      String
      → (T → S → S)
      → DynamicSentinelProperty T S
      → Option (DynamicSentinelProperty T S)
      → DynamicSentinelProperty T S × DynamicSentinelProperty T S
  unfolding add_listener remove_listener
  register_to_property name l cur none = (cur, cur)
  register_to_property name l cur (some p) = (remove_listener name cur, add_listener name l p)

  -- The listeners' `ConfigUpdate` in turn.
  abbrev pub notify : List (String × (T → S → S)) → T → S → S
  notify [] v s = s
  notify ((k, l) ∷ ls) v s = notify ls v (l v s)

  -- `eq` is the `==` of the values.
  unfoldable pub update_value :
      (T → T → Bool) → T → DynamicSentinelProperty T S → S → Bool × DynamicSentinelProperty T S × S
  update_value eq v p s =
      if eq p.last_value v
      then (false, p, s)
      else (true, record p { last_value = v }, notify p.listeners v s)
