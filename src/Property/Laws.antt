-- ===== src/Property/Laws.antt =====
-- When a property notifies its listeners.
use sentinel_cpp.Prelude.{
  some, refl, if◌then◌else◌, ◌≡◌, arith, Bool, true, false, String, List, [], ◌∷◌, str_eq, eq_iff,
}
use sentinel_cpp.Property.{
  DynamicSentinelProperty, update_value, notify, add_listener, remove_listener,
  register_to_property, add_to, remove_from,
}

-- Where `==` holds between the new value and itself: an update leaves the new value or one equal to
-- it as the last one, notifies the listeners exactly if it returns true, and repeating it changes nothing.
pub update_value_twice :
    {T S : Type 0} (eq : T → T → Bool) (v : T) (p : DynamicSentinelProperty T S) (s : S)
    → eq v v ≡ true
    → let (changed, p', s') = update_value eq v p s in
      (eq p'.last_value v ≡ true)
      × (changed ≡ false → s' ≡ s)
      × (changed ≡ true → s' ≡ notify p.listeners v s)
      × (update_value eq v p' s' ≡ (false, p', s'))
unfolding update_value
update_value_twice eq v p s h = ground arith

-- The listeners of a name.
abbrev pub listeners_named :
    {T S : Type 0} → String → List (String × (T → S → S)) → List (T → S → S)
listeners_named name [] = []
listeners_named name ((k, l) ∷ ls) =
    let rest = listeners_named name ls in if str_eq k name then l ∷ rest else rest

module _ {T S : Type 0} where
  add_to-remove_from :
      (name : String) (l : T → S → S) (ls : List (String × (T → S → S)))
      → listeners_named name (add_to name l (remove_from name ls)) ≡ l ∷ []
  unfolding add_to remove_from
  add_to-remove_from name l [] = ground (arith, eq_iff name name)
  add_to-remove_from name l ((k, f) ∷ ls) =
      ground (arith, eq_iff k name, add_to-remove_from name l ls)

  -- After the listener of a name is removed and another added under it, the other is the only one of
  -- that name.
  pub remove_then_add :
      (name : String) (l : T → S → S) (p : DynamicSentinelProperty T S)
      → listeners_named name (add_listener name l (remove_listener name p)).listeners ≡ l ∷ []
  unfolding add_listener remove_listener
  remove_then_add name l p = add_to-remove_from name l p.listeners

  none-remove_from :
      (name : String) (ls : List (String × (T → S → S)))
      → listeners_named name (remove_from name ls) ≡ []
  unfolding remove_from
  none-remove_from name [] = refl
  none-remove_from name ((k, f) ∷ ls) = ground (arith, none-remove_from name ls)

  only-add_to :
      (name : String) (l : T → S → S) (ls : List (String × (T → S → S)))
      → listeners_named name ls ≡ []
      → listeners_named name (add_to name l ls) ≡ l ∷ []
  unfolding add_to
  only-add_to name l [] h = ground (arith, eq_iff name name)
  only-add_to name l ((k, f) ∷ ls) h = ground (arith, h, only-add_to name l ls)

  -- A manager that registers to another property, which has no listener of its name, is the only
  -- listener of that name there, and none is left at the property that it had.
  pub register_moves :
      (name : String) (l : T → S → S) (cur p : DynamicSentinelProperty T S)
      → listeners_named name p.listeners ≡ []
      → let (left, now) = register_to_property name l cur (some p) in
        (listeners_named name left.listeners ≡ []) × (listeners_named name now.listeners ≡ l ∷ [])
  unfolding register_to_property
  register_moves name l cur p h =
      (none-remove_from name cur.listeners, only-add_to name l p.listeners h)
