-- ===== src/Property/Tests.antt =====
-- A property that holds a number, and whose listener stores it.
use sentinel_cpp.Prelude.{some, ℕ, ◌≡◌, refl, Bool, true, false, ◌==◌, [], ◌∷◌}
use sentinel_cpp.Property.{DynamicSentinelProperty, update_value, register_to_property}
use sentinel_cpp.Property.Laws.{listeners_named}

abbrev sizes : DynamicSentinelProperty ℕ ℕ
sizes = record { last_value = 3; listeners = ("store", λ v s. v) ∷ [] }

abbrev updated : Bool × DynamicSentinelProperty ℕ ℕ × ℕ
updated = update_value ◌==◌ 8 sizes 3

-- The second update with the same value is none.
twice :
    (updated.0 ≡ true) × (update_value ◌==◌ 8 updated.1 updated.2 ≡ (false, updated.1, updated.2))
unfolding update_value
twice = (refl, refl)

abbrev other : DynamicSentinelProperty ℕ ℕ
other = record { last_value = 0; listeners = [] }

abbrev moved : DynamicSentinelProperty ℕ ℕ × DynamicSentinelProperty ℕ ℕ
moved = register_to_property "store" (λ v s. v) sizes (some other)

moved_listeners :
    (listeners_named "store" moved.0.listeners ≡ [])
    × (listeners_named "store" moved.1.listeners ≡ (λ v s. v) ∷ [])
unfolding register_to_property
moved_listeners = (refl, refl)
