-- ===== src/Stat/Leap/Lookup.antt =====
-- Reads and writes of the ring's array.
use sentinel_cpp.Prelude.{
  ℕ, zero, suc, ◌<◌, ◌≡◌, ◌≢◌, refl, ap, Option, some, List, [], ◌∷◌, length, set, arith,
}
use sentinel_cpp.Stat.Leap.{Window, LeapArray, load, slot, update}

module _ {ℓ} {V : Type ℓ} where
  pub load-set_self :
      (xs : List (Option (Window V))) (i : ℕ) (o : Option (Window V))
      → i < length xs
      → load (set xs i o) i ≡ o
  load-set_self [] i o h = elim h [ ]
  load-set_self (x ∷ xs) zero o h = refl
  load-set_self (x ∷ xs) (suc i) o h = load-set_self xs i o (omega arith)

  pub load-set_ne :
      (xs : List (Option (Window V))) (i j : ℕ) (o : Option (Window V))
      → i ≢ j
      → load (set xs i o) j ≡ load xs j
  load-set_ne [] i j o h = refl
  load-set_ne (x ∷ xs) zero zero o h = absurd (h refl)
  load-set_ne (x ∷ xs) zero (suc j) o h = refl
  load-set_ne (x ∷ xs) (suc i) zero o h = refl
  load-set_ne (x ∷ xs) (suc i) (suc j) o h = load-set_ne xs i j o (λ e. h (ap suc e))

module _ {ℓ} {V : Type ℓ} where
  -- A write through a handle to a slot that holds a window.
  pub update_slot :
      (f : V → V) (i : ℕ) (w : Window V) (b : LeapArray V)
      → load b.array i ≡ some w
      → update f (slot i) b
        ≡ record b { array = set b.array i (some (record w { value = f w.value })) }
  unfolding update
  update_slot f i w b e = rw (e, update)
