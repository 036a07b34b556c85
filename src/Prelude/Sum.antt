-- ===== src/Prelude/Sum.antt =====
-- Sums of the weights of those elements of a list that pass a test, and sums over a range.
use Prim.Native.Nat.{ℕ, zero, suc, ◌+◌, ◌≤◌, ◌<◌}
use mathlib.Core.Path.{◌≡◌, refl, ap₂, ◌∙◌}
use mathlib.Core.Bool.{Bool, true, false, ◌&&◌}
use mathlib.Core.List.{List, [], ◌∷◌}
use native.Mathlib.Omega.{arith}
use sentinel_cpp.Prelude.Tests.{◌==◌, if◌then◌else◌}
use sentinel_cpp.Prelude.Lists.{All}

-- `range_sum i n f` is f i + f (i + 1) + … + f (i + n - 1).
abbrev pub range_sum : ℕ → ℕ → (ℕ → ℕ) → ℕ
range_sum i zero f = 0
range_sum i (suc n) f = f i + range_sum (suc i) n f

pub range_sum-add :
    (i n : ℕ) (f g : ℕ → ℕ) → range_sum i n (λ j. f j + g j) ≡ range_sum i n f + range_sum i n g
range_sum-add i zero f g = omega arith
range_sum-add i (suc n) f g = omega (arith, range_sum-add (suc i) n f g)

-- One summand at most is not zero: the one at `r`.
pub range_sum_single :
    (i n r w : ℕ) → i ≤ r → r < i + n → range_sum i n (λ j. if r == j then w else 0) ≡ w
range_sum_single i zero r w l u = absurd (omega arith)
range_sum_single i (suc n) r w l u = ground (arith, range_sum_single (suc i) n r w, past (suc i) n)
  where
    past : (j m : ℕ) → r < j → range_sum j m (λ k. if r == k then w else 0) ≡ 0
    past j zero h = refl
    past j (suc m) h = ground (arith, past (suc j) m (omega arith))

pub range_sum_zero : (i n : ℕ) → range_sum i n (λ j. 0) ≡ 0
range_sum_zero i zero = refl
range_sum_zero i (suc n) = omega (arith, range_sum_zero (suc i) n)

module _ {ℓ} {A : Type ℓ} (weight : A → ℕ) where
  abbrev pub sum_if : (A → Bool) → List A → ℕ
  sum_if p [] = 0
  sum_if p (x ∷ xs) = (if p x then weight x else 0) + sum_if p xs

  pub sum_if_congr :
      (p q : A → Bool) (xs : List A) → All (λ x. p x ≡ q x) xs → sum_if p xs ≡ sum_if q xs
  sum_if_congr p q [] h = refl
  sum_if_congr p q (x ∷ xs) h = ground (arith, sum_if_congr p q xs h.1)

  pub sum_if_none : (p : A → Bool) (xs : List A) → All (λ x. p x ≡ false) xs → sum_if p xs ≡ 0
  sum_if_none p [] h = refl
  sum_if_none p (x ∷ xs) h = ground (arith, sum_if_none p xs h.1)

  -- Split by a residue: the parts add up to the whole.
  pub sum_if-split :
      (p : A → Bool) (r : A → ℕ) (n : ℕ) (xs : List A)
      → All (λ x. r x < n) xs
      → range_sum 0 n (λ j. sum_if (λ x. p x && (r x == j)) xs) ≡ sum_if p xs
  sum_if-split p r n [] h = range_sum_zero 0 n
  sum_if-split p r n (x ∷ xs) h =
      range_sum-add 0 n (λ j. if p x && (r x == j) then weight x else 0)
        (λ j. sum_if (λ y. p y && (r y == j)) xs)
      ∙ ap₂ ◌+◌ (head (p x)) (sum_if-split p r n xs h.1)
    where
      head :
          (b : Bool)
          → range_sum 0 n (λ j. if b && (r x == j) then weight x else 0)
            ≡ (if b then weight x else 0)
      head true = range_sum_single 0 n (r x) (weight x) (omega arith) (omega (arith, h.0))
      head false = range_sum_zero 0 n
