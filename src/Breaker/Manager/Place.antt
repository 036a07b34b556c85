-- ===== src/Breaker/Manager/Place.antt =====
-- How a map from resources to breakers takes a breaker.
use sentinel_cpp.Prelude.{
  ℕ, ◌≡◌, refl, arith, if◌then◌else◌, Bool, true, false, ◌||◌, ◌==◌, Option, none, some, List, [],
  ◌∷◌, ◌++◌, String, str_eq, eq_iff, ◌<◌, All, lookup, insert, lookup-insert, Bool-cases, inl, inr,
}
use sentinel_cpp.Breaker.Manager.Reload.{ArePointers, ArePointers-lookup}

abbrev pub contains : ℕ → List ℕ → Bool
contains i [] = false
contains i (j ∷ js) = (i == j) || contains i js

contains-append :
    (i : ℕ) (xs ys : List ℕ) → contains i (xs ++ ys) ≡ (contains i xs || contains i ys)
contains-append i [] ys = refl
contains-append i (x ∷ xs) ys = ground (arith, contains-append i xs ys)

contains-snoc : (i j : ℕ) (xs : List ℕ) → contains i xs ≡ true → contains i (xs ++ j ∷ []) ≡ true
contains-snoc i j xs h = rw (contains-append i xs (j ∷ []), h) refl

contains_last : (j : ℕ) (xs : List ℕ) → contains j (xs ++ j ∷ []) ≡ true
contains_last j xs = ground (arith, contains-append j xs (j ∷ []))

-- The breakers of a resource in a map.
abbrev pub breakers_in : String → List (String × List ℕ) → List ℕ
breakers_in k m = elim (lookup k m) [ none ↦ [] | some cbs ↦ cbs ]

-- How the map takes a breaker.
abbrev pub place_breaker : ℕ → String → List (String × List ℕ) → List (String × List ℕ)
place_breaker j r m = elim (lookup r m) [
  | none ↦ insert r (j ∷ []) m
  | some vec ↦ insert r (vec ++ j ∷ []) m
]

or_empty : Option (List ℕ) → List ℕ
or_empty none = []
or_empty (some cbs) = cbs

lookup-place_breaker :
    (j : ℕ) (r k : String) (m : List (String × List ℕ))
    → lookup k (place_breaker j r m)
      ≡ (if str_eq r k then some (or_empty (lookup r m) ++ j ∷ []) else lookup k m)
unfolding or_empty
lookup-place_breaker j r k m = go (lookup r m)
  where
    go :
        (o : Option (List ℕ))
        → lookup k (elim o [ none ↦ insert r (j ∷ []) m | some vec ↦ insert r (vec ++ j ∷ []) m ])
          ≡ (if str_eq r k then some (or_empty o ++ j ∷ []) else lookup k m)
    go none = lookup-insert r k (j ∷ []) m
    go (some vec) = lookup-insert r k (vec ++ j ∷ []) m

breakers_in_empty :
    (k : String) (m : List (String × List ℕ)) → breakers_in k m ≡ or_empty (lookup k m)
unfolding or_empty
breakers_in_empty k m = go (lookup k m)
  where
    go : (o : Option (List ℕ)) → (elim o [ none ↦ [] | some cbs ↦ cbs ]) ≡ or_empty o
    go none = refl
    go (some cbs) = refl

pub place_breaker_keeps :
    (i j : ℕ) (r k : String) (m : List (String × List ℕ))
    → contains i (breakers_in k m) ≡ true
    → contains i (breakers_in k (place_breaker j r m)) ≡ true
unfolding or_empty
place_breaker_keeps i j r k m h =
    rw (breakers_in_empty k (place_breaker j r m), lookup-place_breaker j r k m)
      (elim (Bool-cases (str_eq r k)) [
        | inl e ↦ rw e (
            contains-snoc i j (or_empty (lookup r m))
              (rw ((eq_iff r k).0 e, ← breakers_in_empty k m) h))
        | inr e ↦ rw (e, ← breakers_in_empty k m) h
      ])

pub place_breaker_has :
    (j : ℕ) (r : String) (m : List (String × List ℕ))
    → contains j (breakers_in r (place_breaker j r m)) ≡ true
unfolding or_empty
place_breaker_has j r m =
    rw
      (breakers_in_empty r (place_breaker j r m), lookup-place_breaker j r r m, (eq_iff r r).1 refl)
      (contains_last j (or_empty (lookup r m)))

pub pointers_of :
    (k : String) (size : ℕ) (m : List (String × List ℕ))
    → ArePointers size m
    → All (λ i. i < size) (breakers_in k m)
pointers_of k size m p = go (lookup k m) (λ is e. ArePointers-lookup size k is m p e)
  where
    go :
        (o : Option (List ℕ))
        → ((is : List ℕ) → o ≡ some is → All (λ i. i < size) is)
        → All (λ i. i < size) (elim o as (λ _. List ℕ) [ none ↦ [] | some cbs ↦ cbs ])
    go none f = tt
    go (some is) f = f is refl
