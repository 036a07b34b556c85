-- ===== src/Log/Text.antt =====
-- The tests on texts of the standard library and of absl/strings that the code of the metric files
-- uses, and the sorting.
use sentinel_cpp.Prelude.{
  ◌==◌, ltb, if◌then◌else◌, Bool, true, false, ◌&&◌, ◌||◌, List, [], ◌∷◌, Option, none, some,
}
use sentinel_cpp.Log.Format.{Text}

unfoldable pub starts_with : Text → Text → Bool
starts_with s [] = true
starts_with [] (p ∷ ps) = false
starts_with (c ∷ s) (p ∷ ps) = let rest = starts_with s ps in c == p && rest

-- What follows a text in front of another, if it is there.
unfoldable pub after : Text → Text → Option Text
after [] s = some s
after (p ∷ ps) [] = none
after (p ∷ ps) (c ∷ s) = let rest = after ps s in if c == p then rest else none

abbrev pub text_eq : Text → Text → Bool
text_eq [] [] = true
text_eq (a ∷ s) (b ∷ t) = let rest = text_eq s t in a == b && rest
text_eq _ _ = false

unfoldable pub ends_with : Text → Text → Bool
ends_with [] suffix = text_eq [] suffix
ends_with (c ∷ s) suffix = let rest = ends_with s suffix in text_eq (c ∷ s) suffix || rest

-- Whether `find` finds the text.
unfoldable pub has : Text → Text → Bool
unfolding starts_with
has [] part = starts_with [] part
has (c ∷ s) part = let rest = has s part in starts_with (c ∷ s) part || rest

-- Whether `compare` is negative.
unfoldable pub less : Text → Text → Bool
less s [] = false
less [] (b ∷ t) = true
less (a ∷ s) (b ∷ t) = let rest = less s t in if a == b then rest else ltb a b

module _ (before : Text → Text → Bool) where
  -- A sorting by insertion, for `std::sort`.
  unfoldable pub insert_sorted : Text → List Text → List Text
  insert_sorted x [] = x ∷ []
  insert_sorted x (y ∷ ys) =
      let rest = insert_sorted x ys in if before y x then y ∷ rest else x ∷ y ∷ ys

  unfoldable pub sort : List Text → List Text
  unfolding insert_sorted
  sort [] = []
  sort (x ∷ xs) = insert_sorted x (sort xs)
