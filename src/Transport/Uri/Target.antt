-- ===== src/Transport/Uri/Target.antt =====
-- The target and the parameters of a URI.
use sentinel_cpp.Prelude.{
  ℕ, zero, suc, ◌+◌, ◌^◌, ◌<◌, ◌≤◌, ◌≡◌, refl, ap, ◌∙◌, arith, if◌then◌else◌, true, false, Option,
  none, some, Option-cases, Bool-cases, inl, inr, List, [], ◌∷◌, ◌++◌, length, sub64,
}
use sentinel_cpp.Log.Format.{Text, IsPlain}
use sentinel_cpp.Log.Text.{text_eq}
use sentinel_cpp.Log.Disk.Laws.{text_eq-eq, text_eq_self}
use sentinel_cpp.Log.Stream.{drop}
use sentinel_cpp.Transport.{CommandRequest, find_key, put_key, get_param, add_param}
use sentinel_cpp.Transport.Uri.{find_byte, find_last_byte, take, substr, target_of, add_params}

find_byte-append :
    (c : ℕ) (s rest : Text) → IsPlain c s → find_byte c (s ++ c ∷ rest) ≡ some (length s)
unfolding find_byte
find_byte-append c [] rest h = ground arith
find_byte-append c (x ∷ s) rest h = rw (h.0, find_byte-append c s rest h.1) (ap some (omega arith))

find_byte-IsPlain : (c : ℕ) (s : Text) → IsPlain c s → find_byte c s ≡ none
unfolding find_byte
find_byte-IsPlain c [] h = refl
find_byte-IsPlain c (x ∷ s) h = rw (h.0, find_byte-IsPlain c s h.1) refl

find_last_byte-IsPlain : (c : ℕ) (s : Text) → IsPlain c s → find_last_byte c s ≡ none
unfolding find_last_byte
find_last_byte-IsPlain c [] h = refl
find_last_byte-IsPlain c (x ∷ s) h = rw (find_last_byte-IsPlain c s h.1, h.0) refl

take-append : (s rest : Text) → take (length s) (s ++ rest) ≡ s
unfolding take
take-append [] [] = refl
take-append [] (c ∷ rest) = refl
take-append (c ∷ s) rest = ap (◌∷◌ c) (take-append s rest)

find_byte-lt : (c : ℕ) (s : Text) (i : ℕ) → find_byte c s ≡ some i → i < length s
unfolding find_byte
find_byte-lt c [] i h = absurd (ground (arith, h))
find_byte-lt c (x ∷ s) i h = elim (Option-cases (find_byte c s)) [
  | inl e ↦ ground (arith, h, e)
  | inr (j, e) ↦ ground (arith, h, e, find_byte-lt c s j e)
]

substr_lem :
    (s : Text) (pos count : ℕ)
    → pos ≤ length s
    → substr s pos count ≡ some (take count (drop pos s))
unfolding substr
substr_lem s pos count h = ground arith

take_all : (n : ℕ) (s : Text) → length s ≤ n → take n s ≡ s
unfolding take
take_all n [] h = refl
take_all zero (c ∷ s) h = absurd (omega (arith, h))
take_all (suc n) (c ∷ s) h = ap (◌∷◌ c) (take_all n s (omega (arith, h)))

-- `substr` never throws here.
abbrev count_of : Text → ℕ
count_of uri =
    elim (elim (find_byte b'?' uri) as (λ _. Option ℕ) [
      | none ↦ find_last_byte b' ' uri
      | some i ↦ some i
    ]) [ none ↦ length uri | some i ↦ sub64 i 1 ]

pub target_total : (uri : Text) → (target : Text) × (target_of uri ≡ some target)
unfolding target_of
target_total uri = elim (Option-cases (find_byte b'/' uri)) [
  | inl e ↦ (take (count_of uri) uri, rw e (substr_lem uri 0 (count_of uri) (omega arith)))
  | inr (i, e) ↦ (
    take (count_of uri) (drop (i + 1) uri),
    rw e (substr_lem uri (i + 1) (count_of uri) (omega (arith, find_byte-lt b'/' uri i e))),
  )
]

-- The target of a path with a query behind it, and of one without.
pub target_of_path :
    (name query : Text)
    → IsPlain b'?' name
    → length name < 2 ^ 63
    → target_of (b'/' ∷ name ++ b'?' ∷ query) ≡ some name
unfolding target_of find_byte
target_of_path name query h lt =
    let size : sub64 (length name + 1) 1 ≡ length name = omega (arith, lt) in
    rw (find_byte-append b'?' name query h) (
      substr_lem (b'/' ∷ name ++ b'?' ∷ query) 1 (sub64 (length name + 1) 1) (omega arith)
      ∙ ap some (rw size (take-append name (b'?' ∷ query))))

pub target_of_bare_path :
    (name : Text) → IsPlain b'?' name → IsPlain b' ' name → target_of (b'/' ∷ name) ≡ some name
unfolding target_of find_byte find_last_byte
target_of_bare_path name h k =
    rw (find_byte-IsPlain b'?' name h, find_last_byte-IsPlain b' ' name k)
      (substr_lem (b'/' ∷ name) 1 (suc (length name)) (omega arith)
        ∙ ap some (take_all (suc (length name)) name (omega arith)))

-- The last value of a parameter.
unfoldable pub last_value : Text → List (Text × Text) → Option Text
last_value key [] = none
last_value key ((k, v) ∷ params) = elim (last_value key params) [
  | some later ↦ some later
  | none ↦ if text_eq k key then some v else none
]

same_test : (a b c : Text) → text_eq a b ≡ true → text_eq a c ≡ text_eq b c
same_test a b c h = rw (text_eq-eq a b h) refl

joined : (a b c : Text) → text_eq a c ≡ true → text_eq b c ≡ true → text_eq a b ≡ true
joined a b c h k = rw (text_eq-eq a c h, text_eq-eq b c k) (text_eq_self c)

pub find_key-put_key :
    {V : Type 0} (written asked : Text) (value : V) (m : List (Text × V))
    → find_key asked (put_key written value m)
      ≡ (if text_eq written asked then some value else find_key asked m)
find_key-put_key written asked value [] = refl
find_key-put_key written asked value (pair ∷ m) = ground (
  arith,
  same_test pair.0 written asked,
  joined pair.0 written asked,
  find_key-put_key written asked value m,
)

pub add_params-metadata :
    (params : List (Text × Text)) (r : CommandRequest) → (add_params params r).metadata ≡ r.metadata
unfolding add_params add_param
add_params-metadata [] r = refl
add_params-metadata ((key, value) ∷ params) r =
    add_params-metadata params (add_param key value r) ∙ added
  where
    added : (add_param key value r).metadata ≡ r.metadata
    added = ground arith

get_param-add_param :
    (key k v : Text) (r : CommandRequest)
    → text_eq key [] ≡ false
    → get_param key (add_param k v r) ≡ (if text_eq k key then v else get_param key r)
unfolding get_param add_param
get_param-add_param [] k v r h = absurd (cc)
get_param-add_param (c ∷ cs) k v r h = elim (Bool-cases (text_eq k [])) [
  | inl e ↦ rw (text_eq-eq k [] e) refl
  | inr e ↦ rw (e, get_param, find_key-put_key k (c ∷ cs) v r.parameters) (ground arith)
]

-- A request has the last value that the URI gives a parameter.
pub get_param-add_params :
    (key : Text) (params : List (Text × Text)) (r : CommandRequest)
    → text_eq key [] ≡ false
    → get_param key (add_params params r)
      ≡ elim (last_value key params) [ some v ↦ v | none ↦ get_param key r ]
unfolding add_params last_value
get_param-add_params key [] r h = refl
get_param-add_params key ((k, v) ∷ params) r h =
    ground
      (arith, get_param-add_params key params (add_param k v r) h, get_param-add_param key k v r h)
