-- ===== src/Log/Disk/Laws.antt =====
-- A file holds what was last written to it.
use mathlib.Core.Path.{subst}
use sentinel_cpp.Prelude.{
  ◌<◌, ◌≡◌, refl, ◌∙◌, arith, true, false, if◌then◌else◌, none, some, [], ◌∷◌, length, Bool-cases,
  inl, inr,
}
use sentinel_cpp.Log.Format.{Text}
use sentinel_cpp.Log.Text.{text_eq}
use sentinel_cpp.Log.Disk.{Disk, read_file, write_file, remove_file}

pub text_eq-eq : (s t : Text) → text_eq s t ≡ true → s ≡ t
text_eq-eq [] [] h = refl
text_eq-eq (a ∷ s) (b ∷ t) h = ground (arith, text_eq-eq s t)
text_eq-eq [] (b ∷ t) h = absurd (cc)
text_eq-eq (a ∷ s) [] h = absurd (cc)

pub text_eq_self : (s : Text) → text_eq s s ≡ true
text_eq_self [] = refl
text_eq_self (a ∷ s) = ground (arith, text_eq_self s)

pub text_eq_shorter : (s t : Text) → length s < length t → text_eq s t ≡ false
text_eq_shorter [] [] h = absurd (omega (arith, h))
text_eq_shorter [] (b ∷ t) h = refl
text_eq_shorter (a ∷ s) [] h = refl
text_eq_shorter (a ∷ s) (b ∷ t) h = ground (arith, text_eq_shorter s t)

pub text_eq_longer : (s t : Text) → length t < length s → text_eq s t ≡ false
text_eq_longer [] [] h = absurd (omega (arith, h))
text_eq_longer [] (b ∷ t) h = refl
text_eq_longer (a ∷ s) [] h = refl
text_eq_longer (a ∷ s) (b ∷ t) h = ground (arith, text_eq_longer s t)

pub read-write_self :
    (path text : Text) (disk : Disk) → read_file path (write_file path text disk) ≡ some text
unfolding read_file write_file
read-write_self path text [] = rw (text_eq_self path) refl
read-write_self path text ((p, content) ∷ files) = elim (Bool-cases (text_eq p path)) [
  | inl e ↦ ground (arith, e)
  | inr e ↦ rw (e, e) (read-write_self path text files)
]

pub read-write_other :
    (path other text : Text) (disk : Disk)
    → text_eq path other ≡ false
    → read_file other (write_file path text disk) ≡ read_file other disk
unfolding read_file write_file
read-write_other path other text [] h = rw h refl
read-write_other path other text ((p, content) ∷ files) h = elim (Bool-cases (text_eq p path)) [
  | inl e ↦
      let apart : text_eq p other ≡ false = rw (text_eq-eq p path e) h in ground (arith, e, apart)
  | inr e ↦ rw e (ground (arith, read-write_other path other text files h))
]

pub read-remove :
    (p path : Text) (disk : Disk)
    → read_file p (remove_file path disk) ≡ (if text_eq p path then none else read_file p disk)
unfolding read_file remove_file
read-remove p path [] = ground arith
read-remove p path ((q, content) ∷ files) = elim (Bool-cases (text_eq q path)) [
  | inl e ↦ elim (Bool-cases (text_eq p path)) [
    | inl h ↦ rw (remove_file, e) (read-remove p path files ∙ rw h refl)
    | inr h ↦
        let apart : text_eq q p ≡ false = elim (Bool-cases (text_eq q p)) [
          | inl g ↦
              absurd (ground (arith, h, subst (λ x. text_eq x path ≡ true) (text_eq-eq q p g) e))
          | inr g ↦ g
        ] in
        rw (remove_file, e) (read-remove p path files ∙ rw (h, apart) refl)
  ]
  | inr e ↦ elim (Bool-cases (text_eq q p)) [
    | inl g ↦
        let apart : text_eq p path ≡ false =
          subst (λ x. text_eq x path ≡ false) (text_eq-eq q p g) e in
        rw (remove_file, e) (rw (g, apart) refl)
    | inr g ↦ rw (remove_file, e) (rw g (read-remove p path files))
  ]
]
