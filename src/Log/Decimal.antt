-- ===== src/Log/Decimal.antt =====
-- Decimal numbers as the streams of the standard library print them: an `int64_t` is the pattern of
-- its value.
use sentinel_cpp.Prelude.{
  ℕ, zero, suc, ◌+◌, ◌-◌, ◌*◌, ◌/◌, ◌%◌, ◌^◌, ◌<◌, ◌==◌, ltb, ◌≡◌, ◌∙◌, ap, arith, if◌then◌else◌,
  false, [], ◌∷◌, Bool-cases, inl, inr,
}
use sentinel_cpp.Log.Format.{Text, IsPlain}

-- The digits of a number below 10 ^ fuel, before `out`.
unfoldable pub digits : ℕ → ℕ → Text → Text
digits zero n out = out
digits (suc fuel) n out =
    let rest = digits fuel (n / 10) ((b'0' + n % 10) ∷ out) in
    if ltb n 10 then (b'0' + n) ∷ out else rest

unfoldable pub value : ℕ → Text → ℕ
value v [] = v
value v (c ∷ s) = value (v * 10 + (c - b'0')) s

pub tenth : (fuel n : ℕ) → n < 10 ^ suc fuel → ltb n 10 ≡ false → (n / 10 < 10 ^ fuel) × (0 < fuel)
tenth zero n h e = absurd (ground (arith, h, e))
tenth (suc fuel) n h e = (omega (arith, h), omega arith)

pub value-digits :
    (fuel n : ℕ) (out : Text) → n < 10 ^ fuel → 0 < fuel → value 0 (digits fuel n out) ≡ value n out
unfolding digits value
value-digits zero n out h k = absurd (omega arith)
value-digits (suc fuel) n out h k = elim (Bool-cases (ltb n 10)) [
  | inl e ↦ rw e (ap (λ v. value v out) (omega arith))
  | inr e ↦
      let (lt, pos) = tenth fuel n h e in
      rw e (
        value-digits fuel (n / 10) ((b'0' + n % 10) ∷ out) lt pos
        ∙ ap (λ v. value v out) (omega arith))
]

pub digits-IsPlain :
    (d fuel n : ℕ) (out : Text)
    → ((k : ℕ) → k < 10 → (b'0' + k == d) ≡ false)
    → IsPlain d out
    → IsPlain d (digits fuel n out)
unfolding digits
digits-IsPlain d zero n out apart h = h
digits-IsPlain d (suc fuel) n out apart h = elim (Bool-cases (ltb n 10)) [
  | inl e ↦ rw e (apart n (ground (arith, e)), h)
  | inr e ↦ rw e (
      digits-IsPlain d fuel (n / 10) ((b'0' + n % 10) ∷ out) apart
        (apart (n % 10) (omega arith), h))
]

pub digits-IsPlain_bar : (fuel n : ℕ) → IsPlain b'|' (digits fuel n [])
digits-IsPlain_bar fuel n = digits-IsPlain b'|' fuel n [] (λ k h. ground (arith, h)) tt

-- A negative number has a sign.
unfoldable pub print : ℕ → Text
unfolding digits
print n = if ltb n (2 ^ 63) then digits 20 n [] else b'-' ∷ digits 20 (2 ^ 64 - n) []
