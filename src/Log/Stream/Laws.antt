-- ===== src/Log/Stream/Laws.antt =====
-- Numbers that were printed are read back, and a reading never goes back.
use sentinel_cpp.Prelude.{
  ℕ, zero, suc, ◌+◌, ◌/◌, ◌%◌, ◌^◌, ◌<◌, ◌==◌, ltb, ◌≡◌, refl, ◌∙◌, arith, true, false, [], ◌∷◌,
  ◌++◌, Bool-cases, inl, inr, tests, lt→ltb,
}
use sentinel_cpp.Log.Format.{Text}
use sentinel_cpp.Log.Decimal.{digits, tenth, print}
use sentinel_cpp.Log.Stream.{
  Istream, is_space, is_digit, skip, scan, number, signed, extract, starts_number, bounded,
}

abbrev pub good : ℕ → Text → Istream
good size rest = record { size = size; rest = rest; eof = false; fail = false }

decimal-digit : (k : ℕ) → k < 10 → is_digit (b'0' + k) ≡ true
decimal-digit k h = ground (arith, h)

-- The scan goes on behind the digits of a number.
scan-digits :
    (fuel n : ℕ) (out rest : Text)
    → n < 10 ^ fuel
    → 0 < fuel
    → scan 0 (digits fuel n out ++ rest) ≡ scan n (out ++ rest)
unfolding digits scan
scan-digits zero n out rest h k = absurd (omega arith)
scan-digits (suc fuel) n out rest h k = elim (Bool-cases (ltb n 10)) [
  | inl e ↦ rw e (ground (arith, decimal-digit n (omega tests)))
  | inr e ↦
      let (lt, pos) = tenth fuel n h e in
      rw e (
        scan-digits fuel (n / 10) ((b'0' + n % 10) ∷ out) rest lt pos
        ∙ ground (arith, decimal-digit (n % 10) (omega arith)))
]

scan-stop : (n d : ℕ) (rest : Text) → is_digit d ≡ false → scan n (d ∷ rest) ≡ (n, d ∷ rest)
unfolding scan
scan-stop n d rest e = rw e refl

-- The first digit.
digits-starts :
    (fuel n : ℕ) (out : Text)
    → 0 < fuel
    → n < 10 ^ fuel
    → (c : ℕ) × (s : Text) × (digits fuel n out ≡ c ∷ s) × (is_digit c ≡ true)
unfolding digits
digits-starts zero n out k h = absurd (omega arith)
digits-starts (suc fuel) n out k h = elim (Bool-cases (ltb n 10)) [
  | inl e ↦ (b'0' + n, out, rw e refl, ground arith)
  | inr e ↦
      let (lt, pos) = tenth fuel n h e in
      let (c, s, q, d) = digits-starts fuel (n / 10) ((b'0' + n % 10) ∷ out) pos lt in
      (c, s, rw e q, d)
]

signed-skip :
    (old c size : ℕ) (s : Text)
    → is_digit c ≡ true
    → signed old (skip (c ∷ s)) size ≡ number false (c ∷ s) size
unfolding signed skip
signed-skip old c size s h =
    let space : is_space c ≡ false = ground (arith, h) in
    let minus : (c == b'-') ≡ false = ground (arith, h) in
    let plus : (c == b'+') ≡ false = ground (arith, h) in rw (space, signed, minus, plus) refl

number-scan :
    (n d size : ℕ) (t rest : Text)
    → starts_number t ≡ true
    → scan 0 t ≡ (n, d ∷ rest)
    → n < 2 ^ 63
    → number false t size ≡ (n, good size (d ∷ rest))
unfolding number bounded
number-scan n d size t rest p q h = rw (p, q, lt→ltb n (2 ^ 63) h) refl

-- A number that is not negative and stands before another character is read back.
pub extract-print :
    (old n size d : ℕ) (rest : Text)
    → n < 2 ^ 63
    → is_digit d ≡ false
    → extract old (good size (print n ++ d ∷ rest)) ≡ (n, good size (d ∷ rest))
unfolding extract print
extract-print old n size d rest h e =
    let (c, s, q, k) = digits-starts 20 n [] (omega arith) (omega (arith, h)) in
    let scanned : scan 0 (digits 20 n [] ++ d ∷ rest) ≡ (n, d ∷ rest) =
      scan-digits 20 n [] (d ∷ rest) (omega (arith, h)) (omega arith) ∙ scan-stop n d rest e in
    rw (lt→ltb n (2 ^ 63) h) (
      rw q (signed-skip old c size (s ++ d ∷ rest) k)
      ∙ number-scan n d size (digits 20 n [] ++ d ∷ rest) rest (rw q k) scanned h)

pub extract-space :
    (old c size : ℕ) (s : Text)
    → is_space c ≡ true
    → extract old (good size (c ∷ s)) ≡ extract old (good size s)
unfolding extract skip
extract-space old c size s h = rw h refl
