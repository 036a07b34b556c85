-- ===== src/Log/Stream/Length.antt =====
-- A number that is read takes at least one byte.
use sentinel_cpp.Prelude.{
  ℕ, ◌+◌, ◌-◌, ◌*◌, ◌<◌, ◌≤◌, ◌≡◌, arith, Bool, true, false, [], ◌∷◌, length, Bool-cases, inl, inr,
}
use sentinel_cpp.Log.Format.{Text}
use sentinel_cpp.Log.Stream.{
  Istream, is_good, is_space, is_digit, skip, scan, number, signed, extract, starts_number,
}

length-skip : (s : Text) → length (skip s) ≤ length s
unfolding skip
length-skip [] = omega arith
length-skip (c ∷ s) = elim (Bool-cases (is_space c)) [
  | inl e ↦ rw e (omega (arith, length-skip s))
  | inr e ↦ rw e (omega arith)
]

length-scan : (v : ℕ) (s : Text) → length (scan v s).1 ≤ length s
unfolding scan
length-scan v [] = omega arith
length-scan v (c ∷ s) = elim (Bool-cases (is_digit c)) [
  | inl e ↦ rw e (omega (arith, length-scan (v * 10 + (c - b'0')) s))
  | inr e ↦ rw e (omega arith)
]

length-scan_starts : (v : ℕ) (s : Text) → starts_number s ≡ true → length (scan v s).1 < length s
unfolding scan
length-scan_starts v [] h = absurd (cc)
length-scan_starts v (c ∷ s) h = rw h (omega (arith, length-scan (v * 10 + (c - b'0')) s))

number-shorter :
    (negative : Bool) (s : Text) (size : ℕ)
    → is_good (number negative s size).1 ≡ true
    → length (number negative s size).1.rest < length s
unfolding number
number-shorter negative s size h = ground (arith, length-scan_starts 0 s)

signed-shorter :
    (old : ℕ) (s : Text) (size : ℕ)
    → is_good (signed old s size).1 ≡ true
    → length (signed old s size).1.rest < length s
unfolding signed
signed-shorter old [] size h = absurd (cc)
signed-shorter old (c ∷ s) size h = ground (
  arith,
  number-shorter true s size,
  number-shorter false s size,
  number-shorter false (c ∷ s) size,
)

-- Where the stream is good afterwards.
pub extract-shorter :
    (old : ℕ) (st : Istream)
    → is_good (extract old st).1 ≡ true
    → (is_good st ≡ true) × (length (extract old st).1.rest < length st.rest)
unfolding extract
extract-shorter old st h =
    ground (arith, signed-shorter old (skip st.rest) st.size, length-skip st.rest)
