-- ===== src/Std/Decimal.antt =====
-- `%d` of a number that is not negative.
use nex_talk.Base.{
  ℕ, zero, suc, ◌+◌, ◌-◌, ◌*◌, ◌/◌, ◌%◌, ◌<◌, ◌≡◌, refl, [], ◌∷◌, ◌++◌, arith, Bytes, ltb,
  if◌then◌else◌, codes, Bool-cases, inl, inr, sym, ap, ◌∙◌,
}

-- The digits, with fuel for the number of them.
digits : ℕ → ℕ → Bytes
digits zero n = []
digits (suc f) n =
    let rest = digits f (n / 10) in
    if ltb n 10 then (b'0' + n) ∷ [] else rest ++ (b'0' + n % 10) ∷ []

unfoldable pub decimal : ℕ → Bytes
unfolding digits
decimal n = digits (suc n) n

-- The number that digits spell after `v`.
value : ℕ → Bytes → ℕ
value v [] = v
value v (c ∷ s) = value (v * 10 + (c - b'0')) s

decimal_1048 : decimal 1048 ≡ codes "1048"
unfolding decimal
decimal_1048 = refl

value-snoc : (v c : ℕ) (s : Bytes) → value v (s ++ c ∷ []) ≡ value v s * 10 + (c - b'0')
unfolding value
value-snoc v c [] = refl
value-snoc v c (d ∷ s) = value-snoc (v * 10 + (d - b'0')) c s

value-digits : (f n : ℕ) → n < f → value 0 (digits f n) ≡ n
unfolding digits
value-digits zero n h = elim h [ ]
value-digits (suc f) n h = elim (Bool-cases (ltb n 10)) [
  | inl small ↦ rw small (unfold value in ground arith)
  | inr large ↦
      rw large
        (ground (arith, value-snoc 0 (b'0' + n % 10) (digits f (n / 10)), value-digits f (n / 10)))
]

value-decimal : (n : ℕ) → value 0 (decimal n) ≡ n
unfolding decimal
value-decimal n = value-digits (suc n) n (omega arith)

-- Two numbers with one print are equal.
pub decimal-injective : (m n : ℕ) → decimal m ≡ decimal n → m ≡ n
decimal-injective m n e = sym (value-decimal m) ∙ ap (value 0) e ∙ value-decimal n
