-- ===== src/Std/Decimal.antt =====
-- strconv.Itoa and FormatInt in base 10, on numbers that are not negative.
use dorf.Base.{
  ℕ, zero, suc, ◌+◌, ◌-◌, ◌*◌, ◌/◌, ◌%◌, ◌≤◌, ◌≡◌, refl, ap, ◌&&◌, [], ◌∷◌, ◌++◌, Text, txt, leb,
  ltb, if◌then◌else◌, Bool-cases, inl, inr, arith, ◌∙◌,
}
use mathlib.Core.List.{append_assoc}

-- Every round takes a digit off, so the number itself is fuel enough.
digits : ℕ → ℕ → Text
digits zero n = (48 + n) ∷ []
digits (suc fuel) n =
    let more = digits fuel (n / 10) ++ ((48 + n % 10) ∷ []) in
    if ltb n 10 then (48 + n) ∷ [] else more

unfoldable pub decimal : ℕ → Text
unfolding digits
decimal n = digits n n

-- The number that the leading digits of a text continue, and what follows them.
unfoldable pub leading_number : ℕ → Text → ℕ × Text
leading_number n [] = (n, [])
leading_number n (c ∷ cs) =
    let more = leading_number (n * 10 + (c - 48)) cs in
    if leb 48 c && leb c 57 then more else (n, c ∷ cs)

one_digit :
    (n d : ℕ) (t : Text) → d ≤ 9 → leading_number n ((48 + d) ∷ t) ≡ leading_number (n * 10 + d) t
unfolding leading_number
one_digit n d t h =
    let e : 48 + d - 48 ≡ d = omega arith in
    ground (arith, ap (λ k. leading_number (n * 10 + k) t) e)

leading_number-digits :
    (fuel n : ℕ) (t : Text) → n ≤ fuel → leading_number 0 (digits fuel n ++ t) ≡ leading_number n t
unfolding digits
leading_number-digits zero n t h =
    let e : 0 * 10 + n ≡ n = omega arith in one_digit 0 n t (omega arith) ∙ rw e refl
leading_number-digits (suc fuel) n t h = elim (Bool-cases (ltb n 10)) [
  | inl small ↦
      let e : 0 * 10 + n ≡ n = omega arith in rw small (one_digit 0 n t (ground arith) ∙ rw e refl)
  | inr large ↦
      let e : (n / 10) * 10 + n % 10 ≡ n = omega arith in
      let split : leading_number (n / 10) ((48 + n % 10) ∷ t) ≡ leading_number n t =
        rw (one_digit (n / 10) (n % 10) t (omega arith), e) refl in
      rw (large, append_assoc)
        (rw (leading_number-digits fuel (n / 10) ((48 + n % 10) ∷ t) (ground arith)) split)
]

pub leading_number-decimal :
    (n : ℕ) (t : Text) → leading_number 0 (decimal n ++ t) ≡ leading_number n t
unfolding decimal
leading_number-decimal n t = leading_number-digits n n t (omega arith)

decimal_test : decimal 3600 ≡ txt "3600"
unfolding decimal
decimal_test = refl
