-- ===== src/Std/Strings.antt =====
-- strings.TrimSpace, on the bytes of a text in UTF-8.
use mathlib.Core.List.{reverse, reverse-cons, reverse-append}
use dorf.Base.{
  ℕ, zero, suc, ◌≡◌, refl, Bool, true, false, ◌&&◌, ◌||◌, [], ◌∷◌, ◌++◌, ◌≤◌, Text-discrete,
  Bool-cases, inl, inr, arith, Text, txt, length, leb, ltb, eqb, ◌==◌, if◌then◌else◌,
}

-- The length of the white space that starts with these bytes, in Go's `unicode.IsSpace`; 0 if none.
space_width : ℕ → ℕ → ℕ → ℕ
space_width c d e =
    if (leb 9 c && leb c 13) || eqb c 32
    then 1
    else if eqb c 0xc2 && (eqb d 0x85 || eqb d 0xa0)
    then 2
    else if (eqb c 0xe1 && eqb d 0x9a && eqb e 0x80)
        || (eqb c 0xe2
            && eqb d 0x80
            && (leb 0x80 e && leb e 0x8a || eqb e 0xa8 || eqb e 0xa9 || eqb e 0xaf))
        || (eqb c 0xe2 && eqb d 0x81 && eqb e 0x9f)
        || (eqb c 0xe3 && eqb d 0x80 && eqb e 0x80)
    then 3
    else 0

byte_at : Text → ℕ → ℕ
byte_at [] i = 0
byte_at (c ∷ cs) zero = c
byte_at (c ∷ cs) (suc i) = byte_at cs i

drop : ℕ → Text → Text
drop zero t = t
drop (suc n) [] = []
drop (suc n) (c ∷ cs) = drop n cs

leading : Text → ℕ
unfolding space_width byte_at
leading t = space_width (byte_at t 0) (byte_at t 1) (byte_at t 2)

-- The last bytes stand first: a space rune is met from its end.
trailing : Text → ℕ
unfolding space_width byte_at
trailing t =
    if eqb (space_width (byte_at t 0) 0 0) 1
    then 1
    else if eqb (space_width (byte_at t 1) (byte_at t 0) 0) 2
    then 2
    else if eqb (space_width (byte_at t 2) (byte_at t 1) (byte_at t 0)) 3
    then 3
    else 0

-- Strips spaces while there are any. Every round shortens the text, so its length is fuel enough.
strip : (Text → ℕ) → ℕ → Text → Text
unfolding drop
strip width zero t = t
strip width (suc fuel) t =
    let rest = strip width fuel (drop (width t) t) in if eqb (width t) 0 then t else rest

unfoldable pub trim_space : Text → Text
unfolding strip leading trailing
trim_space t =
    let left = strip leading (length t) t in reverse (strip trailing (length left) (reverse left))

trim_space_words : trim_space (txt "  two words \n") ≡ txt "two words"
unfolding trim_space
trim_space_words = refl

-- A text that starts with `u` keeps it.
drop_before :
    (k : ℕ) (ys : Text) → k ≤ length ys → (zs : Text) × (drop k (ys ++ txt "u") ≡ zs ++ txt "u")
unfolding drop
drop_before zero ys h = (ys, refl)
drop_before (suc k) [] h = absurd (omega (arith, h))
drop_before (suc k) (y ∷ ys) h = drop_before k ys (omega (arith, h))

one_of-le : (x : Bool) → (if x then 1 else 0) ≤ 1
one_of-le true = omega arith
one_of-le false = omega arith

two_of-le : (x y : Bool) → (if x then 1 else if y then 2 else 0) ≤ 2
two_of-le true y = omega arith
two_of-le false true = omega arith
two_of-le false false = omega arith

three_of-le :
    (x y z : Bool) (n : ℕ)
    → (if x then 1 else if y then 2 else if z then 3 else 0) ≤ suc (suc (suc n))
three_of-le true y z n = omega arith
three_of-le false true z n = omega arith
three_of-le false false true n = omega arith
three_of-le false false false n = omega arith

trailing-le : (ys : Text) → trailing (ys ++ txt "u") ≤ length ys
unfolding trailing space_width byte_at
trailing-le [] = omega arith
trailing-le (a ∷ []) = one_of-le (eqb (space_width a 0 0) 1)
trailing-le (a ∷ b ∷ []) = two_of-le (eqb (space_width a 0 0) 1) (eqb (space_width b a 0) 2)
trailing-le (a ∷ b ∷ c ∷ ys) =
    three_of-le (eqb (space_width a 0 0) 1) (eqb (space_width b a 0) 2) (eqb (space_width c b a) 3)
      (length ys)

word_after :
    (fuel : ℕ) (ys : Text) → (zs : Text) × (strip trailing fuel (ys ++ txt "u") ≡ zs ++ txt "u")
unfolding strip
word_after zero ys = (ys, refl)
word_after (suc fuel) ys = elim (Bool-cases (eqb (trailing (ys ++ txt "u")) 0)) [
  | inl none_left ↦ (ys, rw none_left)
  | inr some_left ↦
      let (zs, left) = drop_before (trailing (ys ++ txt "u")) ys (trailing-le ys) in
      let (ws, rest) = word_after fuel zs in (ws, rw (some_left, left) rest)
]

pub trim_space-keeps : (t : Text) → (trim_space (txt "u" ++ t) == []) ≡ false
unfolding trim_space strip leading space_width byte_at Text-discrete
trim_space-keeps t =
    let (zs, kept) = word_after (suc (length t)) (reverse t) in
    let back : trim_space (txt "u" ++ t) ≡ txt "u" ++ reverse zs =
      rw (reverse-cons b'u' t, kept) (reverse-append zs (txt "u")) in
    rw back refl

-- `value == "" || value != strings.TrimSpace(value) || len(value) > max`, negated.
unfoldable pub is_bounded_identity : ℕ → Text → Bool
is_bounded_identity bound t = leb 1 (length t) && (trim_space t == t && leb (length t) bound)

-- `a < b` on strings, byte by byte.
unfoldable pub text_before : Text → Text → Bool
text_before [] [] = false
text_before [] (d ∷ ds) = true
text_before (c ∷ cs) [] = false
text_before (c ∷ cs) (d ∷ ds) = ltb c d || (eqb c d && text_before cs ds)
