-- ===== src/Std/Utf8.antt =====
-- unicode/utf8: the validity of a byte sequence, and the count of its runes.
use dorf.Base.{
  ℕ, zero, suc, ◌≡◌, refl, ◌&&◌, Option, none, some, [], ◌∷◌, Text, leb, eqb, if◌then◌else◌,
}

-- What a first byte asks for: how many more bytes, and the range of the next one.
pub data Start : Type 0 where
  invalid : Start
  more : (pending low high : ℕ) → Start

start : ℕ → Start
start c =
    if leb c 0x7f
    then more 0 0 0
    else if leb 0xc2 c && leb c 0xdf
    then more 1 0x80 0xbf
    else if eqb c 0xe0
    then more 2 0xa0 0xbf
    else if eqb c 0xed
    then more 2 0x80 0x9f
    else if leb 0xe1 c && leb c 0xef
    then more 2 0x80 0xbf
    else if eqb c 0xf0
    then more 3 0x90 0xbf
    else if leb 0xf1 c && leb c 0xf3
    then more 3 0x80 0xbf
    else if eqb c 0xf4
    then more 3 0x80 0x8f
    else invalid

one_more : Option ℕ → Option ℕ
one_more none = none
one_more (some n) = some (suc n)

-- The runes that the text holds, after the bytes that a rune begun before still lacks.
runes_from : Start → Text → Option ℕ
unfolding one_more start
runes_from invalid t = none
runes_from (more zero low high) [] = some 0
runes_from (more (suc n) low high) [] = none
runes_from (more zero low high) (c ∷ cs) = one_more (runes_from (start c) cs)
runes_from (more (suc n) low high) (c ∷ cs) =
    let rest = runes_from (more n 0x80 0xbf) cs in if leb low c && leb c high then rest else none

-- `utf8.ValidString`, with `utf8.RuneCountInString` of a valid string.
unfoldable pub rune_count : Text → Option ℕ
unfolding runes_from start one_more
rune_count t = runes_from (more 0 0 0) t

rune_count_test : rune_count (0xe2 ∷ 0x82 ∷ 0xac ∷ 97 ∷ []) ≡ some 2
unfolding rune_count
rune_count_test = refl

surrogate_test : rune_count (0xed ∷ 0xa0 ∷ 0x80 ∷ []) ≡ none
unfolding rune_count
surrogate_test = refl
