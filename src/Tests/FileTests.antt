-- ===== src/Tests/FileTests.antt =====
-- A batch of two files, with a codec that shifts every byte past the newline.
use dorf.Base.{
  suc, ◌+◌, ◌-◌, ◌≤◌, ◌≡◌, refl, ap, true, Option, none, some, [], ◌∷◌, Text, txt, ◌==◌, leb, all,
  any, length, arith, Text-discrete, ℕ_discrete, if◌then◌else◌,
}
use dorf.Base.Results.{ok, err}
use dorf.Store.Table.{Table, Rows, get, put}
use dorf.Sandbox.Files.{
  Codec, too_large, decode_line, decode_lines, decode_file_batch, read_files, is_valid_file_path,
  is_bounded_batch, split, trim_newline, has_newline,
}
use dorf.Sandbox.Files.Lines.{is_line, terminate}
use dorf.Sandbox.Files.RoundTrip.{IsCodec, printed, all_fit, decode-print}
use dorf.Sandbox.Files.Bounds.{IsAsked, read-IsAsked}

abbrev shift : Text → Text
shift [] = []
shift (c ∷ t) = (c + 11) ∷ shift t

unshift : Text → Option Text
unshift [] = some []
unshift (c ∷ t) = elim (unshift t) [
  | none ↦ none
  | some rest ↦ if leb 11 c then some ((c - 11) ∷ rest) else none
]

abbrev shifting : Codec
shifting = record { encode = shift; decode = unshift; encoded_len = λ n. n }

unshift-shift : (t : Text) → unshift (shift t) ≡ some t
unfolding unshift
unshift-shift [] = refl
unshift-shift (c ∷ t) = let e : c + 11 - 11 ≡ c = omega arith in ground (arith, unshift-shift t, e)

shift-line : (t : Text) → is_line (shift t) ≡ true
shift-line [] = refl
shift-line (c ∷ t) = ground (arith, shift-line t)

length-shift : (t : Text) → length (shift t) ≡ length t
length-shift [] = refl
length-shift (c ∷ t) = ap suc (length-shift t)

shifting-IsCodec : IsCodec shifting
shifting-IsCodec = record {
  decodes = unshift-shift;
  on_line = shift-line;
  sized = length-shift;
  monotone = λ a b h. h;
}

abbrev a_file : Text → Option Text
a_file name = if name == txt "a" then some (txt "hello") else none

decode-print_example :
    (files : Table Text) × (decode_file_batch shifting 8
        (terminate (printed shifting shifting-IsCodec 8 a_file (txt "a" ∷ txt "b" ∷ [])))
        (txt "a" ∷ txt "b" ∷ [])
      ≡ (if all_fit shifting shifting-IsCodec 8 a_file (txt "a" ∷ txt "b" ∷ [])
          then ok files
          else err too_large))
    × ((m : Text)
        → get m files ≡ (if any (λ k. k == m) (txt "a" ∷ txt "b" ∷ []) then a_file m else none))
decode-print_example = decode-print shifting shifting-IsCodec 8 a_file (txt "a") (txt "b" ∷ [])

read-IsAsked_example :
    Rows (IsAsked (txt "a" ∷ []) 8) ((txt "a", txt "hi") ∷ [])
    × (all (is_valid_file_path (λ t. t)) (txt "a" ∷ []) ≡ true)
    × (length (txt "a" ∷ []) ≤ 32)
unfolding read_files is_valid_file_path is_bounded_batch decode_file_batch decode_lines decode_line
    unshift split trim_newline has_newline put Text-discrete ℕ_discrete
read-IsAsked_example =
    read-IsAsked (λ t. t) shifting (txt "/work") (txt "a" ∷ []) 8
      (ok (0, b'D' ∷ 115 ∷ 116 ∷ 10 ∷ [])) ((txt "a", txt "hi") ∷ []) refl
