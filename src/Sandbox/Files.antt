-- ===== src/Sandbox/Files.antt =====
-- internal/sandbox/file.go: a bounded batch of files, read by a command inside the Sandbox.
-- `path.Clean`, `path.IsAbs` and the encoding/base64 codec are parameters, and so is the result of the
-- command.
pub mod Lines
pub mod Bounds
pub mod RoundTrip
use dorf.Base.{
  ℕ, zero, suc, ◌+◌, ◌*◌, ◌/◌, ◌≡◌, refl, Bool, true, false, not, ◌&&◌, ◌||◌, Option, none, some,
  List, [], ◌∷◌, ◌++◌, Text, txt, ◌==◌, eqb, ltb, leb, any, all, ◌^◌, length, take, if◌then◌else◌,
}
use dorf.Base.Results.{Result, ok, err, Error, message, Done}
use dorf.Store.Table.{Table, put}

-- base64.StdEncoding, strict in what it decodes.
pub record Codec : Type 0 where
  pub encode : Text → Text
  pub decode : Text → Option Text
  pub encoded_len : ℕ → ℕ

abbrev pub newline : ℕ
newline = 10

-- strings.Split by a newline.
unfoldable pub split : Text → List Text
split [] = [] ∷ []
split (c ∷ cs) = elim (eqb c newline) [
  | true ↦ [] ∷ split cs
  | false ↦ elim (split cs) [ [] ↦ (c ∷ []) ∷ [] | l ∷ ls ↦ (c ∷ l) ∷ ls ]
]

-- strings.TrimSuffix and strings.HasSuffix, of one newline.
unfoldable pub trim_newline : Text → Text
trim_newline [] = []
trim_newline (c ∷ []) = if eqb c newline then [] else c ∷ []
trim_newline (c ∷ d ∷ cs) = c ∷ trim_newline (d ∷ cs)

unfoldable pub has_newline : Text → Bool
has_newline [] = false
has_newline (c ∷ []) = eqb c newline
has_newline (c ∷ d ∷ cs) = has_newline (d ∷ cs)

abbrev pub too_large : Error
too_large = message "Sandbox file exceeds read limit"

abbrev pub invalid_path : Error
invalid_path = message "invalid Sandbox file path"

abbrev pub unavailable : Error
unavailable = message "Sandbox file is unavailable"

abbrev pub max_file_write_bytes : ℕ
max_file_write_bytes = 8 * 2 ^ 20

abbrev pub is_abs : Text → Bool
is_abs [] = false
is_abs (c ∷ cs) = eqb c b'/'

abbrev pub starts_above : Text → Bool
starts_above (a ∷ b ∷ c ∷ cs) = eqb a b'.' && (eqb b b'.' && eqb c b'/')
starts_above _ = false

module _ (clean : Text → Text) where
  -- `ValidateFilePath`, whether it returns no error.
  unfoldable pub is_valid_file_path : Text → Bool
  is_valid_file_path name = not (
      name == []
      || (any (λ c. eqb c 0) name
          || (not (clean name == name)
              || (name == txt "/"
                  || (name == txt "."
                      || (name == txt "~" || (name == txt ".." || starts_above name)))))))

  abbrev pub is_valid_workspace : Text → Bool
  is_valid_workspace w = not (w == []) && (is_abs w && (clean w == w && not (w == txt "/")))

abbrev pub keep : Text → Option Text → Table Text → Table Text
keep name none files = files
keep name (some contents) files = put name contents files

module _ (codec : Codec) (most : ℕ) where
  abbrev pub max_encoded : ℕ
  max_encoded = codec.encoded_len (most + 1)

  -- One line of the response: a missing file, or the bytes of one.
  unfoldable pub decode_line : Text → Result (Option Text)
  decode_line [] = err (message "invalid Sandbox file batch entry")
  decode_line (c ∷ encoded) = elim (eqb c b'M' && encoded == []) [
    | true ↦ ok none
    | false ↦ elim (eqb c b'D') [
      | false ↦ err (message "invalid Sandbox file batch entry")
      | true ↦ elim (ltb max_encoded (length encoded)) [
        | true ↦ err (message "Sandbox file response exceeds encoded limit")
        | false ↦ elim (codec.decode encoded) [
          | none ↦ err (message "decode exact Sandbox file")
          | some contents ↦ elim (ltb most (length contents)) [
            | true ↦ err too_large
            | false ↦ ok (some contents)
          ]
        ]
      ]
    ]
  ]

  -- The loop over the lines, which are as many as the names.
  unfoldable pub decode_lines : List Text → List Text → Table Text → Result (Table Text)
  decode_lines (name ∷ names) (line ∷ lines) files = elim (decode_line line) [
    | err e ↦ err e
    | ok entry ↦ decode_lines names lines (keep name entry files)
  ]
  decode_lines _ _ files = ok files

  unfoldable pub decode_file_batch : Text → List Text → Result (Table Text)
  decode_file_batch output names = elim (ltb (length names * (max_encoded + 2)) (length output)) [
    | true ↦ err (message "Sandbox file batch response exceeds limit")
    | false ↦
        elim (not (eqb (length (split (trim_newline output))) (length names))
          || not (has_newline output)) [
            | true ↦ err (message "incomplete Sandbox file batch response")
            | false ↦ decode_lines names (split (trim_newline output)) []
          ]
  ]

-- The bounds of a batch: what it may return fits one write.
unfoldable pub is_bounded_batch : ℕ → ℕ → Bool
is_bounded_batch zero most = false
is_bounded_batch (suc n) most =
    leb (suc n) 32 && (ltb 0 most && leb most (max_file_write_bytes / suc n))

-- `ReadFilesViaExec`, with the command's exit code and output.
unfoldable pub read_files :
    (Text → Text) → Codec → Text → List Text → ℕ → Result (ℕ × Text) → Result (Table Text)
read_files clean codec workspace names most run = elim (is_bounded_batch (length names) most) [
  | false ↦ err (message "invalid Sandbox file batch bounds")
  | true ↦ elim (is_valid_workspace clean workspace) [
    | false ↦ err (message "Sandbox workspace must be a clean absolute path")
    | true ↦ elim (all (is_valid_file_path clean) names) [
      | false ↦ err invalid_path
      | true ↦ elim run [
        | err e ↦ err e
        | ok (code, output) ↦ elim (eqb code 0) [
          | false ↦ err unavailable
          | true ↦ decode_file_batch codec most output names
        ]
      ]
    ]
  ]
]
