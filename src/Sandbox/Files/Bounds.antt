-- ===== src/Sandbox/Files/Bounds.antt =====
-- Whatever the command prints, what is read of a batch is bounded and was asked for.
use dorf.Base.{
  ℕ, ◌≤◌, ◌≡◌, refl, subst, true, Option, none, some, List, [], ◌∷◌, Text, ◌==◌, ==_iff, all, any,
  length, arith, inl, inr,
}
use dorf.Base.Results.{Result, ok, err, Result-cases}
use dorf.Store.Table.{Table, Rows, Rows-put}
use dorf.Sandbox.Files.{
  Codec, keep, decode_line, decode_lines, decode_file_batch, is_valid_file_path, is_bounded_batch,
  read_files, split, trim_newline,
}

-- A file of the batch, within the limit.
abbrev pub IsAsked : List Text → ℕ → Text → Text → Type 0
IsAsked names most name contents = (any (λ n. n == name) names ≡ true) × (length contents ≤ most)

abbrev Bounded : ℕ → Option Text → Type 0
Bounded most none = Unit
Bounded most (some c) = length c ≤ most

line-Bounded :
    (codec : Codec) (most : ℕ) (line : Text) (o : Option Text)
    → decode_line codec most line ≡ ok o
    → Bounded most o
unfolding decode_line
line-Bounded codec most line none h = tt
line-Bounded codec most [] (some d) h = cc
line-Bounded codec most (c ∷ encoded) (some d) h = ground (arith)

keep-Rows :
    (P : Text → Text → Type 0) (name : Text) (o : Option Text) (t : Table Text)
    → ((c : Text) → o ≡ some c → P name c)
    → Rows P t
    → Rows P (keep name o t)
keep-Rows P name none t f h = h
keep-Rows P name (some c) t f h = Rows-put P name c t (f c refl) h

lines-Bounded :
    (codec : Codec) (most : ℕ) (all_names names lines : List Text) (t files : Table Text)
    → ((n : Text) → any (λ m. m == n) names ≡ true → any (λ m. m == n) all_names ≡ true)
    → Rows (IsAsked all_names most) t
    → decode_lines codec most names lines t ≡ ok files
    → Rows (IsAsked all_names most) files
unfolding decode_lines
lines-Bounded codec most every [] lines t files f h e = ground (arith)
lines-Bounded codec most every (n ∷ ns) [] t files f h e = ground (arith)
lines-Bounded codec most every (n ∷ ns) (l ∷ ls) t files f h e =
    elim (Result-cases (decode_line codec most l)) [
      | inr (x, bad) ↦ absurd (ground (arith))
      | inl (o, good) ↦
          lines-Bounded codec most every ns ls (keep n o t) files (λ m p. f m (ground (arith, p)))
            (keep-Rows (IsAsked every most) n o t
              (λ c same. (
                f n (ground (arith, ==_iff n n)),
                line-Bounded codec most l (some c)
                    (subst (λ x. decode_line codec most l ≡ ok x) same good),
              ))
              h)
            (ground (arith, good))
    ]

-- What a batch returns was asked for by a path that is allowed, and no file is larger than the limit;
-- a batch names at most 32 files.
pub read-IsAsked :
    (clean : Text → Text) (codec : Codec) (workspace : Text) (names : List Text) (most : ℕ)
    (run : Result (ℕ × Text)) (files : Table Text)
    → read_files clean codec workspace names most run ≡ ok files
    → Rows (IsAsked names most) files
      × (all (is_valid_file_path clean) names ≡ true)
      × (length names ≤ 32)
unfolding read_files decode_file_batch is_bounded_batch
read-IsAsked clean codec workspace [] most run files h = absurd (ground (arith))
read-IsAsked clean codec workspace (n ∷ ns) most (err x) files h = absurd (ground (arith))
read-IsAsked clean codec workspace (n ∷ ns) most (ok (code, output)) files h =
    let names : List Text = n ∷ ns in
    let decoded : decode_lines codec most names (split (trim_newline output)) [] ≡ ok files =
      ground (arith) in
    (
      lines-Bounded codec most names names (split (trim_newline output)) [] files (λ m p. p) tt
          decoded,
      ground (arith),
      ground (arith),
    )
