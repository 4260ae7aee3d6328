-- ===== src/Sandbox/Files/RoundTrip.antt =====
-- What the command prints for a batch of files is read back as those files, or refused if one is
-- too large.
use dorf.Base.{
  ℕ, zero, suc, ◌+◌, ◌*◌, ◌≤◌, ◌≡◌, refl, ap, ◌∙◌, subst, Bool, true, ◌&&◌, Option, none, some,
  List, [], ◌∷◌, Text, txt, ◌==◌, ==_iff, leb, all, any, length, take, Text-discrete, length-append,
  length-take, arith, if◌then◌else◌, inl, inr, Bool-cases, Option-cases,
}
use dorf.Base.Results.{ok, err}
use dorf.Store.Table.{Table, get, get-put}
use dorf.Sandbox.Files.{Codec, too_large, keep, decode_line, decode_lines, decode_file_batch}
use dorf.Sandbox.Files.Lines.{is_line, terminate, terminate-ends, split-terminate}

-- What encoding/base64 documents.
pub record IsCodec (codec : Codec) : Type 0 where
  pub decodes : (t : Text) → codec.decode (codec.encode t) ≡ some t
  pub on_line : (t : Text) → is_line (codec.encode t) ≡ true
  pub sized : (t : Text) → length (codec.encode t) ≡ codec.encoded_len (length t)
  pub monotone : (a b : ℕ) → a ≤ b → codec.encoded_len a ≤ codec.encoded_len b

module _ (codec : Codec) (laws : IsCodec codec) (most : ℕ) (fs : Text → Option Text) where
  -- The line that the command prints for a file: at most one byte more than the limit is read.
  abbrev pub line_of : Option Text → Text
  line_of none = txt "M"
  line_of (some c) = b'D' ∷ codec.encode (take (suc most) c)

  abbrev pub printed : List Text → List Text
  printed [] = []
  printed (n ∷ ns) = line_of (fs n) ∷ printed ns

  abbrev pub fits : Option Text → Bool
  fits none = true
  fits (some c) = leb (length c) most

  abbrev pub all_fit : List Text → Bool
  all_fit [] = true
  all_fit (n ∷ ns) = fits (fs n) && all_fit ns

  -- The files of the batch that are there.
  abbrev pub files_of : List Text → Table Text → Table Text
  files_of [] t = t
  files_of (n ∷ ns) t = files_of ns (keep n (fs n) t)

  take-all : (n : ℕ) (t : Text) → length t ≤ n → take n t ≡ t
  take-all zero [] h = refl
  take-all zero (c ∷ t) h = absurd (omega arith)
  take-all (suc n) [] h = refl
  take-all (suc n) (c ∷ t) h = ap (◌∷◌ c) (take-all n t (omega arith))

  encoded_fits :
      (c : Text) → length (codec.encode (take (suc most) c)) ≤ codec.encoded_len (most + 1)
  encoded_fits c =
      let m =
        laws.monotone (length (take (suc most) c)) (most + 1)
          (omega (arith, length-take (suc most) c)) in
      omega (arith, m, laws.sized (take (suc most) c))

  line-decodes :
      (o : Option Text)
      → decode_line codec most (line_of o) ≡ (if fits o then ok o else err too_large)
  unfolding decode_line Text-discrete
  line-decodes none = refl
  line-decodes (some c) = elim (Bool-cases (leb (length c) most)) [
    | inl small ↦
        let whole : take (suc most) c ≡ c = take-all (suc most) c (ground (arith)) in
        ground (arith, encoded_fits c, laws.decodes (take (suc most) c), whole, small)
    | inr large ↦
        ground
          (arith, encoded_fits c, laws.decodes (take (suc most) c), length-take (suc most) c, large)
  ]

  lines-decode :
      (ns : List Text) (t : Table Text)
      → decode_lines codec most ns (printed ns) t
        ≡ (if all_fit ns then ok (files_of ns t) else err too_large)
  unfolding decode_lines
  lines-decode [] t = refl
  lines-decode (n ∷ ns) t = ground (arith, line-decodes (fs n), lines-decode ns (keep n (fs n) t))

  line_on_line : (o : Option Text) → is_line (line_of o) ≡ true
  line_on_line none = refl
  line_on_line (some c) = ground (arith, laws.on_line (take (suc most) c))

  printed-lines : (ns : List Text) → all is_line (printed ns) ≡ true
  printed-lines [] = refl
  printed-lines (n ∷ ns) = ground (arith, line_on_line (fs n), printed-lines ns)

  line_bounded : (o : Option Text) → length (line_of o) ≤ codec.encoded_len (most + 1) + 1
  line_bounded none = omega arith
  line_bounded (some c) = omega (arith, encoded_fits c)

  length-printed : (ns : List Text) → length (printed ns) ≡ length ns
  length-printed [] = refl
  length-printed (n ∷ ns) = ap suc (length-printed ns)

  output_bounded :
      (ns : List Text)
      → length (terminate (printed ns)) ≤ length ns * (codec.encoded_len (most + 1) + 2)
  unfolding terminate
  output_bounded [] = omega arith
  output_bounded (n ∷ ns) = grind (
    arith,
    length-append (line_of (fs n)) (10 ∷ terminate (printed ns)),
    line_bounded (fs n),
    output_bounded ns,
  )

  or_else : Option Text → Option Text → Option Text
  or_else none o = o
  or_else (some c) o = some c

  get-keep :
      (n m : Text) (t : Table Text)
      → get n (keep m (fs m) t) ≡ (if m == n then or_else (fs n) (get n t) else get n t)
  unfolding or_else
  get-keep n m t = elim (Bool-cases (m == n)) [
    | inl hit ↦ elim (Option-cases (fs m)) [
      | inl absent ↦
          let gone = subst (λ x. fs x ≡ none) ((==_iff m n).0 hit) absent in
          ground (arith, hit, absent, gone)
      | inr (c, there) ↦
          let found = subst (λ x. fs x ≡ some c) ((==_iff m n).0 hit) there in
          ground (arith, there, hit, found, get-put m n c t)
    ]
    | inr miss ↦ elim (Option-cases (fs m)) [
      | inl absent ↦ rw (miss, absent) refl
      | inr (c, there) ↦ ground (arith, there, miss, get-put m n c t)
    ]
  ]

  get-files :
      (n : Text) (ns : List Text) (t : Table Text)
      → get n (files_of ns t) ≡ (if any (λ m. m == n) ns then or_else (fs n) (get n t) else get n t)
  unfolding or_else
  get-files n [] t = refl
  get-files n (m ∷ ns) t = ground (arith, get-keep n m t, get-files n ns (keep m (fs m) t))

  if_same :
      (m : Text) (test : Bool)
      → (if test then or_else (fs m) (get m []) else get m []) ≡ (if test then fs m else none)
  unfolding or_else get
  if_same m test = elim (Option-cases (fs m)) [
    | inl absent ↦ rw absent refl
    | inr (c, there) ↦ rw there refl
  ]

  -- The batch that the command prints for these names is decoded to the files that are there, each
  -- under its name, if each of them is within the limit; else it is refused as too large.
  pub decode-print :
      (n : Text) (ns : List Text)
      → (files : Table Text) × (decode_file_batch codec most (terminate (printed (n ∷ ns))) (n ∷ ns)
          ≡ (if all_fit (n ∷ ns) then ok files else err too_large))
        × ((m : Text) → get m files ≡ (if any (λ k. k == m) (n ∷ ns) then fs m else none))
  unfolding decode_file_batch
  decode-print n ns =
      let lines =
        split-terminate (line_of (fs n)) (printed ns) (line_on_line (fs n)) (printed-lines ns) in
      (
        files_of (n ∷ ns) [],
        ground (
          arith,
          lines,
          output_bounded (n ∷ ns),
          length-printed ns,
          terminate-ends (line_of (fs n)) (printed ns),
          lines-decode (n ∷ ns) [],
        ),
        λ m. get-files m (n ∷ ns) [] ∙ (if_same m (any (λ k. k == m) (n ∷ ns))),
      )
