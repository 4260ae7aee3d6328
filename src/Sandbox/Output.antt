-- ===== src/Sandbox/Output.antt =====
-- internal/sandbox/output.go: a buffer that keeps a bounded prefix of a stream.
-- `Limit` is a Go `int`; a limit that is not positive is 0 here, which keeps everything.
use mathlib.Core.List.{append-nil, append_assoc}
use native.Mathlib.Nat.{sub-zero, suc-sub-suc, zero-min, min-zero, suc-min-suc}
use dorf.Base.{
  ℕ, zero, suc, ◌-◌, ◌<◌, min, ◌≡◌, refl, sym, ap, Bool, false, ◌||◌, List, [], ◌∷◌, ◌++◌, Text,
  length, take, ltb, if◌then◌else◌, length-append, length-take, arith,
}

pub record OutputBuffer : Type 0 where
  pub limit : ℕ
  pub truncated : Bool
  pub contents : Text

-- The part of `p` that still fits: `p[:min(len(p), b.Limit-len(b.data))]`.
accepted : OutputBuffer → Text → Text
accepted b p = if ltb 0 b.limit then take (min (length p) (b.limit - length b.contents)) p else p

-- `Write` reports every byte as written, so that the process never blocks.
pub write : OutputBuffer → Text → OutputBuffer × ℕ
unfolding accepted
write b p = (
  record b {
    contents = b.contents ++ accepted b p;
    truncated = b.truncated || ltb (length (accepted b p)) (length p);
  },
  length p,
)

pub write_all : OutputBuffer → List Text → OutputBuffer
write_all b [] = b
write_all b (p ∷ ps) = write_all (write b p).0 ps

abbrev pub new_buffer : ℕ → OutputBuffer
new_buffer limit = record { limit = limit; truncated = false; contents = [] }

unfoldable pub concat : List Text → Text
concat [] = []
concat (p ∷ ps) = p ++ concat ps

take-min {ℓ} : {A : Type ℓ} (n : ℕ) (xs : List A) → take (min (length xs) n) xs ≡ take n xs
take-min zero xs = rw min-zero
take-min (suc n) [] = rw zero-min
take-min (suc n) (x ∷ xs) = rw (suc-min-suc (length xs) n) (ap (◌∷◌ x) (take-min n xs))

-- What is kept of a stream that comes in two parts.
take-take_append {ℓ} :
    {A : Type ℓ} (n : ℕ) (xs ys : List A)
    → take n xs ++ take (n - length (take n xs)) ys ≡ take n (xs ++ ys)
take-take_append zero [] ys = refl
take-take_append (suc n) [] ys = rw sub-zero
take-take_append zero (x ∷ xs) ys = refl
take-take_append (suc n) (x ∷ xs) ys =
    rw (suc-sub-suc n (length (take n xs))) (ap (◌∷◌ x) (take-take_append n xs ys))

take_nil {ℓ} : {A : Type ℓ} (n : ℕ) → take {A = A} n [] ≡ []
take_nil zero = refl
take_nil (suc n) = refl

-- A buffer that has seen `seen` so far.
record Holds (b : OutputBuffer) (seen : Text) : Type 0 where
  kept : b.contents ≡ take b.limit seen
  flagged : b.truncated ≡ ltb b.limit (length seen)

write-Holds :
    (b : OutputBuffer) (seen p : Text)
    → 0 < b.limit
    → Holds b seen
    → Holds (write b p).0 (seen ++ p)
unfolding write
write-Holds b seen p pos h = record {
  kept =
      ground
        (arith, h.kept, take-min (b.limit - length b.contents) p, take-take_append b.limit seen p);
  flagged = ground (
    arith,
    h.kept,
    h.flagged,
    length-append seen p,
    ap length h.kept,
    length-take b.limit seen,
    length-take (min (length p) (b.limit - length b.contents)) p,
  );
}

write_all-Holds :
    (b : OutputBuffer) (seen : Text) (ps : List Text)
    → 0 < b.limit
    → Holds b seen
    → Holds (write_all b ps) (seen ++ concat ps)
unfolding write_all concat
write_all-Holds b seen [] pos h = rw (append-nil seen) h
write_all-Holds b seen (p ∷ ps) pos h = rw (← append_assoc seen p (concat ps)) (
    write_all-Holds (write b p).0 (seen ++ p) ps (unfold write in pos) (write-Holds b seen p pos h))

limit-write_all : (b : OutputBuffer) (ps : List Text) → (write_all b ps).limit ≡ b.limit
unfolding write_all write
limit-write_all b [] = refl
limit-write_all b (p ∷ ps) = limit-write_all (write b p).0 ps

-- A buffer with a positive limit, written to in any pieces, holds exactly the first `limit` bytes
-- of the whole stream, and it is flagged truncated exactly when the stream was longer.
pub write_all-bounded :
    (limit : ℕ) (ps : List Text)
    → 0 < limit
    → let b = write_all (new_buffer limit) ps in
      (b.contents ≡ take limit (concat ps)) × (b.truncated ≡ ltb limit (length (concat ps)))
write_all-bounded limit ps pos = ground (arith, start, limit-write_all (new_buffer limit) ps)
  where
    start : Holds (write_all (new_buffer limit) ps) (concat ps)
    start =
        write_all-Holds (new_buffer limit) [] ps pos
          (record { kept = sym (take_nil limit); flagged = ground arith })
