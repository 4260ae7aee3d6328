-- ===== src/Sandbox/Files/Lines.antt =====
-- Lines joined by newlines are split into the same lines.
use mathlib.Core.List.{append-nil}
use dorf.Base.{
  ℕ, ◌≡◌, refl, sym, ap, ◌∙◌, Bool, true, not, List, [], ◌∷◌, ◌++◌, Text, eqb, all, arith,
}
use dorf.Sandbox.Files.{split, trim_newline, has_newline}

abbrev pub is_line : Text → Bool
is_line t = all (λ c. not (eqb c 10)) t

-- Every line with its newline.
unfoldable pub terminate : List Text → Text
terminate [] = []
terminate (l ∷ ls) = l ++ (10 ∷ terminate ls)

split-head :
    (l t : Text) (h : Text) (ls : List Text)
    → is_line l ≡ true
    → split t ≡ h ∷ ls
    → split (l ++ t) ≡ (l ++ h) ∷ ls
unfolding split
split-head [] t h ls p e = e
split-head (c ∷ l) t h ls p e = ground (arith, split-head l t h ls)

trim-append :
    (l : Text) (c : ℕ) (t : Text) → trim_newline (l ++ (c ∷ t)) ≡ l ++ trim_newline (c ∷ t)
unfolding trim_newline
trim-append [] c t = refl
trim-append (d ∷ []) c t = refl
trim-append (d ∷ e ∷ l) c t = ap (◌∷◌ d) (trim-append (e ∷ l) c t)

has-append : (l : Text) (c : ℕ) (t : Text) → has_newline (l ++ (c ∷ t)) ≡ has_newline (c ∷ t)
unfolding has_newline
has-append [] c t = refl
has-append (d ∷ []) c t = refl
has-append (d ∷ e ∷ l) c t = has-append (e ∷ l) c t

pub terminate-ends : (l : Text) (ls : List Text) → has_newline (terminate (l ∷ ls)) ≡ true
unfolding terminate has_newline
terminate-ends l [] = has-append l 10 []
terminate-ends l (m ∷ ls) =
    has-append l 10 (terminate (m ∷ ls))
    ∙ has-append (10 ∷ m) 10 (terminate ls)
    ∙ sym (has-append m 10 (terminate ls))
    ∙ terminate-ends m ls

pub split-terminate :
    (l : Text) (ls : List Text)
    → is_line l ≡ true
    → all is_line ls ≡ true
    → split (trim_newline (terminate (l ∷ ls))) ≡ l ∷ ls
unfolding terminate split trim_newline
split-terminate l [] p ps =
    ap split (trim-append l 10 [])
    ∙ split-head l [] [] [] p refl
    ∙ ap (λ (x : Text). x ∷ []) (append-nil l)
split-terminate l (m ∷ ls) p ps =
    let rest : Text = terminate (m ∷ ls) in
    let inner : trim_newline (10 ∷ rest) ≡ 10 ∷ trim_newline rest =
      trim-append (10 ∷ m) 10 (terminate ls)
      ∙ sym (ap (◌∷◌ 10) (trim-append m 10 (terminate ls))) in
    ap split (trim-append l 10 rest ∙ ap (λ (x : Text). l ++ x) inner)
    ∙ split-head l (10 ∷ trim_newline rest) [] (split (trim_newline rest)) p refl
    ∙ ap (λ (x : Text). x ∷ split (trim_newline rest)) (append-nil l)
    ∙ ap (λ (x : List Text). l ∷ x) (split-terminate m ls (ground (arith)) (ground (arith)))
