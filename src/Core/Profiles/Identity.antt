-- ===== src/Core/Profiles/Identity.antt =====
-- What `CurrentDefinitionHash` hashes tells definitions apart.
use dorf.Base.{ℕ, ◌≡◌, refl, ap, sym, Bool, true, false, List, [], ◌∷◌, ◌++◌, Text, length, arith}
use dorf.Std.Decimal.{decimal, leading_number, leading_number-decimal}
use dorf.Core.Profiles.{
  SandboxProvider, incus, e2b, provider_text, Definition, bool_text, hash_fields, write_fields,
  canonical,
}

append_inj : (f g x y : Text) → length f ≡ length g → f ++ x ≡ g ++ y → (f ≡ g) × (x ≡ y)
append_inj [] [] x y n e = (refl, e)
append_inj [] (d ∷ g) x y n e = absurd (omega (arith, n))
append_inj (c ∷ f) [] x y n e = absurd (omega (arith, n))
append_inj (c ∷ f) (d ∷ g) x y n e = ground (arith, append_inj f g x y)

number_of : (n : ℕ) (t : Text) → leading_number 0 (decimal n ++ (58 ∷ t)) ≡ (n, 58 ∷ t)
unfolding leading_number
number_of n t = leading_number-decimal n (58 ∷ t)

number_inj :
    (n m : ℕ) (t u : Text) → decimal n ++ (58 ∷ t) ≡ decimal m ++ (58 ∷ u) → (n ≡ m) × (t ≡ u)
number_inj n m t u e = ground (arith, number_of n t, number_of m u, ap (leading_number 0) e)

decimal_inj : (n m : ℕ) → decimal n ≡ decimal m → n ≡ m
decimal_inj n m e = (number_inj n m [] [] (ap (λ (d : Text). d ++ (58 ∷ [])) e)).0

not_empty : (n : ℕ) (t : Text) → decimal n ++ (58 ∷ t) ≡ [] → ⊥
unfolding leading_number
not_empty n t e = ground (arith, number_of n t, ap (leading_number 0) e)

pub write_fields_inj : (fs gs : List Text) → write_fields fs ≡ write_fields gs → fs ≡ gs
unfolding write_fields
write_fields_inj [] [] e = refl
write_fields_inj [] (g ∷ gs) e = absurd (not_empty _ _ (sym e))
write_fields_inj (f ∷ fs) [] e = absurd (not_empty _ _ e)
write_fields_inj (f ∷ fs) (g ∷ gs) e =
    let n = number_inj (length f) (length g) _ _ e in
    let p = append_inj f g _ _ n.0 n.1 in ground (arith, p.0, write_fields_inj fs gs p.1)

provider_inj : (a b : SandboxProvider) → provider_text a ≡ provider_text b → a ≡ b
provider_inj incus incus e = refl
provider_inj incus e2b e = cc
provider_inj e2b incus e = cc
provider_inj e2b e2b e = refl

bool_inj : (a b : Bool) → bool_text a ≡ bool_text b → a ≡ b
bool_inj true true e = refl
bool_inj true false e = cc
bool_inj false true e = cc
bool_inj false false e = refl

-- Two definitions with the same canonical text are equal in every field.
pub canonical_inj : (d e : Definition) → canonical d ≡ canonical e → d ≡ e
unfolding canonical
canonical_inj d e h =
    let all : hash_fields d ≡ hash_fields e = write_fields_inj _ _ h in
    ground (
      arith,
      all,
      provider_inj d.provider e.provider,
      decimal_inj d.e2b_sandbox_timeout e.e2b_sandbox_timeout,
      bool_inj d.e2b_allow_internet e.e2b_allow_internet,
    )
