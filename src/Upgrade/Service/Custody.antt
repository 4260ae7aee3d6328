-- ===== src/Upgrade/Service/Custody.antt =====
-- What a reconciliation keeps in custody.
use dorf.Base.{◌≡◌, refl, ◌∙◌, Bool, true, false, Option, String, inl, inr, Option-cases}
use dorf.Base.Results.{Result, ok, Error, Done, Result-cases}
use dorf.Effects.{
  Call, World, Eff, ◌>>=◌, ◌>>◌, pure, fail, branch, refuse_if, transact, look_up, call,
}
use dorf.Store.Db.{Db, Tx}
use dorf.Base.{List}

-- Holds and Sandbox bindings are as they were.
pub record Kept (db db' : Db) : Type 0 where
  pub holds : db'.holds ≡ db.holds
  pub bindings : db'.sandboxes ≡ db.sandboxes

abbrev pub Keeps : {A : Type 0} → Eff A → Type 0
Keeps m = (w : World) → Kept w.db (m w).1.db

abbrev pub KeepsTx : {A : Type 0} → Tx A → Type 0
KeepsTx {A} m = (db db' : Db) (a : A) → m db ≡ ok (a, db') → Kept db db'

pub Kept-refl : (db : Db) → Kept db db
Kept-refl db = record { holds = refl; bindings = refl }

pub Kept-trans : (a b c : Db) → Kept a b → Kept b c → Kept a c
Kept-trans a b c h k = record { holds = k.holds ∙ h.holds; bindings = k.bindings ∙ h.bindings }

pub bind-Keeps :
    {A B : Type 0} (m : Eff A) (f : A → Eff B) → Keeps m → ((a : A) → Keeps (f a)) → Keeps (m >>= f)
unfolding ◌>>=◌
bind-Keeps m f h k w = elim (Result-cases (m w).0) [
  | inl (a, e) ↦ rw (◌>>=◌, e) (Kept-trans w.db (m w).1.db (f a (m w).1).1.db (h w) (k a (m w).1))
  | inr (x, e) ↦ rw (◌>>=◌, e) (h w)
]

pub transact-Keeps : {A : Type 0} (m : Tx A) → KeepsTx m → Keeps (transact m)
unfolding transact
transact-Keeps m h w = elim (Result-cases (m w.db)) [
  | inl ((a, db), e) ↦ rw (transact, e) (h w.db db a e)
  | inr (x, e) ↦ rw (transact, e) (Kept-refl w.db)
]

pub look_up-Keeps : {A : Type 0} (f : Db → Option A) (e : Error) → Keeps (look_up f e)
unfolding look_up
look_up-Keeps f e w = elim (Option-cases (f w.db)) [
  | inl q ↦ rw (look_up, q) (Kept-refl w.db)
  | inr (a, q) ↦ rw (look_up, q) (Kept-refl w.db)
]

pub call-Keeps : {A : Type 0} (c : Call) (f : List Call → Result A) → Keeps (call c f)
unfolding call
call-Keeps c f w = Kept-refl w.db

pub branch-Keeps :
    {A : Type 0} (test : Bool) (m k : Eff A) → Keeps m → Keeps k → Keeps (branch test m k)
unfolding branch
branch-Keeps true m k h q = h
branch-Keeps false m k h q = q

pub refuse_if-Keeps : (test : Bool) (s : String) → Keeps (refuse_if test s)
unfolding refuse_if
refuse_if-Keeps true s w = Kept-refl w.db
refuse_if-Keeps false s w = Kept-refl w.db

pub pure-Keeps : {A : Type 0} (a : A) → Keeps (pure a)
unfolding pure
pure-Keeps a w = Kept-refl w.db

pub then-Keeps : {B : Type 0} (m : Eff Done) (k : Eff B) → Keeps m → Keeps k → Keeps (m >> k)
unfolding ◌>>◌
then-Keeps m k h q = bind-Keeps m (λ _. k) h (λ _. q)

pub fail-Keeps : (A : Type 0) (e : Error) → Keeps (fail {A = A} e)
unfolding fail
fail-Keeps A e w = Kept-refl w.db
