-- ===== src/Effects.antt =====
-- What the services act on: the database, and the world outside, which answers calls. Each call is
-- kept, newest first, and an answer may depend on the calls before it.
use dorf.Base.{Bool, true, false, Option, none, some, List, ◌∷◌, String, Text}
use dorf.Base.Results.{Result, ok, err, Error, message, Done}
use dorf.Store.Db.{Db, Tx}

pub data Call : Type 0 where
  checked_claim : Call
  inspected_package quiesced captured activated restored verified deleted_resource :
      (resource_id : Text) → Call
  created_sandbox created_route revoked_route deleted_sandbox paused_sandbox asked_native
        read_turns :
      (resource_id : Text) → Call
  deleted_checkpoint : (reference : Text) → Call

pub record World : Type 0 where
  pub db : Db
  pub calls : List Call

-- An effect may fail after some of it has happened: what was committed or called stays.
abbrev pub Eff : Type 0 → Type 0
Eff A = World → Result A × World

infixl 5 ◌>>=◌ ◌>>◌
unfoldable pub ◌>>=◌ : {A B : Type 0} → Eff A → (A → Eff B) → Eff B
◌>>=◌ m f w = let (r, w') = m w in elim r [ ok a ↦ f a w' | err e ↦ (err e, w') ]

unfoldable pub ◌>>◌ : {B : Type 0} → Eff Done → Eff B → Eff B
◌>>◌ m k = m >>= λ _. k

unfoldable pub pure : {A : Type 0} → A → Eff A
pure a w = (ok a, w)

unfoldable pub fail : {A : Type 0} → Error → Eff A
fail e w = (err e, w)

unfoldable pub branch : {A : Type 0} → Bool → Eff A → Eff A → Eff A
branch test m k w = elim test [ true ↦ m w | false ↦ k w ]

unfoldable pub refuse_if : Bool → String → Eff Done
refuse_if test s w = elim test [ true ↦ (err (message s), w) | false ↦ (ok tt, w) ]

-- A transaction of its own.
unfoldable pub transact : {A : Type 0} → Tx A → Eff A
transact m w = elim (m w.db) [ ok (a, db) ↦ (ok a, record w { db = db }) | err e ↦ (err e, w) ]

-- A reader, or the error where there is no row.
unfoldable pub look_up : {A : Type 0} → (Db → Option A) → Error → Eff A
look_up f e w = elim (f w.db) [ none ↦ (err e, w) | some a ↦ (ok a, w) ]

unfoldable pub call : {A : Type 0} → Call → (List Call → Result A) → Eff A
call c answer w = (answer w.calls, record w { calls = c ∷ w.calls })
