-- ===== src/Upgrade/Cleanup/Ownership.antt =====
-- Upgrade cleanup belongs to the task that cleans the Session up.
use dorf.Base.{◌≡◌, ◌⊎◌, inl, inr, false, not, ◌||◌, Option, some, Text, arith, Bool-cases}
use dorf.Base.Results.{Done}
use dorf.Core.Domain.{Session, Sandbox, scheduled, is_scheduled}
use dorf.Upgrade.Receipt.{Receipt}
use dorf.Store.Db.{Absurd}
use dorf.Store.Sandboxes.{find_session}
use dorf.Upgrade.Driver.{Driver}
use dorf.Effects.{World, Eff, ◌>>=◌, ◌>>◌, refuse_if, look_up}
use dorf.Upgrade.Service.{foreign_task}
use dorf.Upgrade.Cleanup.{cleanup}

module _ (service : Absurd) (driver : Driver) where
  -- Unless the Session is closed, its cleanup scheduled and the caller's task current, upgrade cleanup
  -- does nothing, whatever it is asked to do for each receipt.
  pub cleanup-requires :
      (task : Option Text) (session : Text) (fn : Receipt → Sandbox → Eff Done) (w : World)
      (row : Session)
      → find_session w.db session ≡ some row
      → ((cleanup service driver task session fn w).1 ≡ w)
        ⊎ ((foreign_task task row ≡ false)
            × (row.admission_open ≡ false)
            × (row.cleanup_state ≡ scheduled))
  unfolding cleanup look_up refuse_if ◌>>=◌ ◌>>◌
  cleanup-requires task session fn w row e = elim (Bool-cases (foreign_task task row)) [
    | inl f ↦ inl (ground (arith, e, f))
    | inr f ↦ elim (Bool-cases (row.admission_open || not (is_scheduled row.cleanup_state))) [
      | inl g ↦ inl (ground (arith, e, f, g))
      | inr g ↦ inr (f, ground (arith, g), ground (arith, g))
    ]
  ]
