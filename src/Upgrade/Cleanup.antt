-- ===== src/Upgrade/Cleanup.antt =====
-- internal/upgrade/cleanup.go: what is left of an upgrade when its Session is cleaned up.
pub mod Ownership
pub mod Serving
use dorf.Base.{not, ◌&&◌, ◌||◌, Option, some, List, [], ◌∷◌, Text, txt, ◌==◌, is_some}
use dorf.Base.Results.{not_found, Done}
use dorf.Core.Domain.{Sandbox, is_scheduled}
use dorf.Upgrade.Receipt.{Receipt}
use dorf.Upgrade.Driver.{Driver}
use dorf.Effects.{captured, Eff, ◌>>=◌, ◌>>◌, pure, branch, refuse_if, look_up, call}
use dorf.Upgrade.Service.{
  foreign_task, resource_of, session_row, resource_deleted, require_claim, save, perform,
  delete_resource, delete_checkpoint,
}
use dorf.Store.Db.{Absurd}
use dorf.Store.Sandboxes.{find_sandbox}
use dorf.Store.Upgrades.{record_upgrade_checkpoint}
use dorf.Store.Upgrades.Listing.{session_upgrades}

-- `for _, x := range xs`, which stops at the first error.
unfoldable pub for_each : {A : Type 0} → (A → Eff Done) → List A → Eff Done
for_each f [] = pure tt
for_each f (x ∷ xs) = f x >> for_each f xs

module _ (service : Absurd) (driver : Driver) where
  -- `cleanup`.
  unfoldable pub cleanup : Option Text → Text → (Receipt → Sandbox → Eff Done) → Eff Done
  cleanup task session fn = do
    row ← session_row session
    refuse_if (foreign_task task row) "upgrade cleanup no longer owns the Session task"
    refuse_if (row.admission_open || not (is_scheduled row.cleanup_state))
        "upgrade cleanup requires the scheduled Session cleanup owner"
    require_claim service driver
    receipts ← look_up (λ db. some (session_upgrades db session)) not_found
    for_each (λ r. resource_of session r.sandbox_id r.source_resource_id >>= λ source. fn r source)
        receipts

  -- A capture whose acknowledgement may be lost is resolved first.
  unfoldable pub resolve_capture : Receipt → Sandbox → Eff Done
  resolve_capture r source =
      branch (is_some r.quiesced_at && r.checkpoint.reference == [])
        (perform service driver r (txt "checkpoint-reconcile") (do
          checkpoint ←
              call (captured source.resource_id) (λ calls. driver.capture calls source r.id)
          save service driver (record_upgrade_checkpoint r.id checkpoint)))
        (pure tt)

  -- A resource that is not the active one is deleted, unless it is already.
  unfoldable pub delete_inactive : Text → Receipt → Text → Text → Eff Done
  delete_inactive session r active id = branch (id == [] || id == active) (pure tt) (do
    deleted ← resource_deleted session id
    branch deleted (pure tt)
        (resource_of session r.sandbox_id id >>= λ owned. delete_resource service driver r owned))

  -- `PrepareCleanup`.
  unfoldable pub prepare_cleanup : Option Text → Text → Eff Done
  prepare_cleanup task session = cleanup task session (λ r source. do
    resolve_capture r source
    active ← look_up (λ db. find_sandbox db r.sandbox_id) not_found
    for_each (delete_inactive session r active.resource_id)
        (r.source_resource_id ∷ r.destination_resource_id ∷ []))

  -- `CompleteCleanup`.
  unfoldable pub complete_cleanup : Option Text → Text → Eff Done
  complete_cleanup task session = cleanup task session (λ r source.
      branch (r.checkpoint.reference == [] || is_some r.checkpoint_deleted_at) (pure tt)
        (delete_checkpoint service driver r source))
