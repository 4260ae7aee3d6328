-- ===== src/Store/Upgrades/Facts.antt =====
-- The facts of a receipt: what each rests on, and the statements that record them.
use dorf.Base.{◌≡◌, ◌⊎◌, Bool, true, false, ◌&&◌, ◌||◌, Option, none, Text, is_some}
use dorf.Base.Results.{Done}
use dorf.Upgrade.Receipt.{Checkpoint}
use dorf.Store.Db.{UpgradeRow, Tx}
use dorf.Store.Upgrades.{
  record_upgrade_preparation, record_upgrade_quiesced, record_upgrade_checkpoint,
  record_upgrade_activated, request_upgrade_rollback, bind_upgrade_destination, mark_restored,
  record_upgrade_verified, record_upgrade_checkpoint_deleted, record_upgrade_finished,
}

abbrev pub Implies : Bool → Bool → Type 0
Implies a b = (a ≡ false) ⊎ (b ≡ true)

-- No fact is recorded before those that it rests on.
pub record IsOrdered (u : UpgradeRow) : Type 0 where
  pub quiesced : Implies (is_some u.quiesced_at) (is_some u.previous_version)
  pub captured : Implies (is_some u.checkpoint_reference) (is_some u.quiesced_at)
  pub keyed : is_some u.checkpoint_key ≡ is_some u.checkpoint_reference
  pub sourced : is_some u.checkpoint_source_id ≡ is_some u.checkpoint_reference
  pub activated : Implies (is_some u.activated_at) (is_some u.checkpoint_reference)
  pub rolled : Implies (is_some u.rollback_at) (is_some u.checkpoint_reference)
  pub coded : is_some u.failure_code ≡ is_some u.rollback_at
  pub bound : Implies (is_some u.destination_resource_id) (is_some u.rollback_at)
  pub restored : Implies (is_some u.restored_at) (is_some u.destination_resource_id)
  pub verified : Implies (is_some u.verified_at) (is_some u.activated_at || is_some u.restored_at)
  pub recovered : Implies (is_some u.verified_at && is_some u.rollback_at) (is_some u.restored_at)
  pub dropped : Implies (is_some u.checkpoint_deleted_at) (is_some u.checkpoint_reference)
  pub finished : Implies (is_some u.finished_at) (is_some u.verified_at)

abbrev pub Kept : {A : Type 0} → Option A → Option A → Type 0
Kept a b = (a ≡ none) ⊎ (b ≡ a)

-- The second row has every fact of the first, as it was.
pub record Extends (u v : UpgradeRow) : Type 0 where
  pub sandbox_id : v.sandbox_id ≡ u.sandbox_id
  pub source_resource_id : v.source_resource_id ≡ u.source_resource_id
  pub package_path : v.package_path ≡ u.package_path
  pub version : v.version ≡ u.version
  pub requested_at : v.requested_at ≡ u.requested_at
  pub destination_resource_id : Kept u.destination_resource_id v.destination_resource_id
  pub previous_version : Kept u.previous_version v.previous_version
  pub quiesced_at : Kept u.quiesced_at v.quiesced_at
  pub checkpoint_key : Kept u.checkpoint_key v.checkpoint_key
  pub checkpoint_source_id : Kept u.checkpoint_source_id v.checkpoint_source_id
  pub checkpoint_reference : Kept u.checkpoint_reference v.checkpoint_reference
  pub activated_at : Kept u.activated_at v.activated_at
  pub rollback_at : Kept u.rollback_at v.rollback_at
  pub failure_code : Kept u.failure_code v.failure_code
  pub restored_at : Kept u.restored_at v.restored_at
  pub verified_at : Kept u.verified_at v.verified_at
  pub checkpoint_deleted_at : Kept u.checkpoint_deleted_at v.checkpoint_deleted_at
  pub finished_at : Kept u.finished_at v.finished_at

-- The statements that record a fact.
pub data Recording : Type 0 where
  prepared : (version : Text) → Recording
  quiesced activated restored verified checkpoint_deleted finished : Recording
  checkpointed : Checkpoint → Recording
  rollback_requested : (code : Text) → Recording
  destination_bound : (resource : Text) → Recording

abbrev pub perform : Text → Recording → Tx Done
perform id (prepared version) = record_upgrade_preparation id version
perform id quiesced = record_upgrade_quiesced id
perform id activated = record_upgrade_activated id
perform id restored = mark_restored id
perform id verified = record_upgrade_verified id
perform id checkpoint_deleted = record_upgrade_checkpoint_deleted id
perform id finished = record_upgrade_finished id
perform id (checkpointed c) = record_upgrade_checkpoint id c
perform id (rollback_requested code) = request_upgrade_rollback id code
perform id (destination_bound resource) = bind_upgrade_destination id resource
