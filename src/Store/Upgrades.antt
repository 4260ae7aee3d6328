-- ===== src/Store/Upgrades.antt =====
-- internal/postgres/upgrades.go and its queries: the receipt rows of package upgrades. A receipt is
-- recorded one fact at a time, and each statement carries its own precondition.
-- The fresh ownership nonce of a replacement is random: it is an argument.
pub mod Facts
pub mod Order
pub mod History
pub mod Listing
use dorf.Base.{
  ℕ, ◌≡◌, Bool, true, false, not, ◌&&◌, ◌||◌, Option, none, some, List, [], ◌∷◌, ◌++◌, Text, txt,
  ◌==◌, is_some,
}
use dorf.Base.Results.{ok, err, Error, no_rows, message, constraint, Done}
use dorf.Core.Domain.{Session, Sandbox, is_pending}
use dorf.Upgrade.Receipt.{Request, Checkpoint, Receipt, is_valid_request}
use dorf.Store.Table.{Table, get, put, update, any_row}
use dorf.Store.Tasks.{latest_task}
use dorf.Store.Holds.{
  get_sandbox_delivery_hold, insert_sandbox_delivery_hold, release_sandbox_delivery_hold,
  require_sandbox_delivery_unheld, with_delivery_hold,
}
use dorf.Store.Native.{is_settled}
use dorf.Store.Wakes.{signal_session_execution_wake}
use dorf.Store.Sandboxes.{
  find_sandbox, get_sandbox, reserve_sandbox_resource, bind_recovered_resource,
  switch_sandbox_resource,
}
use dorf.Store.Db.{
  SessionRow, ResourceRow, UpgradeRow, Db, Absurd, Tx, ◌>>=◌, ◌>>◌, pure, fail, refuse_if, branch,
  one, exec, expect_one_rows, or_now, or_empty, null_if_empty,
}

-- The locator of a resource, empty where there is none.
abbrev pub provider_of : Table ResourceRow → Option Text → Text
provider_of t none = []
provider_of t (some id) = elim (get id t) [ none ↦ [] | some r ↦ or_empty r.provider_id ]

abbrev pub receipt_of : Text → Text → Table ResourceRow → UpgradeRow → Receipt
receipt_of id session resources u = record {
  request = record {
    id = id;
    session_id = session;
    sandbox_id = u.sandbox_id;
    package_path = u.package_path;
    version = u.version;
  };
  source_resource_id = u.source_resource_id;
  source_provider_id = provider_of resources (some u.source_resource_id);
  destination_provider_id = provider_of resources u.destination_resource_id;
  destination_resource_id = or_empty u.destination_resource_id;
  requested_at = u.requested_at;
  previous_version = or_empty u.previous_version;
  quiesced_at = u.quiesced_at;
  checkpoint = record {
    key = or_empty u.checkpoint_key;
    reference = or_empty u.checkpoint_reference;
    source_id = or_empty u.checkpoint_source_id;
  };
  activated_at = u.activated_at;
  rollback_at = u.rollback_at;
  failure_code = or_empty u.failure_code;
  restored_at = u.restored_at;
  verified_at = u.verified_at;
  checkpoint_deleted_at = u.checkpoint_deleted_at;
  finished_at = u.finished_at;
}

-- `GetSandboxUpgrade`: the row joined with its Sandbox and its resources. Its source is there by a
-- foreign key.
unfoldable pub find_upgrade : Db → Text → Option Receipt
find_upgrade db id = elim (get id db.upgrades) [
  | none ↦ none
  | some u ↦ elim (get u.sandbox_id db.sandboxes) [
    | none ↦ none
    | some s ↦ some (receipt_of id s.session_id db.resources u)
  ]
]

-- `UpgradeQuiescent`: no native mutation of the Sandbox's Session is pending.
unfoldable pub upgrade_quiescent : Text → Tx Bool
upgrade_quiescent sandbox = one λ db. elim (get sandbox db.sandboxes) [
  | none ↦ none
  | some s ↦ elim (get s.session_id db.sessions) [ none ↦ none | some r ↦ some (is_settled r) ]
]

-- A statement on one receipt row.
abbrev pub update_upgrade : Text → (UpgradeRow → Bool) → (ℕ → UpgradeRow → UpgradeRow) → Tx Done
update_upgrade id test change = expect_one_rows (
    exec λ db.
      let (t, n) = update id test (change db.clock) db.upgrades in (record db { upgrades = t }, n))

abbrev pub unset_or_same : Option Text → Text → Bool
unset_or_same none t = true
unset_or_same (some s) t = s == t

unfoldable pub record_upgrade_preparation : Text → Text → Tx Done
record_upgrade_preparation id version =
    update_upgrade id (λ u. unset_or_same u.previous_version version)
      (λ now u. record u { previous_version = some version })

unfoldable pub record_upgrade_quiesced : Text → Tx Done
record_upgrade_quiesced id =
    update_upgrade id (λ u. is_some u.previous_version)
      (λ now u. record u { quiesced_at = or_now u.quiesced_at now })

unfoldable pub record_upgrade_checkpoint : Text → Checkpoint → Tx Done
record_upgrade_checkpoint id c = do
  refuse_if (not (c.key == id) || (c.reference == [] || c.source_id == []))
      "checkpoint omitted exact upgrade identity"
  update_upgrade id
      (λ u.
        is_some u.quiesced_at
        && (not (is_some u.checkpoint_reference)
            || (or_empty u.checkpoint_key == c.key
                && (or_empty u.checkpoint_reference == c.reference
                    && or_empty u.checkpoint_source_id == c.source_id))))
      (λ now u. record u {
        checkpoint_key = some c.key;
        checkpoint_reference = some c.reference;
        checkpoint_source_id = some c.source_id;
      })

unfoldable pub record_upgrade_activated : Text → Tx Done
record_upgrade_activated id =
    update_upgrade id (λ u. is_some u.checkpoint_reference && not (is_some u.rollback_at))
      (λ now u. record u { activated_at = or_now u.activated_at now })

abbrev pub or_text : Option Text → Text → Option Text
or_text none t = some t
or_text (some s) t = some s

unfoldable pub request_upgrade_rollback : Text → Text → Tx Done
request_upgrade_rollback id code =
    update_upgrade id (λ u. is_some u.checkpoint_reference && not (is_some u.verified_at))
      (λ now u. record u {
        rollback_at = or_now u.rollback_at now;
        failure_code = or_text u.failure_code code;
      })

unfoldable pub bind_upgrade_destination : Text → Text → Tx Done
bind_upgrade_destination id resource =
    update_upgrade id
      (λ u. is_some u.rollback_at && unset_or_same u.destination_resource_id resource)
      (λ now u. record u { destination_resource_id = some resource })

abbrev pub replacement_of : Text → Text
replacement_of id = id ++ txt ":replacement"

-- A destination that is bound already is kept.
unfoldable pub reserve_upgrade_destination : Receipt → Bool → Text → Tx Done
reserve_upgrade_destination r replace nonce = do
  u ← one λ db. get r.id db.upgrades
  branch (is_some u.destination_resource_id) (pure tt) (
      branch replace
        (do
          reserve_sandbox_resource (replacement_of r.id) r.sandbox_id nonce
          bind_upgrade_destination r.id (replacement_of r.id))
        (bind_upgrade_destination r.id u.source_resource_id))

unfoldable pub mark_restored : Text → Tx Done
mark_restored id =
    update_upgrade id (λ u. is_some u.destination_resource_id && is_some u.rollback_at)
      (λ now u. record u { restored_at = or_now u.restored_at now })

unfoldable pub record_upgrade_restored : Receipt → Text → Tx Done
record_upgrade_restored r provider = do
  refuse_if (provider == []) "recovery omitted provider resource identity"
  expect_one_rows (bind_recovered_resource r.destination_resource_id provider)
  mark_restored r.id

unfoldable pub record_upgrade_verified : Text → Tx Done
record_upgrade_verified id =
    update_upgrade id
      (λ u.
        (is_some u.activated_at || is_some u.restored_at)
        && (not (is_some u.rollback_at) || is_some u.restored_at))
      (λ now u. record u { verified_at = or_now u.verified_at now })

unfoldable pub record_upgrade_checkpoint_deleted : Text → Tx Done
record_upgrade_checkpoint_deleted id =
    update_upgrade id (λ u. is_some u.checkpoint_reference)
      (λ now u. record u { checkpoint_deleted_at = or_now u.checkpoint_deleted_at now })

unfoldable pub record_upgrade_finished : Text → Tx Done
record_upgrade_finished id =
    update_upgrade id (λ u. is_some u.verified_at)
      (λ now u. record u { finished_at = or_now u.finished_at now })
