-- ===== src/Store/Recovery.antt =====
-- internal/postgres/recovery.go and its queries: the transactions that recover a Sandbox from a
-- checkpoint. The random nonce of the replacement is an argument.
pub mod Release
pub mod Replay
pub mod Abandon
pub mod Acquire
use dorf.Base.{
  ℕ, Bool, true, false, not, ◌&&◌, ◌||◌, Option, none, some, List, [], ◌∷◌, ◌++◌, Text, txt, ◌==◌,
  eqb, leb, length, is_some,
}
use dorf.Base.Results.{ok, err, checkpoint_not_found, message, constraint, Done}
use dorf.Std.Strings.{trim_space}
use dorf.Core.Domain.{Session, Sandbox, is_scheduled}
use dorf.Persistence.Recovery.{
  Checkpoint, RecoveryRequest, EffectivePackage, RecoveryReceipt, are_exact_identities, is_snapshot,
}
use dorf.Store.Table.{Table, get, put, update, any_row}
use dorf.Store.Holds.{
  is_held, get_sandbox_delivery_hold, insert_hold, release_sandbox_delivery_hold,
  require_sandbox_delivery_unheld, with_delivery_hold,
}
use dorf.Store.Wakes.{signal_session_execution_wake}
use dorf.Store.Sandboxes.{
  find_session, get_sandbox, reserve_sandbox_resource, bind_recovered_resource,
  switch_sandbox_resource,
}
use dorf.Store.Upgrades.{provider_of, upgrade_quiescent}
use dorf.Store.Native.{is_open, is_settled}
use dorf.Store.Db.{
  SessionRow, SandboxRow, ResourceRow, HoldRow, UpgradeRow, CheckpointRow, RecoveryRow, Db, Absurd,
  Tx, ◌>>=◌, ◌>>◌, pure, refuse_if, branch, one, exec, expect_one_rows, or_now, or_empty,
}

-- `GetSandboxCheckpointByReference`.
unfoldable pub find_checkpoint : List CheckpointRow → Text → Text → Option CheckpointRow
find_checkpoint [] repository snapshot = none
find_checkpoint (c ∷ cs) repository snapshot =
    let rest = find_checkpoint cs repository snapshot in
    elim (c.repository == repository && c.snapshot_id == snapshot) [ true ↦ some c | false ↦ rest ]

abbrev pub checkpoint_of : Text → Text → CheckpointRow → Checkpoint
checkpoint_of session sandbox c = record {
  session_id = session;
  sandbox_id = sandbox;
  resource_id = c.resource_id;
  profile_name = c.profile_name;
  profile_revision = c.profile_revision;
  effective_upgrade_id = or_empty c.effective_upgrade_id;
  last_activity_at = c.last_activity_at;
  native_revision = c.native_revision;
  delivery_hold_count = c.delivery_hold_count;
  cleanup = c.cleanup;
  repository = c.repository;
  snapshot_id = c.snapshot_id;
  published_at = c.published_at;
}

abbrev pub upgrade_at : Table UpgradeRow → Option Text → Option UpgradeRow
upgrade_at t none = none
upgrade_at t (some id) = get id t

abbrev pub package_of : Option Text → Option UpgradeRow → EffectivePackage
package_of id none = record { upgrade_id = or_empty id; package_path = []; version = [] }
package_of id (some u) = record {
  upgrade_id = or_empty id;
  package_path = u.package_path;
  version = u.version;
}

abbrev pub deleted_of : Table ResourceRow → Text → Option ℕ
deleted_of t id = elim (get id t) [ none ↦ none | some r ↦ r.deleted_at ]

-- `recoveryReceipt`.
abbrev pub recovery_receipt : Db → Text → Text → RecoveryRow → CheckpointRow → RecoveryReceipt
recovery_receipt db id session v c = record {
  request = record {
    id = id;
    session_id = session;
    sandbox_id = v.sandbox_id;
    repository = v.checkpoint_repository;
    snapshot_id = v.checkpoint_snapshot_id;
  };
  checkpoint = checkpoint_of session v.sandbox_id c;
  source_resource_id = v.source_resource_id;
  source_provider_id = provider_of db.resources (some v.source_resource_id);
  destination_resource_id = v.destination_resource_id;
  destination_provider_id = provider_of db.resources (some v.destination_resource_id);
  effective_package =
      package_of c.effective_upgrade_id (upgrade_at db.upgrades c.effective_upgrade_id);
  requested_at = v.requested_at;
  destination_deleted_at = deleted_of db.resources v.destination_resource_id;
  verified_at = v.verified_at;
  source_deleted_at = deleted_of db.resources v.source_resource_id;
  finished_at = v.finished_at;
}

-- `GetCheckpointRecovery`, which joins the Sandbox, the source and the checkpoint.
unfoldable pub find_recovery : Db → Text → Option RecoveryReceipt
find_recovery db id = elim (get id db.recoveries) [
  | none ↦ none
  | some v ↦ elim (get v.sandbox_id db.sandboxes) [
    | none ↦ none
    | some s ↦ elim (get v.source_resource_id db.resources) [
      | none ↦ none
      | some _ ↦
          elim (find_checkpoint db.checkpoints v.checkpoint_repository v.checkpoint_snapshot_id) [
            | none ↦ none
            | some c ↦ some (recovery_receipt db id s.session_id v c)
          ]
    ]
  ]
]

-- Go compares the requests field by field.
abbrev pub same_recovery : RecoveryRequest → RecoveryRequest → Bool
same_recovery a b =
    a.id == b.id
    && (a.session_id == b.session_id
        && (a.sandbox_id == b.sandbox_id
            && (a.repository == b.repository && a.snapshot_id == b.snapshot_id)))

-- `authorizeCheckpointRecoveryRequest`.
unfoldable pub authorize_recovery_request : RecoveryRequest → Tx Sandbox
authorize_recovery_request r = do
  session ← one λ db. find_session db r.session_id
  c ← (λ db. elim (find_checkpoint db.checkpoints r.repository r.snapshot_id) [
    | none ↦ err checkpoint_not_found
    | some c ↦ elim (get c.sandbox_id db.sandboxes) [
      | none ↦ err checkpoint_not_found
      | some s ↦ ok (checkpoint_of s.session_id c.sandbox_id c, db)
    ]
  ])
  refuse_if (not (c.session_id == r.session_id) || not (c.sandbox_id == r.sandbox_id))
      "checkpoint belongs to a different Session Sandbox"
  refuse_if
      (not (c.profile_name == session.sandbox_profile)
        || not (c.profile_revision == session.sandbox_profile_revision))
      "checkpoint requires a different Sandbox profile revision"
  owned ← get_sandbox r.sandbox_id
  refuse_if (owned.provider_id == []) "checkpoint recovery requires retained source custody"
  pure owned

abbrev pub new_recovery : RecoveryRequest → Text → Text → ℕ → RecoveryRow
new_recovery r source destination now = record {
  sandbox_id = r.sandbox_id;
  checkpoint_repository = r.repository;
  checkpoint_snapshot_id = r.snapshot_id;
  source_resource_id = source;
  destination_resource_id = destination;
  requested_at = now;
  verified_at = none;
  finished_at = none;
}

abbrev pub resource_is_of : Table ResourceRow → Text → Text → Bool
resource_is_of t id sandbox = elim (get id t) [ none ↦ false | some v ↦ v.sandbox_id == sandbox ]

-- The primary key, the foreign keys, the check of the resources, and the index
-- `sandbox_recoveries_one_unfinished`.
unfoldable pub insert_checkpoint_recovery : RecoveryRequest → Text → Text → Tx Done
insert_checkpoint_recovery r source destination db =
    elim (is_some (get r.id db.recoveries)
      || (not (is_some (get r.id db.holds))
          || (not (is_some (find_checkpoint db.checkpoints r.repository r.snapshot_id))
              || (not (resource_is_of db.resources source r.sandbox_id)
                  || (not (resource_is_of db.resources destination r.sandbox_id)
                      || (source == destination
                          || any_row
                              (λ _ v. v.sandbox_id == r.sandbox_id && not (is_some v.finished_at))
                              db.recoveries)))))) [
                                | true ↦ err (constraint "sandbox_recoveries")
                                | false ↦ ok (
                                  tt,
                                  record db {
                                    recoveries =
                                        put r.id (new_recovery r source destination db.clock)
                                          db.recoveries;
                                  },
                                )
                              ]

abbrev pub replacement_of : Text → Text
replacement_of id = id ++ txt ":replacement"

-- `insertCheckpointRecoveryRequest`, with the random nonce.
unfoldable pub insert_recovery_request : RecoveryRequest → Text → Text → Tx Done
insert_recovery_request r source nonce = do
  insert_hold (txt "checkpoint_recovery") r.id r.sandbox_id
  reserve_sandbox_resource (replacement_of r.id) r.sandbox_id nonce
  insert_checkpoint_recovery r source (replacement_of r.id)

-- `RecoveryNativeStateSafe`: the native work is settled, at the revision of the checkpoint.
unfoldable pub recovery_native_safe : Text → ℕ → Tx Bool
recovery_native_safe sandbox revision = one λ db. elim (get sandbox db.sandboxes) [
  | none ↦ none
  | some s ↦ elim (get s.session_id db.sessions) [
    | none ↦ none
    | some r ↦ some (eqb r.native_revision revision && is_settled r)
  ]
]

-- `RecordRecoveryRestored`.
unfoldable pub record_recovery_restored : RecoveryReceipt → Text → Tx Done
record_recovery_restored r provider = do
  refuse_if (provider == [] || not (trim_space provider == provider))
      "recovery omitted provider resource identity"
  expect_one_rows (bind_recovered_resource r.destination_resource_id provider)

abbrev pub update_recovery : Text → (RecoveryRow → Bool) → (ℕ → RecoveryRow → RecoveryRow) → Tx Done
update_recovery id test change = expect_one_rows (
    exec λ db.
      let (t, n) = update id test (change db.clock) db.recoveries in
      (record db { recoveries = t }, n))

unfoldable pub record_recovery_verified : Text → Tx Done
record_recovery_verified id =
    update_recovery id (λ v. true) (λ now v. record v { verified_at = or_now v.verified_at now })

unfoldable pub record_recovery_finished : Text → Tx Done
record_recovery_finished id =
    update_recovery id (λ v. is_some v.verified_at)
      (λ now v. record v { finished_at = or_now v.finished_at now })

-- `authorizeRecoveryRelease`.
unfoldable pub authorize_recovery_release : Session → RecoveryReceipt → Tx Done
authorize_recovery_release session r = do
  hold ← get_sandbox_delivery_hold r.request.id
  refuse_if
      (not (hold.sandbox_id == r.request.sandbox_id)
        || (not (hold.reason == txt "checkpoint_recovery")
            || (not (is_held hold)
                || (not (is_some r.verified_at) || not (is_some r.source_deleted_at)))))
      "recovery requires its held verified receipt"
  refuse_if
      (not (r.checkpoint.profile_name == session.sandbox_profile)
        || not (r.checkpoint.profile_revision == session.sandbox_profile_revision))
      "recovery profile revision changed"
  safe ← recovery_native_safe r.request.sandbox_id r.checkpoint.native_revision
  refuse_if (not safe) "native work exists beyond the selected checkpoint"
  refuse_if (r.destination_provider_id == [] || is_some r.destination_deleted_at)
      "recovery destination is not available"

-- The joins of `AbandonCheckpointRecovery`, for the hold of the receipt.
abbrev pub is_abandonable : RecoveryRow → SandboxRow → SessionRow → ResourceRow → HoldRow → Bool
is_abandonable v s j destination h =
    h.reason == txt "checkpoint_recovery"
    && (h.sandbox_id == v.sandbox_id
        && (not (is_some v.finished_at)
            && (s.active_resource_id == v.source_resource_id
                && (is_some destination.deleted_at
                    && (not j.admission_open && is_scheduled j.cleanup_state)))))

unfoldable pub can_abandon : Db → Text → HoldRow → Bool
can_abandon db id h = elim (get id db.recoveries) [
  | none ↦ false
  | some v ↦ elim (get v.sandbox_id db.sandboxes) [
    | none ↦ false
    | some s ↦ elim (get s.session_id db.sessions) [
      | none ↦ false
      | some j ↦ elim (get v.destination_resource_id db.resources) [
        | none ↦ false
        | some destination ↦ is_abandonable v s j destination h
      ]
    ]
  ]
]

-- `AbandonCheckpointRecoveryForCleanup`.
unfoldable pub abandon_recovery_for_cleanup : RecoveryReceipt → Tx Done
abandon_recovery_for_cleanup r = do
  quiet ← upgrade_quiescent r.request.sandbox_id
  refuse_if (not quiet) "native delivery is not quiescent"
  expect_one_rows (
      exec λ db.
        let (t, n) =
          update r.request.id (can_abandon db r.request.id)
            (λ h. record h { released_at = or_now h.released_at db.clock }) db.holds in
        (record db { holds = t }, n))

-- `Validate`, of internal/persistence/recovery.go.
unfoldable pub validate_recovery : RecoveryRequest → Tx Done
validate_recovery r = do
  refuse_if (not (are_exact_identities r)) "recovery requires exact bounded identities"
  refuse_if (not (leb (length r.id) 200)) "recovery identity must be at most 200 characters"
  refuse_if (not (is_snapshot r.snapshot_id)) "recovery requires an exact snapshot ID"

module _ (service : Absurd) where
  -- The transaction's body for a request whose identity is new.
  unfoldable pub begin_recovery : RecoveryRequest → Text → SessionRow → Tx RecoveryReceipt
  begin_recovery r nonce row = do
    refuse_if (not (is_open row)) "checkpoint recovery requires an open direct Session"
    owned ← authorize_recovery_request r
    require_sandbox_delivery_unheld r.sandbox_id
    insert_recovery_request r owned.resource_id nonce
    n ← signal_session_execution_wake service r.session_id (txt "recovery:" ++ r.id)
    one λ db. find_recovery db r.id

  -- `replayCheckpointRecovery`, where the identity is taken.
  abbrev pub replay_recovery : RecoveryRequest → RecoveryReceipt → Tx RecoveryReceipt
  replay_recovery r found = do
    refuse_if (not (same_recovery found.request r)) "recovery identity already has different input"
    pure found

  unfoldable pub recovery_body : RecoveryRequest → Text → SessionRow → Tx RecoveryReceipt
  recovery_body r nonce row db = elim (find_recovery db r.id) [
    | some found ↦ replay_recovery r found db
    | none ↦ begin_recovery r nonce row db
  ]

  -- `RequestCheckpointRecovery`.
  unfoldable pub request_checkpoint_recovery : RecoveryRequest → Text → Tx RecoveryReceipt
  request_checkpoint_recovery r nonce = do
    validate_recovery r
    with_delivery_hold r.session_id r.sandbox_id r.id (recovery_body r nonce)

  abbrev pub recovered_cause : RecoveryReceipt → Text
  recovered_cause r = txt "recovery-finished:" ++ r.request.id

  -- `switchAndReleaseRecovery`.
  unfoldable pub switch_and_release_recovery : RecoveryReceipt → Tx Done
  switch_and_release_recovery r = do
    expect_one_rows (
        switch_sandbox_resource r.request.sandbox_id r.source_resource_id r.destination_resource_id)
    record_recovery_finished r.request.id
    expect_one_rows (release_sandbox_delivery_hold r.request.id r.request.sandbox_id)
    n ← signal_session_execution_wake service r.request.session_id (recovered_cause r)
    pure tt

  -- `FinishCheckpointRecovery`: a receipt that is finished stays as it is.
  unfoldable pub finish_checkpoint_recovery : RecoveryReceipt → Tx Done
  finish_checkpoint_recovery expected = do
    row ← one λ db. get expected.request.session_id db.sessions
    refuse_if (not (is_open row)) "recovery release requires open admission"
    session ← one λ db. find_session db expected.request.session_id
    r ← one λ db. find_recovery db expected.request.id
    refuse_if
        (not (same_recovery r.request expected.request)
          || (not (r.source_resource_id == expected.source_resource_id)
              || not (r.destination_resource_id == expected.destination_resource_id)))
        "recovery custody changed"
    branch (is_some r.finished_at) (pure tt)
        (do authorize_recovery_release session r; switch_and_release_recovery r)
