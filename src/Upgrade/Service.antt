-- ===== src/Upgrade/Service.antt =====
-- internal/upgrade/service.go: the reconciliation of an upgrade, one durable step at a time. Every
-- step is an effect of the driver and then, under a claim, the statement that records it. Log events
-- are left out.
pub mod Guards
pub mod Custody
pub mod Statements
pub mod Frames
pub mod Retention
pub mod Commits
pub mod Advances
pub mod Endings
pub mod Failures
pub mod Termination
pub mod Progress
use dorf.Base.{
  Bool, true, false, not, ◌&&◌, ◌||◌, Option, none, some, List, [], ◌∷◌, ◌++◌, Text, txt, ◌==◌,
  is_some,
}
use dorf.Base.Results.{Result, ok, err, Error, not_found, message, Done}
use dorf.Core.Domain.{Session, Sandbox, is_pending}
use dorf.Upgrade.Receipt.{Request, Checkpoint, Receipt}
use dorf.Upgrade.Driver.{Driver}
use dorf.Effects.{
  Call, checked_claim, inspected_package, quiesced, captured, activated, restored, verified,
  deleted_resource, deleted_checkpoint, World, Eff, ◌>>=◌, ◌>>◌, pure, fail, branch, refuse_if,
  transact, look_up, call,
}
use dorf.Store.Table.{Table, get, any_row}
use dorf.Store.Db.{HoldRow, Db, Absurd, Tx}
use dorf.Store.Sandboxes.{
  find_session, find_sandbox, find_sandbox_resource, record_sandbox_resource_deleted,
}
use dorf.Store.Holds.{owner_is, session_delivery_holds}
use dorf.Store.Attention.{set_execution_attention, clear_execution_attention}
use dorf.Store.Upgrades.{
  upgrade_quiescent, record_upgrade_preparation, record_upgrade_quiesced, record_upgrade_checkpoint,
  record_upgrade_activated, request_upgrade_rollback, reserve_upgrade_destination,
  record_upgrade_restored, record_upgrade_verified, record_upgrade_checkpoint_deleted,
}
use dorf.Store.Upgrades.Listing.{session_upgrades}
use dorf.Store.Custody.{finish_sandbox_upgrade}

unfoldable pub first_unfinished : List Receipt → Option Receipt
first_unfinished [] = none
first_unfinished (r ∷ rs) =
    let rest = first_unfinished rs in elim (is_some r.finished_at) [ true ↦ rest | false ↦ some r ]

-- `absurd.TaskFromContext`: a task in the context has to be the Session's current one.
abbrev pub foreign_task : Option Text → Session → Bool
foreign_task none s = false
foreign_task (some task) s = not (task == s.current_task_id)

abbrev pub is_hold_of : Receipt → Text → HoldRow → Bool
is_hold_of r id h = id == r.id && h.sandbox_id == r.sandbox_id

abbrev pub resource_of : Text → Text → Text → Eff Sandbox
resource_of session sandbox resource =
    look_up (λ db. find_sandbox_resource db session sandbox resource) not_found

abbrev pub session_row : Text → Eff Session
session_row id = look_up (λ db. find_session db id) not_found

-- `authorize`.
unfoldable pub authorize : Receipt → Eff Done
authorize r = do
  owned ← look_up (λ db. find_sandbox db r.sandbox_id) not_found
  refuse_if
      (not (owned.session_id == r.session_id) || not (owned.resource_id == r.source_resource_id))
      "upgrade source binding was superseded"
  held ←
      look_up (λ db. some (any_row (is_hold_of r) (session_delivery_holds db r.session_id)))
        not_found
  refuse_if (not held) "upgrade lost its exact delivery hold"

-- `resourceDeleted`: the resources listed are the Session's.
abbrev pub deleted_in : Db → Text → Text → Option Bool
deleted_in db session id = elim (get id db.resources) [
  | none ↦ none
  | some v ↦ elim (owner_is db.sandboxes session v.sandbox_id) [
    | true ↦ some (is_some v.deleted_at)
    | false ↦ none
  ]
]

unfoldable pub resource_deleted : Text → Text → Eff Bool
resource_deleted session id =
    look_up (λ db. deleted_in db session id) (message "upgrade resource not retained")

abbrev pub source_text : Receipt → Text
source_text r = txt "upgrade:" ++ r.id

abbrev pub failure_text : Text → Text
failure_text name = txt "workspace upgrade " ++ name ++ txt " failed"

abbrev pub is_replacement : Receipt → Bool
is_replacement r =
    not (r.destination_resource_id == []) && not (r.destination_resource_id == r.source_resource_id)

module _ (service : Absurd) (driver : Driver) where
  -- `requireClaim`, of a service that was given one.
  unfoldable pub require_claim : Eff Done
  require_claim = call checked_claim driver.claim

  -- `record`.
  unfoldable pub save : Tx Done → Eff Done
  save m = require_claim >> transact m

  abbrev pub after_failure : Receipt → Text → Eff Done
  after_failure r name = do
    require_claim
    transact (set_execution_attention r.session_id (source_text r) (failure_text name))
    fail (message "workspace upgrade step failed; delivery remains held")

  -- `perform`: the outcome of a step becomes the Session's attention, or clears it.
  unfoldable pub perform : Receipt → Text → Eff Done → Eff Done
  perform r name fn w =
      let (result, w') = fn w in
      elim result [
        | ok _ ↦ transact (clear_execution_attention r.session_id (source_text r)) w'
        | err _ ↦ after_failure r name w'
      ]

  -- An effect whose failure asks for a rollback.
  unfoldable pub or_rollback : Receipt → Text → Bool → Eff Done → Tx Done → Eff Done
  or_rollback r code may effect fact w =
      let (result, w') = effect w in
      elim result [
        | ok _ ↦ save fact w'
        | err e ↦ elim may [
          | true ↦ save (request_upgrade_rollback r.id code) w'
          | false ↦ (err e, w')
        ]
      ]

  unfoldable pub prepare : Receipt → Sandbox → Eff Done
  prepare r source = perform r (txt "prepare") (do
    version ←
        call (inspected_package source.resource_id)
          (λ calls. driver.inspect_package calls source r.request)
    refuse_if (version == []) "package inspection omitted previous version"
    save (record_upgrade_preparation r.id version))

  unfoldable pub quiesce : Receipt → Sandbox → Eff Done
  quiesce r source = perform r (txt "quiesce") (do
    session ← session_row r.session_id
    call (quiesced source.resource_id) (λ calls. driver.quiesce calls source session.thread_id)
    save (record_upgrade_quiesced r.id))

  unfoldable pub capture : Receipt → Sandbox → Eff Done
  capture r source = perform r (txt "checkpoint") (do
    checkpoint ← call (captured source.resource_id) (λ calls. driver.capture calls source r.id)
    refuse_if (not (checkpoint.source_id == source.provider_id))
        "checkpoint source differs from attested resource"
    save (record_upgrade_checkpoint r.id checkpoint))

  unfoldable pub activate : Receipt → Sandbox → Eff Done
  activate r source = perform r (txt "activate") (
      or_rollback r (txt "activation_failed") true
        (call (activated source.resource_id) (λ calls. driver.activate calls source r.request))
        (record_upgrade_activated r.id))

  -- `nonce` is the random nonce of a replacement.
  unfoldable pub restore : Text → Receipt → Sandbox → Eff Done
  restore nonce r source =
      branch (r.destination_resource_id == [])
        (perform r (txt "reserve-recovery")
          (save (reserve_upgrade_destination r driver.replaces_resource nonce)))
        (do
          destination ← resource_of r.session_id r.sandbox_id r.destination_resource_id
          perform r (txt "restore") (do
            id ←
                call (restored destination.resource_id)
                  (λ calls. driver.restore calls source destination r.checkpoint)
            save (record_upgrade_restored r id)))

  -- What is verified, and the version that it should run.
  abbrev pub verified_target : Receipt → Sandbox → Eff (Sandbox × Text)
  verified_target r source =
      branch (is_some r.rollback_at)
        (do
          destination ← resource_of r.session_id r.sandbox_id r.destination_resource_id
          pure (destination, r.previous_version))
        (pure (source, r.version))

  abbrev pub verify_target : Receipt → Sandbox → Text → Eff Done
  verify_target r destination version = perform r (txt "verify") (do
    session ← session_row r.session_id
    or_rollback r (txt "verification_failed") (not (is_some r.rollback_at))
        (call (verified destination.resource_id)
          (λ calls. driver.verify calls destination version session.thread_id))
        (record_upgrade_verified r.id))

  unfoldable pub verify : Receipt → Sandbox → Eff Done
  verify r source = verified_target r source >>= λ target. verify_target r target.0 target.1

  unfoldable pub delete_resource : Receipt → Sandbox → Eff Done
  delete_resource r owned = perform r (txt "resource-cleanup") (do
    call (deleted_resource owned.resource_id) (λ calls. driver.delete_resource calls owned)
    save (record_sandbox_resource_deleted owned))

  unfoldable pub delete_checkpoint : Receipt → Sandbox → Eff Done
  delete_checkpoint r source = perform r (txt "checkpoint-cleanup") (do
    call (deleted_checkpoint r.checkpoint.reference)
        (λ calls. driver.delete_checkpoint calls source r.checkpoint)
    save (record_upgrade_checkpoint_deleted r.id))

  abbrev pub resume : Receipt → Eff Done
  resume r = perform r (txt "resume") (save (finish_sandbox_upgrade service r))

  unfoldable pub finish : Receipt → Sandbox → Eff Done
  finish r source =
      branch (is_replacement r)
        (do
          deleted ← resource_deleted r.session_id r.source_resource_id
          branch deleted (resume r) (delete_resource r source))
        (branch (is_some r.checkpoint_deleted_at) (resume r) (delete_checkpoint r source))

  -- The cases of `step`, in order.
  unfoldable pub dispatch : Text → Receipt → Sandbox → Eff Done
  dispatch nonce r source = branch (r.previous_version == []) (prepare r source) (
      branch (not (is_some r.quiesced_at)) (quiesce r source) (
        branch (r.checkpoint.reference == []) (capture r source) (
          branch (is_some r.rollback_at && not (is_some r.restored_at)) (restore nonce r source) (
            branch (not (is_some r.activated_at) && not (is_some r.rollback_at)) (activate r source)
              (branch (not (is_some r.verified_at)) (verify r source) (finish r source))))))

  -- `step`.
  unfoldable pub step : Text → Receipt → Eff Done
  step nonce r = do
    source ← resource_of r.session_id r.sandbox_id r.source_resource_id
    dispatch nonce r source

  -- The body of `Reconcile` for the receipt that it works on: whether a step was made.
  unfoldable pub reconcile_receipt : Text → Receipt → Eff Bool
  reconcile_receipt nonce r = do
    authorize r
    quiet ← transact (upgrade_quiescent r.sandbox_id)
    branch (not quiet) (pure false) (do require_claim; step nonce r; pure true)

  -- `Reconcile`, under the Session's fence, with the task of its context.
  unfoldable pub reconcile : Text → Option Text → Text → Eff Bool
  reconcile nonce task session = do
    row ← session_row session
    refuse_if (foreign_task task row) "upgrade executor no longer owns the Session task"
    branch (not row.admission_open || not (is_pending row.cleanup_state)) (pure false) (do
      found ← look_up (λ db. some (first_unfinished (session_upgrades db session))) not_found
      elim found [ none ↦ pure false | some r ↦ reconcile_receipt nonce r ])
