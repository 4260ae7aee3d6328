-- ===== src/Core/Cleanup.antt =====
-- internal/core/cleanup.go: the order in which a Session's resources are cleaned up.
pub mod Order
use dorf.Base.{Bool, true, false, not, Option, none, some, List, [], ◌∷◌, ◌++◌, Text, txt, ◌==◌}
use dorf.Base.Results.{Result, ok, err, Error, Done}
use dorf.Std.Strings.{text_before}
use dorf.Core.Domain.{
  ActionKind, route_revoke, sandbox_delete, Action, Sandbox, Session, has_succeeded_action,
  is_complete, kind_text,
}
use dorf.Store.Db.{Db, Tx}
use dorf.Store.Attention.{set_cleanup_attention}

pub record CleanupTarget : Type 0 where
  pub sandbox : Sandbox
  pub kind : ActionKind

unfoldable pub insert_sandbox : Sandbox → List Sandbox → List Sandbox
insert_sandbox s [] = s ∷ []
insert_sandbox s (x ∷ xs) =
    let rest = insert_sandbox s xs in
    elim (text_before s.id x.id) [ true ↦ s ∷ x ∷ xs | false ↦ x ∷ rest ]

-- `sort.Slice` by identity; identities are unique, so that the order is determined.
unfoldable pub sort_sandboxes : List Sandbox → List Sandbox
unfolding insert_sandbox
sort_sandboxes [] = []
sort_sandboxes (s ∷ ss) = insert_sandbox s (sort_sandboxes ss)

unfoldable pub targets_of : List Sandbox → List CleanupTarget
targets_of [] = []
targets_of (s ∷ ss) =
    record { sandbox = s; kind = route_revoke }
    ∷ record { sandbox = s; kind = sandbox_delete }
    ∷ targets_of ss

-- `cleanupTargets`.
unfoldable pub cleanup_targets : List Sandbox → List CleanupTarget
unfolding sort_sandboxes targets_of
cleanup_targets sandboxes = targets_of (sort_sandboxes sandboxes)

unfoldable pub first_pending : List CleanupTarget → List Action → Option (ActionKind × Text)
first_pending [] actions = none
first_pending (t ∷ ts) actions =
    let rest = first_pending ts actions in
    elim (has_succeeded_action actions t.kind t.sandbox.id) [
      | true ↦ rest
      | false ↦ some (t.kind, t.sandbox.id)
    ]

-- `CurrentCleanupAction`.
unfoldable pub current_cleanup_action : List Sandbox → List Action → Option (ActionKind × Text)
unfolding cleanup_targets first_pending
current_cleanup_action sandboxes actions = first_pending (cleanup_targets sandboxes) actions

pub data CleanupCall : Type 0 where
  prepared completed : (session_id : Text) → CleanupCall
  executed : (sandbox_id : Text) (kind : ActionKind) → CleanupCall

-- The database, and the calls of the execution service so far, newest first.
pub record Run : Type 0 where
  pub db : Db
  pub calls : List CleanupCall

-- `CleanupExecution`: each operation answers, and leaves a database behind. `text_of` is an error's
-- text.
pub record CleanupExecution : Type 0 where
  pub prepare_cleanup : Run → Text → Result (Session × List Sandbox) × Db
  pub execute_sandbox_action : Run → Text → Text → ActionKind → Result Done × Db
  pub complete_cleanup : Run → Text → Result Done × Db
  pub text_of : Error → Text

-- An attention whose own statement fails is dropped.
abbrev pub noted : Text → Text → Db → Db
noted session detail db = elim (set_cleanup_attention session detail db) [
  | ok (_, db') ↦ db'
  | err _ ↦ db
]

module _ (service : CleanupExecution) where
  -- The loop over the targets, which stops at the first failure.
  unfoldable pub execute_all : Text → Text → List CleanupTarget → Run → Result Done × Run
  execute_all session owner [] w = (ok tt, w)
  execute_all session owner (t ∷ ts) w =
      let (result, db) = service.execute_sandbox_action w owner t.sandbox.id t.kind in
      let calls = executed t.sandbox.id t.kind ∷ w.calls in
      let detail =
        txt "reconciling " ++ kind_text t.kind ++ txt " for Sandbox " ++ t.sandbox.id ++ txt ": " in
      elim result [
        | ok _ ↦ execute_all session owner ts (record { db = db; calls = calls })
        | err e ↦
            (err e, record { db = noted session (detail ++ service.text_of e) db; calls = calls })
      ]

  abbrev pub finish_run : Text → Run → Result Done × Run
  finish_run session w =
      let (result, db) = service.complete_cleanup w session in
      let calls = completed session ∷ w.calls in
      let detail =
        txt "verifying no owned resource or non-cleanup Session claim remains unsettled: " in
      elim result [
        | ok _ ↦ (ok tt, record { db = db; calls = calls })
        | err e ↦
            (err e, record { db = noted session (detail ++ service.text_of e) db; calls = calls })
      ]

  abbrev pub run_targets : Text → Text → List Sandbox → Run → Result Done × Run
  run_targets session owner sandboxes w =
      let (result, w1) = execute_all session owner (cleanup_targets sandboxes) w in
      elim result [ ok _ ↦ finish_run session w1 | err e ↦ (err e, w1) ]

  -- An old cleanup attention is cleared first.
  abbrev pub clear_note : Text → Session → Tx Done
  clear_note session s db = elim (s.cleanup_attention == []) [
    | true ↦ ok (tt, db)
    | false ↦ set_cleanup_attention session [] db
  ]

  -- `runCleanup`.
  unfoldable pub run_cleanup : Text → Run → Result Done × Run
  run_cleanup session w =
      let (result, db) = service.prepare_cleanup w session in
      let w1 : Run = record { db = db; calls = prepared session ∷ w.calls } in
      elim result [
        | err e ↦ (err e, w1)
        | ok (s, sandboxes) ↦ elim (is_complete s.cleanup_state) [
          | true ↦ (ok tt, w1)
          | false ↦ elim (clear_note session s db) [
            | err e ↦ (err e, w1)
            | ok (_, db') ↦ run_targets session s.id sandboxes (record w1 { db = db' })
          ]
        ]
      ]
