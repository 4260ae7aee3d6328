-- ===== src/Store/Actions.antt =====
-- internal/postgres/store.go: the Actions on a Sandbox, their authorization, and the completion of
-- cleanup.
pub mod Authority
pub mod Completion
use dorf.Base.{
  ℕ, ◌≡◌, Bool, true, false, not, ◌&&◌, ◌||◌, Option, none, some, List, [], ◌∷◌, Text, ◌==◌, eqb,
  is_some,
}
use dorf.Base.Results.{ok, err, Error, no_rows, not_found, message, Done}
use dorf.Std.Strings.{trim_space}
use dorf.Core.Domain.{
  CleanupState, complete, ActionKind, route_revoke, sandbox_delete, ActionState, unsettled,
  succeeded, failed, Action, Sandbox, Session, is_pending, is_scheduled, is_complete, is_succeeded,
  same_kind, is_route_revoke, is_sandbox_delete, scoped_action_id, cleanup_task_name,
}
use dorf.Store.Table.{Table, get, put, update, any_row, map_rows, count_rows}
use dorf.Store.Holds.{owner_is, is_held}
use dorf.Store.Sandboxes.{
  find_sandbox, find_session, get_sandbox, get_session, record_resource_deleted,
}
use dorf.Store.Tasks.{latest_task, task_id_of, task_name_of}
use dorf.Store.Db.{
  SessionRow, SandboxRow, ResourceRow, UpgradeRow, ActionRow, HoldRow, Db, Tx, ◌>>=◌, ◌>>◌, pure,
  refuse_if, branch, one, exec, expect_one_rows, or_now,
}

abbrev pub action_of : Text → ActionRow → Action
action_of id r = record {
  id = id;
  session_id = r.session_id;
  kind = r.kind;
  state = r.state;
  scope = r.scope_key;
  created_at = r.created_at;
  settled_at = r.settled_at;
}

-- `GetScopedAction`.
unfoldable pub find_scoped : Text → ActionKind → Text → Table ActionRow → Option Action
find_scoped session kind scope [] = none
find_scoped session kind scope ((id, r) ∷ t) =
    let rest = find_scoped session kind scope t in
    elim (r.session_id == session && (same_kind r.kind kind && r.scope_key == scope)) [
      | true ↦ some (action_of id r)
      | false ↦ rest
    ]

-- `InsertScopedAction`: nothing where the identity or the exact scope is there already.
unfoldable pub insert_scoped_action : Text → Text → ActionKind → Text → Tx ℕ
insert_scoped_action id session kind scope db =
    elim (is_some (get id db.actions) || is_some (find_scoped session kind scope db.actions)) [
      | true ↦ ok (0, db)
      | false ↦ ok (
        1,
        record db {
          actions =
              put id
                (record {
                  session_id = session;
                  kind = kind;
                  state = unsettled;
                  scope_key = scope;
                  created_at = db.clock;
                  settled_at = none;
                })
                db.actions;
        },
      )
    ]

-- `exactScopedAction`.
abbrev pub exact_scoped_action : Action → Text → ActionKind → Text → Tx Action
exact_scoped_action a session kind scope = do
  refuse_if
      (not (a.id == scoped_action_id session kind scope)
        || (not (a.session_id == session)
            || (not (same_kind a.kind kind) || not (a.scope == scope))))
      "Action conflicts with exact Session, kind and scope"
  pure a

-- Two statements that commit on their own. That the insert found the Action there already is no
-- error where the Action can then be read.
unfoldable pub get_or_create_sandbox_action : Text → ActionKind → Tx Action
get_or_create_sandbox_action sandbox kind = do
  owned ← get_sandbox sandbox
  n ←
      insert_scoped_action (scoped_action_id owned.session_id kind sandbox) owned.session_id kind
        sandbox
  found ← one λ db. find_scoped owned.session_id kind sandbox db.actions
  exact_scoped_action found owned.session_id kind sandbox

pub record Authorization : Type 0 where
  pub session : Session
  pub sandbox : Sandbox
  pub action : Action
  pub task_id : Text
  pub task_name : Text

abbrev pub is_cleanup_kind : ActionKind → Bool
is_cleanup_kind kind = is_route_revoke kind || is_sandbox_delete kind

abbrev pub is_failed : ActionState → Bool
is_failed failed = true
is_failed _ = false

-- Whether the exact route revoke Action of a Sandbox has succeeded.
abbrev pub revoked : Option Action → Bool
revoked none = false
revoked (some a) = is_succeeded a.state

-- The lifecycle state that an Action of the kind needs.
abbrev pub require_lifecycle : Session → ActionKind → Text → Bool → Tx Done
require_lifecycle session kind task_name require_task =
    branch (is_cleanup_kind kind)
      (refuse_if
        (session.admission_open
          || (not (is_scheduled session.cleanup_state)
              || (require_task && not (task_name == cleanup_task_name))))
        "Sandbox cleanup Action requires a durably scheduled cleanup")
      (refuse_if (not session.admission_open || not (is_pending session.cleanup_state))
        "Sandbox Action cannot mutate provider after cleanup begins")

abbrev pub require_revoked : ActionRow → Tx Done
require_revoked r db =
    branch (is_sandbox_delete r.kind)
      (refuse_if (not (revoked (find_scoped r.session_id route_revoke r.scope_key db.actions)))
        "Sandbox cleanup cannot delete before its exact route revoke Action succeeds")
      (pure tt) db

-- `authorizeSandboxActionTx`.
unfoldable pub authorize_action : Text → Text → Text → Bool → Tx Authorization
authorize_action id task_id task_name require_task = do
  r ← one λ db. get id db.actions
  refuse_if (is_failed r.state) "Sandbox Action is not unsettled or succeeded"
  refuse_if (r.scope_key == [] || not (id == scoped_action_id r.session_id r.kind r.scope_key))
      "Sandbox Action conflicts with its exact Session and Sandbox"
  owned ← get_sandbox r.scope_key
  refuse_if (not (owned.session_id == r.session_id))
      "Sandbox Action conflicts with its exact Session and Sandbox"
  session ← get_session r.session_id
  refuse_if
      (require_task
        && (task_id == []
            || (task_name == []
                || (not (session.current_task_id == task_id)
                    || not (session.current_task_name == task_name)))))
      "Sandbox Action requires the exact current attached task"
  require_lifecycle session r.kind task_name require_task
  require_revoked r
  pure (record {
    session = session;
    sandbox = owned;
    action = action_of id r;
    task_id = session.current_task_id;
    task_name = session.current_task_name;
  })

-- `AuthorizeSandboxAction`.
unfoldable pub authorize_sandbox_action : Text → Text → Text → Tx Authorization
authorize_sandbox_action id task_id task_name =
    authorize_action id (trim_space task_id) (trim_space task_name) true

abbrev pub mark_succeeded : Text → Tx ℕ
mark_succeeded id = exec λ db.
    let (t, n) =
      update id (λ r. not (is_succeeded r.state))
        (λ r. record r { state = succeeded; settled_at = or_now r.settled_at db.clock })
        db.actions in
    (record db { actions = t }, n)

-- `RecordSandboxActionSuccess`.
unfoldable pub record_sandbox_action_success : Text → Tx Done
record_sandbox_action_success id = do
  completed ← authorize_action id [] [] false
  branch (is_succeeded completed.action.state) (pure tt) (do
    expect_one_rows (mark_succeeded id)
    branch (is_sandbox_delete completed.action.kind)
        (expect_one_rows
          (record_resource_deleted completed.sandbox.resource_id completed.sandbox.id))
        (pure tt))

-- `exists(select 1 from dorf.actions …)` with state succeeded.
abbrev pub has_success : Text → ActionKind → Text → Table ActionRow → Bool
has_success session kind scope = any_row λ _ a.
    a.session_id == session
    && (same_kind a.kind kind && (a.scope_key == scope && is_succeeded a.state))

abbrev pub is_undeleted : Text → Text → ResourceRow → Bool
is_undeleted sandbox _ r = r.sandbox_id == sandbox && not (is_some r.deleted_at)

abbrev pub keeps_checkpoint : Text → Text → UpgradeRow → Bool
keeps_checkpoint sandbox _ u =
    u.sandbox_id == sandbox
    && (is_some u.checkpoint_reference && not (is_some u.checkpoint_deleted_at))

-- A Sandbox that keeps cleanup from completing, in `CountUnsettledSandboxCleanupActions`.
unfoldable pub is_unsettled : Db → Text → Text → Bool
is_unsettled db session sandbox =
    not (has_success session route_revoke sandbox db.actions)
    || (not (has_success session sandbox_delete sandbox db.actions)
        || (any_row (is_undeleted sandbox) db.resources
            || any_row (keeps_checkpoint sandbox) db.upgrades))

abbrev pub blocks_cleanup : Db → Text → Text → SandboxRow → Bool
blocks_cleanup db session id s = s.session_id == session && is_unsettled db session id

unfoldable pub count_unsettled : Text → Db → ℕ
count_unsettled session db = count_rows (blocks_cleanup db session) db.sandboxes

abbrev pub completed_row : SessionRow → ℕ → SessionRow
completed_row r now = record r {
  cleanup_state = complete;
  cleanup_attention = none;
  execution_attention = none;
  cleaned_at = or_now r.cleaned_at now;
}

abbrev pub release_hold : Db → Text → Text → HoldRow → HoldRow
release_hold db session _ h = elim (owner_is db.sandboxes session h.sandbox_id && is_held h) [
  | true ↦ record h { released_at = some db.clock }
  | false ↦ h
]

-- The statement `CompleteCleanup`: the Session is complete, and its holds are released.
abbrev pub complete_statement : Text → Tx ℕ
complete_statement session = exec λ db.
    let (t, n) =
      update session (λ r. is_scheduled r.cleanup_state) (λ r. completed_row r db.clock)
        db.sessions in
    (record db { sessions = t; holds = map_rows (release_hold db session) db.holds }, n)

-- `Store.CompleteCleanup`.
unfoldable pub complete_cleanup : Text → Text → Tx Done
complete_cleanup session task = do
  current ← one λ db. get session db.sessions
  latest ← one λ db. some (latest_task session db.session_tasks)
  refuse_if (task_id_of latest == [] || not (task_id_of latest == trim_space task))
      "cleanup cannot complete without ownership by the current attached cleanup task"
  refuse_if (not (task_id_of latest == task) || not (task_name_of latest == cleanup_task_name))
      "cleanup cannot complete without the exact Core cleanup task attachment"
  branch (not current.admission_open && is_complete current.cleanup_state) (pure tt) (do
    refuse_if (current.admission_open || not (is_scheduled current.cleanup_state))
        "cleanup cannot complete while admission or cleanup scheduling remains unsettled"
    unsettled_count ← one λ db. some (count_unsettled session db)
    refuse_if (not (eqb unsettled_count 0))
        "cleanup cannot complete with unsettled Session resources"
    expect_one_rows (complete_statement session))
