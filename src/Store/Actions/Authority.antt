-- ===== src/Store/Actions/Authority.antt =====
-- Who may change a provider's resources, and when.
use dorf.Base.{inl, inr, Option-cases, ◌≡◌, ◌≢◌, ◌⊎◌, true, false, some, Text, arith}
use dorf.Base.Results.{ok}
use dorf.Core.Domain.{pending, scheduled, route_revoke, sandbox_delete, cleanup_task_name}
use dorf.Std.Strings.{trim_space}
use dorf.Store.Table.{get}
use dorf.Store.Sandboxes.{find_sandbox, find_session}
use dorf.Store.Db.{ActionRow, Db}
use dorf.Store.Actions.{
  Authorization, find_scoped, revoked, is_cleanup_kind, authorize_action, authorize_sandbox_action,
}

-- Whoever is authorized runs the Session's current task, on a Sandbox that the Session owns, in the
-- lifecycle state that the Action needs. A Sandbox is deleted only after its exact route was revoked.
pub authorize_sound :
    (id task_id task_name : Text) (db db' : Db) (auth : Authorization) (r : ActionRow)
    → get id db.actions ≡ some r
    → authorize_sandbox_action id task_id task_name db ≡ ok (auth, db')
    → (db' ≡ db)
      × (find_session db r.session_id ≡ some auth.session)
      × (find_sandbox db r.scope_key ≡ some auth.sandbox)
      × (auth.sandbox.session_id ≡ r.session_id)
      × (auth.session.current_task_id ≡ trim_space task_id)
      × (auth.session.current_task_name ≡ trim_space task_name)
      × (((is_cleanup_kind r.kind ≡ true)
            × (auth.session.admission_open ≡ false)
            × (auth.session.cleanup_state ≡ scheduled)
            × (trim_space task_name ≡ cleanup_task_name))
          ⊎ ((is_cleanup_kind r.kind ≡ false)
              × (auth.session.admission_open ≡ true)
              × (auth.session.cleanup_state ≡ pending)))
      × ((r.kind ≢ sandbox_delete)
          ⊎ (revoked (find_scoped r.session_id route_revoke r.scope_key db.actions) ≡ true))
unfolding authorize_sandbox_action authorize_action
authorize_sound id task_id task_name db db' auth r e h = ground (arith, e)

-- An authorization reads only.
pub authorize-reads :
    (id task_id task_name : Text) (db db' : Db) (auth : Authorization)
    → authorize_sandbox_action id task_id task_name db ≡ ok (auth, db')
    → db' ≡ db
unfolding authorize_sandbox_action authorize_action
authorize-reads id task_id task_name db db' auth h = elim (Option-cases (get id db.actions)) [
  | inl e ↦ ground (arith, e)
  | inr (r, e) ↦ (authorize_sound id task_id task_name db db' auth r e h).0
]
