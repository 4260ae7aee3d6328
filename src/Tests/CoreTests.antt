-- ===== src/Tests/CoreTests.antt =====
-- The order of cleanup on two Sandboxes.
use dorf.Base.{
  ◌≡◌, refl, ◌≢◌, ◌⊎◌, true, false, none, some, Option, List, [], ◌∷◌, Text, txt, All,
  Text-discrete, ℕ_discrete,
}
use dorf.Base.Results.{ok}
use dorf.Std.Strings.{text_before, trim_space}
use dorf.Std.Sha256.{sum256, hex}
use dorf.Core.Domain.{
  Session, cleanup_task_name, scoped_action_id, digest, ActionKind, route_revoke, sandbox_delete,
  succeeded, Action, Sandbox, has_succeeded_action,
}
use dorf.Store.Table.{get, put, update}
use dorf.Store.Sandboxes.{session_of, find_sandbox, find_session}
use dorf.Store.Tasks.{latest_task}
use dorf.Store.Activity.{begin_sandbox_activity, finish_sandbox_activity}
use dorf.Store.Attention.{clear_execution_attention}
use dorf.Store.Actions.{
  find_scoped, authorize_action, authorize_sandbox_action, record_sandbox_action_success,
}
use dorf.Core.Native.{
  NativeSession, terminal, is_pending_mutation, native_mutation_proven, settle_by_history,
  native_idle,
}
use dorf.Core.Native.Settlement.{IsProven, native_idle-settles}
use dorf.Store.Native.{state_of, begun, settled_row, finish_native_mutation}
use dorf.Effects.{
  read_turns, fail, World, checked_claim, deleted_sandbox, ◌>>=◌, ◌>>◌, pure, branch, refuse_if,
  transact, look_up, call,
}
use dorf.Core.Execution.{
  Externals, Task, require_claim, effect_of, with_sandbox_activity, apply_effect,
  execute_sandbox_action,
}
use dorf.Core.Execution.Authority.{IsAuthorized, execute-IsAuthorized}
use dorf.Core.Cleanup.{
  insert_sandbox, sort_sandboxes, targets_of, cleanup_targets, first_pending,
  current_cleanup_action, prepared, completed, executed, Run, CleanupExecution, execute_all,
  clear_note, run_cleanup,
}
use dorf.Core.Cleanup.Order.{IsCleaned, current-IsCurrent, IsFinished, run_cleanup-IsFinished}
use dorf.Store.Db.{Db}
use dorf.Tests.Fixtures.{open_session, open_db, sid, closed_session, cleanup_db}

abbrev box : Text → Sandbox
box id = record {
  id = id;
  session_id = sid;
  name = txt "default";
  ownership_nonce = txt "n";
  resource_id = id;
  provider_id = txt "vm";
}

abbrev boxes : List Sandbox
boxes = box (txt "b2") ∷ box (txt "b1") ∷ []

abbrev revoked_b1 : Action
revoked_b1 = record {
  id = txt "a1";
  session_id = sid;
  kind = route_revoke;
  state = succeeded;
  scope = txt "b1";
  created_at = 1;
  settled_at = some 2;
}

-- The route of the first Sandbox is revoked, so that it is deleted next.
next_is_delete : current_cleanup_action boxes (revoked_b1 ∷ []) ≡ some (sandbox_delete, txt "b1")
unfolding current_cleanup_action cleanup_targets targets_of sort_sandboxes insert_sandbox
    first_pending has_succeeded_action text_before Text-discrete ℕ_discrete
next_is_delete = refl

current-IsCurrent_example :
    ((current_cleanup_action boxes (revoked_b1 ∷ []) ≡ none)
      × All (IsCleaned (revoked_b1 ∷ [])) boxes)
    ⊎ ((kind : ActionKind) × (id : Text) × (current_cleanup_action boxes (revoked_b1 ∷ [])
          ≡ some (kind, id))
        × (has_succeeded_action (revoked_b1 ∷ []) kind id ≡ false)
        × ((kind ≢ sandbox_delete)
            ⊎ (has_succeeded_action (revoked_b1 ∷ []) route_revoke id ≡ true)))
current-IsCurrent_example = current-IsCurrent boxes (revoked_b1 ∷ [])

abbrev working : CleanupExecution
working = record {
  prepare_cleanup = λ w session. (ok (session_of w.db session closed_session, boxes), w.db);
  execute_sandbox_action = λ w session sandbox kind. (ok tt, w.db);
  complete_cleanup = λ w session. (ok tt, w.db);
  text_of = λ e. txt "failed";
}

abbrev start : Run
start = record { db = cleanup_db; calls = [] }

run_cleanup-IsFinished_example :
    (db1 : Db) × (clear_note working sid (session_of cleanup_db sid closed_session) cleanup_db
      ≡ ok (tt, db1))
    × IsFinished working sid sid boxes
        (record { db = db1; calls = prepared sid ∷ [] })
        (run_cleanup working sid start).1
unfolding run_cleanup execute_all cleanup_targets targets_of sort_sandboxes insert_sandbox
    text_before Text-discrete ℕ_discrete
run_cleanup-IsFinished_example =
    run_cleanup-IsFinished working sid start (run_cleanup working sid start).1
      (session_of cleanup_db sid closed_session) boxes cleanup_db refl refl refl

run_calls :
    (run_cleanup working sid start).1.calls
    ≡ completed sid
      ∷ executed (txt "b2") sandbox_delete
      ∷ executed (txt "b2") route_revoke
      ∷ executed (txt "b1") sandbox_delete
      ∷ executed (txt "b1") route_revoke
      ∷ prepared sid
      ∷ []
unfolding run_cleanup execute_all cleanup_targets targets_of sort_sandboxes insert_sandbox
    text_before Text-discrete ℕ_discrete
run_calls = refl

-- A provider that does all it is asked for.
abbrev helpful : Externals
helpful = record {
  claim = λ calls. ok tt;
  sandbox_create = λ calls session sandbox. ok (txt "vm");
  route_create = λ calls session sandbox route. ok tt;
  route_revoke = λ calls session sandbox route. ok tt;
  sandbox_delete = λ calls session sandbox. ok tt;
  text_of = λ e. txt "failed";
}

abbrev cleaner : Option Task
cleaner = some (record { id = txt "t2"; name = cleanup_task_name })

abbrev world : World
world = record { db = cleanup_db; calls = [] }

execute-IsAuthorized_example :
    ((execute_sandbox_action helpful cleaner sid
        (scoped_action_id sid sandbox_delete (txt "b1"))
        sandbox_delete
        world).1
      ≡ record world { calls = checked_claim ∷ [] })
    ⊎ IsAuthorized world cleaner sid (scoped_action_id sid sandbox_delete (txt "b1")) sandbox_delete
execute-IsAuthorized_example =
    execute-IsAuthorized helpful cleaner sid (scoped_action_id sid sandbox_delete (txt "b1"))
      sandbox_delete world

-- The Sandbox is deleted and the Action settled.
deletes :
    (execute_sandbox_action helpful cleaner sid
      (scoped_action_id sid sandbox_delete (txt "b1"))
      sandbox_delete
      world).1.calls
    ≡ checked_claim ∷ deleted_sandbox (txt "r1") ∷ checked_claim ∷ []
unfolding execute_sandbox_action apply_effect effect_of with_sandbox_activity require_claim
    begin_sandbox_activity finish_sandbox_activity clear_execution_attention
    record_sandbox_action_success authorize_sandbox_action authorize_action find_scoped find_sandbox
    find_session trim_space get put update latest_task scoped_action_id digest sum256 hex call
    look_up transact refuse_if branch pure ◌>>=◌ ◌>>◌ Text-discrete ℕ_discrete
deletes = refl

-- The native history has the pending input, in a Turn that is over.
abbrev pub harness : NativeSession
harness = record {
  native_idle = λ calls session sandbox. ok true;
  read_native_turns = λ calls session sandbox.
      ok (record { id = txt "turn"; status = txt "completed"; client_ids = txt "i1" ∷ [] } ∷ []);
}

abbrev pending_world : World
pending_world = record {
  db = record open_db { sessions = (sid, begun open_session (txt "i1") []) ∷ [] };
  calls = [];
}

abbrev pending_session : Session
pending_session = session_of pending_world.db sid (begun open_session (txt "i1") [])

abbrev settled_world : World
settled_world = record {
  db = record open_db { sessions = (sid, settled_row (begun open_session (txt "i1") [])) ∷ [] };
  calls = read_turns (txt "r1") ∷ [];
}

native_idle-settles_example :
    ((is_pending_mutation (state_of (begun open_session (txt "i1") [])) ≡ false)
      × (settled_world.db ≡ pending_world.db))
    ⊎ IsProven
        (some harness)
        pending_session
        (box (txt "r1"))
        pending_world
        settled_world
        (begun open_session (txt "i1") [])
unfolding native_idle settle_by_history native_mutation_proven is_pending_mutation terminal
    finish_native_mutation find_session latest_task get put update call transact branch pure fail
    ◌>>=◌ ◌>>◌ Text-discrete ℕ_discrete
native_idle-settles_example =
    native_idle-settles (some harness) pending_session (box (txt "r1")) pending_world settled_world
      (begun open_session (txt "i1") []) refl refl
