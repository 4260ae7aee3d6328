-- ===== src/Tests/IdleTests.antt =====
-- The pause of an idle Sandbox.
use dorf.Base.{◌≡◌, refl, true, some, [], ◌∷◌, Text-discrete, ℕ_discrete}
use dorf.Base.Results.{ok}
use dorf.Store.Table.{get, put}
use dorf.Store.Db.{SessionRow}
use dorf.Store.Tasks.{latest_task}
use dorf.Store.Sandboxes.{find_session, find_sandbox}
use dorf.Store.Holds.{session_held}
use dorf.Store.Activity.{sandbox_idle_for}
use dorf.Core.Cleanup.{insert_sandbox, sort_sandboxes}
use dorf.Core.Native.{is_pending_mutation, native_idle}
use dorf.Core.Idle.{SandboxPauser, can_pause, pause_idle, reconcile_idle}
use dorf.Core.Idle.Pauses.{IsIdleRun, reconcile_idle-IsIdleRun}
use dorf.Std.Strings.{text_before}
use dorf.Effects.{
  asked_native, paused_sandbox, World, ◌>>=◌, ◌>>◌, pure, branch, refuse_if, transact, look_up,
  call,
}
use dorf.Tests.Fixtures.{open_session, open_db, sid, rid}
use dorf.Tests.CoreTests.{harness}

abbrev resting : SessionRow
resting = record open_session { sandbox_last_active_at = some 9 }

abbrev night : World
night = record { db = record open_db { sessions = (sid, resting) ∷ []; clock = 70 }; calls = [] }

abbrev pauser : SandboxPauser
pauser = record { power_free = λ calls. true; sandbox_pause = λ calls session b. ok tt }

pauses :
    (reconcile_idle (some pauser) (some harness) sid night).1.calls
    ≡ paused_sandbox rid ∷ asked_native rid ∷ []
unfolding reconcile_idle pause_idle can_pause native_idle is_pending_mutation sandbox_idle_for
    session_held find_session find_sandbox latest_task insert_sandbox sort_sandboxes text_before get
    put call look_up transact refuse_if branch pure ◌>>=◌ ◌>>◌ Text-discrete ℕ_discrete
pauses = refl

reconcile_idle-IsIdleRun_example :
    IsIdleRun pauser harness sid resting night
      (reconcile_idle (some pauser) (some harness) sid night).1
unfolding get Text-discrete ℕ_discrete
reconcile_idle-IsIdleRun_example =
    reconcile_idle-IsIdleRun pauser harness sid resting night refl refl
