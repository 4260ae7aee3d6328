-- ===== src/Tests/Fixtures.antt =====
-- A small database: one Session with one Sandbox.
use dorf.Base.{ℕ, true, false, Option, none, some, [], ◌∷◌, Text, txt}
use dorf.Base.Results.{ok}
use dorf.Core.Domain.{
  pending, scheduled, ActionKind, route_revoke, sandbox_delete, ActionState, unsettled, succeeded,
  scoped_action_id, cleanup_task_name,
}
use dorf.Store.Db.{SessionRow, TaskRow, SandboxRow, ResourceRow, ActionRow, Db, Absurd}

abbrev pub sid : Text
sid = txt "s1"

abbrev pub bid : Text
bid = txt "b1"

abbrev pub rid : Text
rid = txt "r1"

abbrev pub open_session : SessionRow
open_session = record {
  admission_key = txt "k";
  agents_md = [];
  created_by_client_id = [];
  client_reference = [];
  sandbox_profile = txt "base";
  sandbox_profile_revision = txt "1";
  provider_connection = txt "main";
  model = txt "m";
  reasoning_effort = txt "low";
  keep_running = false;
  admission_open = true;
  cleanup_state = pending;
  thread_id = some (txt "th");
  native_revision = 3;
  native_pending_input_id = none;
  native_pending_turn_id = none;
  execution_attention = none;
  cleanup_attention = none;
  sandbox_last_active_at = none;
  admitted_at = 5;
  cleaned_at = none;
}

abbrev pub closed_session : SessionRow
closed_session = record open_session { admission_open = false; cleanup_state = scheduled }

abbrev pub direct_task : TaskRow
direct_task = record {
  session_id = sid;
  sequence = 1;
  task_id = txt "t1";
  task_name = txt "direct";
}

abbrev pub cleanup_task : TaskRow
cleanup_task = record {
  session_id = sid;
  sequence = 2;
  task_id = txt "t2";
  task_name = cleanup_task_name;
}

abbrev pub live_resource : ResourceRow
live_resource = record {
  sandbox_id = bid;
  ownership_nonce = txt "n";
  provider_id = some (txt "vm");
  reserved_at = 5;
  observed_at = some 6;
  deleted_at = none;
}

abbrev pub the_sandbox : SandboxRow
the_sandbox = record { session_id = sid; name = txt "default"; active_resource_id = rid }

abbrev pub open_db : Db
open_db = record {
  sessions = (sid, open_session) ∷ [];
  session_tasks = direct_task ∷ [];
  sandboxes = (bid, the_sandbox) ∷ [];
  resources = (rid, live_resource) ∷ [];
  actions = [];
  holds = [];
  upgrades = [];
  wakes = [];
  wake_causes = [];
  retries = [];
  profiles = [];
  profile_revisions = [];
  profile_verifications = [];
  checkpoints = [];
  clients = [];
  recoveries = [];
  absurd_calls = [];
  clock = 9;
}

abbrev pub action_row : ActionKind → ActionState → Option ℕ → ActionRow
action_row kind state settled = record {
  session_id = sid;
  kind = kind;
  state = state;
  scope_key = bid;
  created_at = 6;
  settled_at = settled;
}

-- Cleanup is scheduled and the route revoked; the Sandbox is next.
abbrev pub cleanup_db : Db
cleanup_db = record open_db {
  sessions = (sid, closed_session) ∷ [];
  session_tasks = cleanup_task ∷ direct_task ∷ [];
  actions =
      (scoped_action_id sid route_revoke bid, action_row route_revoke succeeded (some 7))
      ∷ (scoped_action_id sid sandbox_delete bid, action_row sandbox_delete unsettled none)
      ∷ [];
}

-- All is deleted.
abbrev pub settled_db : Db
settled_db = record cleanup_db {
  resources = (rid, record live_resource { deleted_at = some 8 }) ∷ [];
  actions =
      (scoped_action_id sid route_revoke bid, action_row route_revoke succeeded (some 7))
      ∷ (scoped_action_id sid sandbox_delete bid, action_row sandbox_delete succeeded (some 8))
      ∷ [];
}

-- An Absurd service that accepts everything.
abbrev pub willing : Absurd
willing = record {
  spawn = λ calls name session key. ok (txt "t2");
  cancel = λ calls task. ok tt;
  retry = λ calls task.
      ok (record { task_id = task; run_id = txt "run"; attempt = 2; created = false });
  emit = λ calls session n cause. ok tt;
}
