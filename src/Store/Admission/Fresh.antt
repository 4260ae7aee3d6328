-- ===== src/Store/Admission/Fresh.antt =====
-- The first admission under a key.
use dorf.Base.{
  ◌≡◌, refl, sym, ap, ◌≢◌, true, false, ◌&&◌, none, some, [], ◌∷◌, Text, ◌==◌, ==_iff, arith,
}
use dorf.Base.Results.{ok, err, admission_conflict}
use dorf.Core.Domain.{session_id, main_sandbox_name, default_sandbox}
use dorf.Core.Admission.{SessionAdmission}
use dorf.Store.Table.{get, put, any_row, get-put_self}
use dorf.Store.Tasks.{latest_task, has_task, schedule_session_task, attach_session_task}
use dorf.Store.Profiles.{admitted_revision, lock_admission_profile_revision}
use dorf.Store.Sandboxes.{find_sandbox, find_session, session_of}
use dorf.Store.Db.{SessionRow, TaskRow, SandboxRow, ResourceRow, spawn_task, Db, Absurd}
use dorf.Store.Admission.{
  session_by_key, admitted_row, is_known_client, is_sha256_digest, initial_resource,
  reserve_admitted_sandbox, direct_task_name, direct_task_key, insert_or_find, settle_admission,
  admit_session,
}
use dorf.Store.Admission.Replay.{
  session_by_key-put, anonymous, same_admission-eq, IsAdmitted, admit-IsAdmitted,
}

-- What a first admission meets: an admitted profile, a client that is known, identities that nothing
-- has taken, and an Absurd service that gives a task that is new.
pub record IsFresh (service : Absurd) (db : Db) (a : SessionAdmission) (revision task : Text)
    : Type 0 where
  pub no_session : get (session_id a.admission_key) db.sessions ≡ none
  pub no_key : session_by_key a.admission_key db.sessions ≡ none
  pub admitted : admitted_revision db a.sandbox_profile ≡ some revision
  pub client_known : is_known_client a.created_by_client_id db ≡ true
  pub no_sandbox : get (main_sandbox_name (session_id a.admission_key)) db.sandboxes ≡ none
  pub no_name :
      any_row
        (λ k s. s.session_id == session_id a.admission_key && s.name == default_sandbox)
        db.sandboxes
      ≡ false
  pub no_resource :
      get (initial_resource (main_sandbox_name (session_id a.admission_key))) db.resources ≡ none
  pub no_task : latest_task (session_id a.admission_key) db.session_tasks ≡ none
  pub spawned :
      service.spawn db.absurd_calls direct_task_name
        (session_id a.admission_key)
        (direct_task_key (session_id a.admission_key))
      ≡ ok task
  pub task_named : (task == []) ≡ false
  pub task_new : has_task task db.session_tasks ≡ false

module _ (service : Absurd) (db : Db) (a : SessionAdmission) (revision task nonce : Text)
    (f : IsFresh service db a revision task) (digest : is_sha256_digest nonce ≡ true) where
  abbrev id : Text
  id = session_id a.admission_key

  abbrev sandbox : Text
  sandbox = main_sandbox_name id

  abbrev row : SessionRow
  row = admitted_row a revision db.clock

  abbrev sandbox_row : SandboxRow
  sandbox_row = record {
    session_id = id;
    name = default_sandbox;
    active_resource_id = initial_resource sandbox;
  }

  abbrev resource_row : ResourceRow
  resource_row = record {
    sandbox_id = sandbox;
    ownership_nonce = nonce;
    provider_id = none;
    reserved_at = db.clock;
    observed_at = none;
    deleted_at = none;
  }

  abbrev task_row : TaskRow
  task_row = record { session_id = id; sequence = 1; task_id = task; task_name = direct_task_name }

  abbrev inserted : Db
  inserted = record db { sessions = put id row db.sessions }

  abbrev reserved : Db
  reserved = record inserted {
    sandboxes = put sandbox sandbox_row db.sandboxes;
    resources = put (initial_resource sandbox) resource_row db.resources;
  }

  abbrev pub admitted : Db
  admitted = record reserved {
    session_tasks = task_row ∷ db.session_tasks;
    absurd_calls = spawn_task direct_task_name id (direct_task_key id) ∷ db.absurd_calls;
  }

  row_there : get id (put id row db.sessions) ≡ some row
  row_there = get-put_self id row db.sessions

  inserts : insert_or_find a db ≡ ok (((id, row), 1), inserted)
  unfolding insert_or_find lock_admission_profile_revision
  inserts = ground (
    arith,
    f.no_session,
    f.no_key,
    f.admitted,
    f.client_known,
    session_by_key-put a.admission_key id row db.sessions f.no_session f.no_key
        ((==_iff a.admission_key a.admission_key).1 refl),
  )

  reserves : reserve_admitted_sandbox id sandbox (ok nonce) inserted ≡ ok (tt, reserved)
  unfolding reserve_admitted_sandbox
  reserves = ground (arith, f.no_sandbox, f.no_name, f.no_resource)

  schedules :
      schedule_session_task service id direct_task_name (direct_task_key id) reserved
      ≡ ok (tt, admitted)
  unfolding schedule_session_task attach_session_task
  schedules = ground (
    arith,
    f.no_task,
    f.spawned,
    f.task_named,
    f.task_new,
    row_there,
    ==_iff task [],
    ==_iff [] task,
  )

  -- The first admission.
  pub admits_first :
      admit_session service a (ok nonce) db ≡ ok ((session_of admitted id row, true), admitted)
  unfolding admit_session settle_admission find_session
  admits_first = ground (
    arith,
    inserts,
    reserves,
    schedules,
    row_there,
    (same_admission-eq a a revision db.clock).1 refl,
  )

  pub admitted-IsAdmitted : IsAdmitted admitted a.admission_key id row
  unfolding find_sandbox latest_task
  admitted-IsAdmitted = record {
    keyed =
        session_by_key-put a.admission_key id row db.sessions f.no_session f.no_key
          ((==_iff a.admission_key a.admission_key).1 refl);
    stored = row_there;
    listed = ground (arith, get-put_self sandbox sandbox_row db.sandboxes);
    reserved = ground (
      arith,
      digest,
      get-put_self sandbox sandbox_row db.sandboxes,
      get-put_self (initial_resource sandbox) resource_row db.resources,
      ==_iff sandbox sandbox,
      ==_iff id id,
    );
    attached = ground (arith, f.no_task, f.task_named, ==_iff id id);
  }

  -- A first admission under the conditions of `IsFresh`, with a digest as its nonce, succeeds. In the
  -- state that it leaves, the same admission but for its client returns the same Session and changes
  -- nothing, and another admission under the key is refused as a conflict.
  pub admit_once :
      (admit_session service a (ok nonce) db ≡ ok ((session_of admitted id row, true), admitted))
      × ((b : SessionAdmission) (other : Text)
          → anonymous a ≡ anonymous b
          → admit_session service b (ok other) admitted
            ≡ ok ((session_of admitted id row, false), admitted))
      × ((b : SessionAdmission) (other : Text)
          → a.admission_key ≡ b.admission_key
          → anonymous a ≢ anonymous b
          → admit_session service b (ok other) admitted ≡ err admission_conflict)
  admit_once = (
    admits_first,
    λ b other same.
        let q =
          admit-IsAdmitted service admitted a.admission_key id row admitted-IsAdmitted b other
            (sym (ap (λ (x : SessionAdmission). x.admission_key) same)) in
        ground (arith, q, (same_admission-eq a b revision db.clock).1 same),
    λ b other keyed differs.
        let q =
          admit-IsAdmitted service admitted a.admission_key id row admitted-IsAdmitted b other
            (sym keyed) in
        ground (arith, q, (same_admission-eq a b revision db.clock).0),
  )
