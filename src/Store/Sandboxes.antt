-- ===== src/Store/Sandboxes.antt =====
-- internal/postgres/resources.go, and the Sandbox and Session readers of internal/postgres/store.go.
use dorf.Base.{ℕ, Bool, true, false, not, ◌&&◌, ◌||◌, Option, none, some, [], Text, ◌==◌, is_some}
use dorf.Base.Results.{ok, err, constraint, Done}
use dorf.Std.Strings.{trim_space}
use dorf.Core.Domain.{Sandbox, Session}
use dorf.Store.Table.{get, put, update}
use dorf.Store.Tasks.{latest_task, task_id_of, task_name_of}
use dorf.Store.Db.{
  SessionRow, SandboxRow, ResourceRow, Db, Tx, ◌>>◌, refuse_if, one, exec, expect_one_rows, or_now,
  or_empty,
}

abbrev pub sandbox_of : Text → SandboxRow → Text → ResourceRow → Sandbox
sandbox_of id s resource r = record {
  id = id;
  session_id = s.session_id;
  name = s.name;
  ownership_nonce = r.ownership_nonce;
  resource_id = resource;
  provider_id = or_empty r.provider_id;
}

-- `GetSandbox`: the row joined with its active resource.
unfoldable pub find_sandbox : Db → Text → Option Sandbox
find_sandbox db id = elim (get id db.sandboxes) [
  | none ↦ none
  | some s ↦ elim (get s.active_resource_id db.resources) [
    | none ↦ none
    | some r ↦ some (sandbox_of id s s.active_resource_id r)
  ]
]

abbrev pub get_sandbox : Text → Tx Sandbox
get_sandbox id = one λ db. find_sandbox db id

-- `GetSandboxResource`: the Sandbox with one of its resources, active or not.
unfoldable pub find_sandbox_resource : Db → Text → Text → Text → Option Sandbox
find_sandbox_resource db session sandbox resource = elim (get sandbox db.sandboxes) [
  | none ↦ none
  | some s ↦ elim (get resource db.resources) [
    | none ↦ none
    | some r ↦ elim (s.session_id == session && r.sandbox_id == sandbox) [
      | true ↦ some (sandbox_of sandbox s resource r)
      | false ↦ none
    ]
  ]
]

abbrev pub session_of : Db → Text → SessionRow → Session
session_of db id r = record {
  id = id;
  admission_key = r.admission_key;
  agents_md = r.agents_md;
  created_by_client_id = r.created_by_client_id;
  client_reference = r.client_reference;
  thread_id = or_empty r.thread_id;
  sandbox_profile = r.sandbox_profile;
  sandbox_profile_revision = r.sandbox_profile_revision;
  provider_connection = r.provider_connection;
  model = r.model;
  reasoning_effort = r.reasoning_effort;
  keep_running = r.keep_running;
  admission_open = r.admission_open;
  cleanup_state = r.cleanup_state;
  current_task_id = task_id_of (latest_task id db.session_tasks);
  current_task_name = task_name_of (latest_task id db.session_tasks);
  execution_attention = r.execution_attention;
  cleanup_attention = or_empty r.cleanup_attention;
  admitted_at = r.admitted_at;
  cleaned_at = r.cleaned_at;
}

-- `GetSession`.
unfoldable pub find_session : Db → Text → Option Session
find_session db id = elim (get id db.sessions) [ none ↦ none | some r ↦ some (session_of db id r) ]

abbrev pub get_session : Text → Tx Session
get_session id = one λ db. find_session db id

-- Binds a locator to the active resource, unless another one is bound or the resource is deleted.
unfoldable pub bind_sandbox_resource : Sandbox → Text → Tx Done
bind_sandbox_resource owned provider = do
  refuse_if
      (owned.session_id == []
        || (owned.id == []
            || (owned.resource_id == []
                || (trim_space provider == [] || not (provider == trim_space provider)))))
      "resource binding requires exact ownership and provider identity"
  expect_one_rows (
      exec λ db.
        let owns : Bool = elim (get owned.id db.sandboxes) [
          | none ↦ false
          | some s ↦ s.session_id == owned.session_id && s.active_resource_id == owned.resource_id
        ] in
        let (t, n) =
          update owned.resource_id
            (λ r.
              owns
              && (r.sandbox_id == owned.id
                  && (r.ownership_nonce == owned.ownership_nonce
                      && (not (is_some r.deleted_at)
                          && (not (is_some r.provider_id) || or_empty r.provider_id == provider)))))
            (λ r. record r {
              provider_id = some provider;
              observed_at = or_now r.observed_at db.clock;
            })
            db.resources in
        (record db { resources = t }, n))

abbrev pub record_resource_deleted : Text → Text → Tx ℕ
record_resource_deleted resource sandbox = exec λ db.
    let (t, n) =
      update resource (λ r. r.sandbox_id == sandbox)
        (λ r. record r { deleted_at = or_now r.deleted_at db.clock }) db.resources in
    (record db { resources = t }, n)

abbrev pub record_sandbox_resource_deleted : Sandbox → Tx Done
record_sandbox_resource_deleted owned =
    expect_one_rows (record_resource_deleted owned.resource_id owned.id)

-- A resource's identity is unique; its nonce, 32 random bytes, is taken to be.
unfoldable pub reserve_sandbox_resource : Text → Text → Text → Tx Done
reserve_sandbox_resource id sandbox nonce db = elim (is_some (get id db.resources)) [
  | true ↦ err (constraint "sandbox_resources")
  | false ↦ ok (
    tt,
    record db {
      resources =
          put id
            (record {
              sandbox_id = sandbox;
              ownership_nonce = nonce;
              provider_id = none;
              reserved_at = db.clock;
              observed_at = none;
              deleted_at = none;
            })
            db.resources;
    },
  )
]

abbrev pub bind_recovered_resource : Text → Text → Tx ℕ
bind_recovered_resource resource provider = exec λ db.
    let (t, n) =
      update resource
        (λ r.
          not (is_some r.deleted_at)
          && (not (is_some r.provider_id) || or_empty r.provider_id == provider))
        (λ r. record r { provider_id = some provider; observed_at = or_now r.observed_at db.clock })
        db.resources in
    (record db { resources = t }, n)

abbrev pub switch_sandbox_resource : Text → Text → Text → Tx ℕ
switch_sandbox_resource sandbox source destination = exec λ db.
    let (t, n) =
      update sandbox (λ s. s.active_resource_id == source)
        (λ s. record s { active_resource_id = destination }) db.sandboxes in
    (record db { sandboxes = t }, n)
