-- ===== src/Store/Admission.antt =====
-- internal/postgres/session_admission.go and direct.go: one transaction admits a Session under its
-- caller's key, or meets the Session that the key already names.
-- What `ownershipNonce` reads from crypto/rand is an argument. The Session is read again after the
-- commit, in the state that was committed.
pub mod Fresh
pub mod Replay
use dorf.Base.{
  ℕ, Bool, true, false, not, ◌&&◌, ◌||◌, Option, none, some, [], ◌∷◌, ◌++◌, Text, txt, ◌==◌, eqb,
  leb, all, length, is_some, if◌then◌else◌,
}
use dorf.Base.Results.{
  Result, ok, err, Error, not_found, no_rows, message, constraint, admission_conflict,
  direct_admission_conflict, joined, Done,
}
use dorf.Std.Strings.{trim_space}
use dorf.Core.Domain.{pending, Session, Sandbox, session_id, main_sandbox_name, default_sandbox}
use dorf.Core.Admission.{SessionAdmission, is_valid_client_reference}
use dorf.Store.Table.{Table, get, put, any_row}
use dorf.Store.Tasks.{schedule_session_task}
use dorf.Store.Profiles.{lock_admission_profile_revision}
use dorf.Store.Sandboxes.{find_sandbox, find_session}
use dorf.Store.Db.{
  SessionRow, SandboxRow, ResourceRow, Db, Absurd, Tx, ◌>>=◌, ◌>>◌, pure, fail, refuse_if, branch,
}

abbrev pub trimmed : SessionAdmission → SessionAdmission
trimmed a = record a {
  admission_key = trim_space a.admission_key;
  sandbox_profile = trim_space a.sandbox_profile;
  provider_connection = trim_space a.provider_connection;
  model = trim_space a.model;
  reasoning_effort = trim_space a.reasoning_effort;
}

abbrev pub is_effort : Text → Bool
is_effort t = t == txt "low" || (t == txt "medium" || (t == txt "high" || t == txt "xhigh"))

abbrev pub is_complete_admission : SessionAdmission → Bool
is_complete_admission a = not (
    a.admission_key == []
    || (a.sandbox_profile == [] || (a.provider_connection == [] || a.model == [])))

unfoldable pub normalize_core_admission : SessionAdmission → Result SessionAdmission
normalize_core_admission a = elim (is_valid_client_reference a.client_reference) [
  | false ↦ err (message "invalid client reference")
  | true ↦ elim (is_complete_admission (trimmed a)) [
    | false ↦ err (message "admission requires key, Sandbox profile, AI connection, model")
    | true ↦ elim (is_effort (trimmed a).reasoning_effort) [
      | false ↦ err (message "reasoning effort must be low, medium, high, or xhigh")
      | true ↦ ok (trimmed a)
    ]
  ]
]

-- `GetAdmittedSessionForUpdate`: admission keys are unique.
unfoldable pub session_by_key : Text → Table SessionRow → Option (Text × SessionRow)
session_by_key key [] = none
session_by_key key ((id, r) ∷ t) =
    let rest = session_by_key key t in if r.admission_key == key then some (id, r) else rest

-- A row with the table's defaults.
abbrev pub admitted_row : SessionAdmission → Text → ℕ → SessionRow
admitted_row a revision now = record {
  admission_key = a.admission_key;
  agents_md = a.agents_md;
  created_by_client_id = a.created_by_client_id;
  client_reference = a.client_reference;
  sandbox_profile = a.sandbox_profile;
  sandbox_profile_revision = revision;
  provider_connection = a.provider_connection;
  model = a.model;
  reasoning_effort = a.reasoning_effort;
  keep_running = a.keep_running;
  admission_open = true;
  cleanup_state = pending;
  thread_id = none;
  native_revision = 0;
  native_pending_input_id = none;
  native_pending_turn_id = none;
  execution_attention = none;
  cleanup_attention = none;
  sandbox_last_active_at = some now;
  admitted_at = now;
  cleaned_at = none;
}

-- The foreign key of `created_by_client_id`; the empty text is stored as null.
abbrev pub is_known_client : Text → Db → Bool
is_known_client id db = id == [] || is_some (get id db.clients)

-- `insert … on conflict do nothing`, by the identity or the key.
abbrev pub insert_admitted_session : Text → SessionAdmission → Text → Tx ℕ
insert_admitted_session id a revision db =
    elim (is_some (get id db.sessions) || is_some (session_by_key a.admission_key db.sessions)) [
      | true ↦ ok (0, db)
      | false ↦ elim (is_known_client a.created_by_client_id db) [
        | false ↦ err (constraint "sessions")
        | true ↦
            ok (1, record db { sessions = put id (admitted_row a revision db.clock) db.sessions })
      ]
    ]

abbrev pub get_admitted_session : Text → Tx (Text × SessionRow)
get_admitted_session key db = elim (session_by_key key db.sessions) [
  | none ↦ err no_rows
  | some found ↦ ok (found, db)
]

-- The stored admission is the caller's, whoever the caller is.
abbrev pub same_admission : SessionRow → SessionAdmission → Bool
same_admission r a =
    r.client_reference == a.client_reference
    && (r.admission_key == a.admission_key
        && (r.agents_md == a.agents_md
            && (r.sandbox_profile == a.sandbox_profile
                && (r.provider_connection == a.provider_connection
                    && (r.model == a.model
                        && (r.reasoning_effort == a.reasoning_effort
                            && (if r.keep_running then a.keep_running else not a.keep_running)))))))

is_hex : ℕ → Bool
is_hex c = leb b'0' c && leb c b'9' || leb b'a' c && leb c b'f'

-- `^[0-9a-f]{64}$`.
unfoldable pub is_sha256_digest : Text → Bool
unfolding is_hex
is_sha256_digest t = eqb (length t) 64 && all is_hex t

-- The first resource of a Sandbox.
abbrev pub initial_resource : Text → Text
initial_resource sandbox = sandbox ++ txt ":initial"

-- `ReserveSandbox`: the Sandbox, unless its identity or its name in the Session is taken, and then
-- its first resource.
abbrev pub reserve_sandbox : Text → Text → Text → Text → Tx ℕ
reserve_sandbox id session name nonce db =
    elim (is_some (get id db.sandboxes)
      || any_row (λ k s. s.session_id == session && s.name == name) db.sandboxes) [
        | true ↦ ok (0, db)
        | false ↦ elim (is_some (get (initial_resource id) db.resources)) [
          | true ↦ err (constraint "sandbox_resources")
          | false ↦ ok (
            1,
            record db {
              sandboxes =
                  put id
                    (record {
                      session_id = session;
                      name = name;
                      active_resource_id = initial_resource id;
                    })
                    db.sandboxes;
              resources =
                  put (initial_resource id)
                    (record {
                      sandbox_id = id;
                      ownership_nonce = nonce;
                      provider_id = none;
                      reserved_at = db.clock;
                      observed_at = none;
                      deleted_at = none;
                    })
                    db.resources;
            },
          )
        ]
      ]

abbrev pub is_reserved : Text → Text → Sandbox → Bool
is_reserved session sandbox s =
    s.id == sandbox
    && (s.session_id == session
        && (s.name == default_sandbox && is_sha256_digest s.ownership_nonce))

abbrev pub check_reserved : Text → Text → Tx Done
check_reserved session sandbox db = elim (find_sandbox db sandbox) [
  | none ↦ err not_found
  | some s ↦
      refuse_if (not (is_reserved session sandbox s))
        "default Sandbox conflicts with its exact owned identity" db
]

-- A statement that fails, by an error or a count, fails the transaction: only a count is met by
-- reading what stands there.
unfoldable pub reserve_admitted_sandbox : Text → Text → Result Text → Tx Done
reserve_admitted_sandbox session sandbox (err e) db = err e
reserve_admitted_sandbox session sandbox (ok nonce) db =
    elim (reserve_sandbox sandbox session default_sandbox nonce db) [
      | err e ↦ err e
      | ok (n, db') ↦ branch (eqb n 1) (pure tt) (check_reserved session sandbox) db'
    ]

abbrev pub direct_task_name : Text
direct_task_name = txt "dorf-direct-session-v1"

abbrev pub direct_task_key : Text → Text
direct_task_key session = txt "direct-session:v1:" ++ session

unfoldable pub insert_or_find : SessionAdmission → Tx ((Text × SessionRow) × ℕ)
insert_or_find a db = elim (session_by_key a.admission_key db.sessions) [
  | some found ↦ ok ((found, 0), db)
  | none ↦ elim (lock_admission_profile_revision a.sandbox_profile db) [
    | err e ↦ err e
    | ok (revision, db1) ↦
        elim (insert_admitted_session (session_id a.admission_key) a revision db1) [
          | err e ↦ err e
          | ok (n, db2) ↦ elim (get_admitted_session a.admission_key db2) [
            | err e ↦ err e
            | ok (found, db3) ↦ ok ((found, n), db3)
          ]
        ]
  ]
]

module _ (service : Absurd) where
  -- The part of `admitSession` for one stored row: its Sandbox, its task, and the Session read.
  unfoldable pub settle_admission : Text → Result Text → ℕ → Tx (Session × Bool)
  settle_admission id nonce n db =
      elim (reserve_admitted_sandbox id (main_sandbox_name id) nonce db) [
        | err e ↦ err e
        | ok (_, db1) ↦
            elim (schedule_session_task service id direct_task_name (direct_task_key id) db1) [
              | err e ↦ err e
              | ok (_, db2) ↦ elim (find_session db2 id) [
                | none ↦ err not_found
                | some s ↦ ok ((s, eqb n 1), db2)
              ]
            ]
      ]

  unfoldable pub admit_session : SessionAdmission → Result Text → Tx (Session × Bool)
  admit_session a nonce db = elim (insert_or_find a db) [
    | err e ↦ err e
    | ok (((id, r), n), db1) ↦ elim (same_admission r a) [
      | false ↦ err admission_conflict
      | true ↦ settle_admission id nonce n db1
    ]
  ]

  abbrev pub as_direct : Error → Error
  as_direct admission_conflict = joined direct_admission_conflict admission_conflict
  as_direct e = e

  -- `AdmitDirect`.
  unfoldable pub admit_direct : SessionAdmission → Result Text → Tx (Session × Bool)
  admit_direct a nonce db = elim (normalize_core_admission a) [
    | err e ↦ err e
    | ok b ↦ elim (admit_session b nonce db) [ ok r ↦ ok r | err e ↦ err (as_direct e) ]
  ]
