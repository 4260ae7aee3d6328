-- ===== src/Store/Db.antt =====
-- The tables of internal/postgres/migrations that the modelled transactions use, and what those
-- transactions are: they return a result and the next state, and an error rolls everything back.
-- The Absurd task service keeps its state in the same database, so its calls are part of a
-- transaction. Its answers depend on the calls made before, and are given by an `Absurd` record.
use dorf.Base.{
  ℕ, ◌≡◌, refl, Bool, true, false, Option, none, some, List, [], ◌∷◌, String, Text, eqb,
}
use dorf.Base.Results.{Result, ok, err, Error, not_found, no_rows, message, Done}
use dorf.Core.Domain.{CleanupState, ActionKind, ActionState, Attention}
use dorf.Core.Profiles.{Definition}
use dorf.Control.Store.{ClientRow}
use dorf.Store.Table.{Table}

pub record SessionRow : Type 0 where
  pub admission_key : Text
  pub agents_md : Text
  pub created_by_client_id : Text
  pub client_reference : Text
  pub sandbox_profile : Text
  pub sandbox_profile_revision : Text
  pub provider_connection : Text
  pub model : Text
  pub reasoning_effort : Text
  pub keep_running : Bool
  pub admission_open : Bool
  pub cleanup_state : CleanupState
  pub thread_id : Option Text
  pub native_revision : ℕ
  pub native_pending_input_id : Option Text
  pub native_pending_turn_id : Option Text
  pub execution_attention : Option Attention
  pub cleanup_attention : Option Text
  pub sandbox_last_active_at : Option ℕ
  pub admitted_at : ℕ
  pub cleaned_at : Option ℕ

pub record TaskRow : Type 0 where
  pub session_id : Text
  pub sequence : ℕ
  pub task_id : Text
  pub task_name : Text

pub record SandboxRow : Type 0 where
  pub session_id : Text
  pub name : Text
  pub active_resource_id : Text

pub record ResourceRow : Type 0 where
  pub sandbox_id : Text
  pub ownership_nonce : Text
  pub provider_id : Option Text
  pub reserved_at : ℕ
  pub observed_at : Option ℕ
  pub deleted_at : Option ℕ

pub record ActionRow : Type 0 where
  pub session_id : Text
  pub kind : ActionKind
  pub state : ActionState
  pub scope_key : Text
  pub created_at : ℕ
  pub settled_at : Option ℕ

pub record HoldRow : Type 0 where
  pub sandbox_id : Text
  pub reason : Text
  pub requested_at : ℕ
  pub released_at : Option ℕ

pub record UpgradeRow : Type 0 where
  pub sandbox_id : Text
  pub source_resource_id : Text
  pub destination_resource_id : Option Text
  pub package_path : Text
  pub version : Text
  pub requested_at : ℕ
  pub previous_version : Option Text
  pub quiesced_at : Option ℕ
  pub checkpoint_key : Option Text
  pub checkpoint_reference : Option Text
  pub checkpoint_source_id : Option Text
  pub activated_at : Option ℕ
  pub rollback_at : Option ℕ
  pub failure_code : Option Text
  pub restored_at : Option ℕ
  pub verified_at : Option ℕ
  pub checkpoint_deleted_at : Option ℕ
  pub finished_at : Option ℕ

pub record WakeCause : Type 0 where
  pub session_id : Text
  pub cause_key : Text
  pub revision : ℕ

-- The name of a Sandbox profile, with its staged and its admitted revision.
pub record ProfileRow : Type 0 where
  pub candidate_revision : Text
  pub active_revision : Option Text
  pub is_default : Bool
  pub created_at : ℕ

pub record VerificationRow : Type 0 where
  pub profile_name : Text
  pub definition_hash : Text
  pub contract_version : Text
  pub sandbox_id : Text
  pub ownership_nonce : Text
  pub harness_version : Option Text
  pub attempted_at : ℕ
  pub probe_completed_at : Option ℕ
  pub cleaned_at : Option ℕ
  pub last_error : Option Text

-- Keyed by a repository and a snapshot.
pub record CheckpointRow : Type 0 where
  pub repository : Text
  pub snapshot_id : Text
  pub sandbox_id : Text
  pub resource_id : Text
  pub profile_name : Text
  pub profile_revision : Text
  pub effective_upgrade_id : Option Text
  pub last_activity_at : ℕ
  pub native_revision : ℕ
  pub delivery_hold_count : ℕ
  pub cleanup : Bool
  pub published_at : ℕ

pub record RecoveryRow : Type 0 where
  pub sandbox_id : Text
  pub checkpoint_repository : Text
  pub checkpoint_snapshot_id : Text
  pub source_resource_id : Text
  pub destination_resource_id : Text
  pub requested_at : ℕ
  pub verified_at : Option ℕ
  pub finished_at : Option ℕ

pub record RetryRow : Type 0 where
  pub session_id : Text
  pub task_id : Text
  pub run_id : Text
  pub attempt : ℕ

pub data AbsurdCall : Type 0 where
  spawn_task : (name session_id idempotency_key : Text) → AbsurdCall
  cancel_task : (task_id : Text) → AbsurdCall
  retry_task : (task_id : Text) → AbsurdCall
  emit_event : (session_id : Text) (revision : ℕ) (cause_key : Text) → AbsurdCall

pub record Db : Type 0 where
  pub sessions : Table SessionRow
  pub session_tasks : List TaskRow
  pub sandboxes : Table SandboxRow
  pub resources : Table ResourceRow
  pub actions : Table ActionRow
  pub holds : Table HoldRow
  pub upgrades : Table UpgradeRow
  pub wakes : Table ℕ
  pub wake_causes : List WakeCause
  pub retries : Table RetryRow
  pub profiles : Table ProfileRow
  -- Both are keyed by a profile's name and a definition's hash.
  pub profile_revisions : Table Definition
  pub profile_verifications : Table VerificationRow
  pub checkpoints : List CheckpointRow
  pub recoveries : Table RecoveryRow
  -- `dorf.control_clients`, to which Sessions refer.
  pub clients : Table ClientRow
  pub absurd_calls : List AbsurdCall
  pub clock : ℕ

-- What `absurd.retry_task` answers.
pub record RetriedTask : Type 0 where
  pub task_id : Text
  pub run_id : Text
  pub attempt : ℕ
  pub created : Bool

-- The answers of the Absurd service, from the calls made before, newest first.
pub record Absurd : Type 0 where
  pub spawn : List AbsurdCall → Text → Text → Text → Result Text
  pub cancel : List AbsurdCall → Text → Result Done
  pub retry : List AbsurdCall → Text → Result RetriedTask
  pub emit : List AbsurdCall → Text → ℕ → Text → Result Done

abbrev pub Tx : Type 0 → Type 0
Tx A = Db → Result (A × Db)

infixl 5 ◌>>=◌ ◌>>◌
abbrev pub ◌>>=◌ : {A B : Type 0} → Tx A → (A → Tx B) → Tx B
◌>>=◌ m f db = elim (m db) [ ok (a, db') ↦ f a db' | err e ↦ err e ]

abbrev pub ◌>>◌ : {B : Type 0} → Tx Done → Tx B → Tx B
◌>>◌ m k = m >>= λ _. k

abbrev pub pure : {A : Type 0} → A → Tx A
pure a db = ok (a, db)

abbrev pub fail : {A : Type 0} → Error → Tx A
fail e db = err e

abbrev pub refuse_if : Bool → String → Tx Done
refuse_if test s db = elim test [ true ↦ err (message s) | false ↦ ok (tt, db) ]

-- `if` between transactions.
abbrev pub branch : {A : Type 0} → Bool → Tx A → Tx A → Tx A
branch test m k db = elim test [ true ↦ m db | false ↦ k db ]

abbrev pub gets : {A : Type 0} → (Db → A) → Tx A
gets f db = ok (f db, db)

-- `:one` queries fail with `sql.ErrNoRows` where there is no row.
abbrev pub one : {A : Type 0} → (Db → Option A) → Tx A
one f db = elim (f db) [ none ↦ err no_rows | some a ↦ ok (a, db) ]

-- A statement, with the count of the rows that it changed.
abbrev pub exec : (Db → Db × ℕ) → Tx ℕ
exec f db = let (db', n) = f db in ok (n, db')

-- `expectOneRows`.
abbrev pub expect_one_rows : Tx ℕ → Tx Done
expect_one_rows m db = elim (m db) [
  | ok (n, db') ↦ elim (eqb n 1) [ true ↦ ok (tt, db') | false ↦ err not_found ]
  | err e ↦ err e
]

-- `coalesce(t, clock_timestamp())`.
abbrev pub or_now : Option ℕ → ℕ → Option ℕ
or_now none now = some now
or_now (some t) now = some t

-- `coalesce(x, '')`.
abbrev pub or_empty : Option Text → Text
or_empty none = []
or_empty (some t) = t

-- `nullif(x, '')`.
abbrev pub null_if_empty : Text → Option Text
null_if_empty [] = none
null_if_empty (c ∷ cs) = some (c ∷ cs)

-- A chain that succeeds, taken apart at its first step.
pub >>=-eq-ok :
    {A B : Type 0} (m : Tx A) (f : A → Tx B) (db : Db) {b : B} {db'' : Db}
    → (m >>= f) db ≡ ok (b, db'')
    → (a : A) × (db' : Db) × (m db ≡ ok (a, db')) × (f a db' ≡ ok (b, db''))
>>=-eq-ok {A} {B} m f db {b} {db''} h = go (m db) refl h
  where
    go :
        (r : Result (A × Db))
        → m db ≡ r
        → (elim r as (λ _. Result (B × Db)) [ ok (a, db') ↦ f a db' | err e ↦ err e ])
          ≡ ok (b, db'')
        → (a : A) × (db' : Db) × (m db ≡ ok (a, db')) × (f a db' ≡ ok (b, db''))
    go (ok (a, db')) e k = (a, db', e, k)
    go (err x) e k = cc
