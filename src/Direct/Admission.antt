-- ===== src/Direct/Admission.antt =====
-- internal/direct/admission.go, with internal/profile/selection.go and internal/gateway/defaults.go:
-- a client's request, checked, completed from the deployment's defaults, and admitted.
-- The store is the one of internal/postgres. What other clients commit between the service's reads
-- and its transaction is an argument, and so is what the AI connections answer.
pub mod Bounds
pub mod Replay
use dorf.Base.{
  ℕ, Bool, true, false, not, ◌&&◌, ◌||◌, Option, none, some, [], ◌∷◌, Text, txt, ◌==◌, length, ltb,
  is_some, if◌then◌else◌,
}
use dorf.Base.Results.{
  Result, ok, err, Error, not_found, message, joined, invalid_admission, direct_admission_conflict,
  Done,
}
use dorf.Std.Strings.{trim_space}
use dorf.Core.Domain.{Session, session_id}
use dorf.Core.Profiles.{SandboxProfile, is_base_verified}
use dorf.Core.Admission.{SessionAdmission, has_zero, is_valid_client_reference}
use dorf.Store.Table.{Table, get}
use dorf.Store.Profiles.{find_active, find_candidate}
use dorf.Store.Sandboxes.{find_session}
use dorf.Store.Admission.{is_effort, admit_direct}
use dorf.Store.Db.{ProfileRow, Db, Absurd}

pub record AdmissionRequest : Type 0 where
  pub keep_running : Bool
  pub created_by_client_id : Text
  pub client_reference : Text
  pub admission_key : Text
  pub agents_md : Text
  pub sandbox_profile : Text
  pub provider_connection : Text
  pub model : Text
  pub reasoning_effort : Text

-- `AdmissionProvider`: the configured AI connections.
pub record AdmissionProvider : Type 0 where
  pub default_connection : Result Text
  pub default_model : Text → Result Text
  pub check : Text → Result Done

unfoldable pub invalid_admission_text : Text → ℕ → Bool → Bool
invalid_admission_text t limit required =
    ltb limit (length t) || (has_zero t || required && trim_space t == [])

abbrev pub is_bad_key : Text → Bool
is_bad_key key =
    trim_space key == []
    || (not (key == trim_space key)
        || (ltb 255 (length (trim_space key)) || has_zero (trim_space key)))

unfoldable pub check_admission_key : Text → Result Text
check_admission_key key = elim (is_bad_key key) [
  | true ↦ err invalid_admission
  | false ↦ ok (trim_space key)
]

abbrev pub effort_or_high : Text → Text
effort_or_high t = if t == [] then txt "high" else t

abbrev pub normalized : AdmissionRequest → SessionAdmission
normalized r = record {
  keep_running = r.keep_running;
  created_by_client_id = r.created_by_client_id;
  client_reference = r.client_reference;
  admission_key = r.admission_key;
  agents_md = r.agents_md;
  sandbox_profile = trim_space r.sandbox_profile;
  provider_connection = trim_space r.provider_connection;
  model = trim_space r.model;
  reasoning_effort = effort_or_high (trim_space r.reasoning_effort);
}

abbrev pub has_invalid_text : SessionAdmission → Bool
has_invalid_text a =
    invalid_admission_text a.agents_md 0x100000 false
    || (invalid_admission_text a.model 1024 false
        || (invalid_admission_text a.sandbox_profile 255 false
            || invalid_admission_text a.provider_connection 255 false))

unfoldable pub normalize_admission_request : AdmissionRequest → Result SessionAdmission
normalize_admission_request r =
    elim (has_invalid_text (normalized r) || not (is_effort (normalized r).reasoning_effort)) [
      | true ↦ err invalid_admission
      | false ↦ ok (normalized r)
    ]

-- `ActiveSandboxProfile`.
unfoldable pub active_sandbox_profile : Db → Text → Result SandboxProfile
active_sandbox_profile db name = elim (find_active db (trim_space name)) [
  | some p ↦ ok p
  | none ↦ elim (find_candidate db (trim_space name)) [
    | none ↦ err not_found
    | some _ ↦ err (message "Sandbox profile has no active verified revision")
  ]
]

-- `GetDefaultSandboxProfile`: at most one name is the default.
unfoldable pub default_name : Table ProfileRow → Option Text
default_name [] = none
default_name ((name, p) ∷ t) = let rest = default_name t in if p.is_default then some name else rest

unfoldable pub default_sandbox_profile : Db → Result SandboxProfile
default_sandbox_profile db = elim (default_name db.profiles) [
  | none ↦ err (message "no default Sandbox profile is configured")
  | some name ↦ active_sandbox_profile db name
]

abbrev pub verified_only : SandboxProfile → Result SandboxProfile
verified_only p = elim (is_base_verified p) [
  | true ↦ ok p
  | false ↦ err (message "Sandbox profile has not completed verification and cleanup")
]

unfoldable pub select_verified : Db → Text → Result SandboxProfile
select_verified db name = elim (name == []) [
  | true ↦ elim (default_sandbox_profile db) [ ok p ↦ verified_only p | err e ↦ err e ]
  | false ↦ elim (active_sandbox_profile db name) [ ok p ↦ verified_only p | err e ↦ err e ]
]

-- An omitted choice is filled from the connection's defaults.
abbrev pub or_default : Text → Result Text → Result Text
or_default t d = elim (t == []) [ true ↦ d | false ↦ ok t ]

unfoldable pub resolve_model : AdmissionProvider → Text → Text → Result (Text × Text)
resolve_model provider connection model = elim (or_default connection provider.default_connection) [
  | err e ↦ err e
  | ok c ↦ elim (or_default model (provider.default_model c)) [ err e ↦ err e | ok m ↦ ok (c, m) ]
]

-- `errors.Is(err, ErrAdmissionConflict)`.
abbrev pub is_conflict : Error → Bool
is_conflict direct_admission_conflict = true
is_conflict (joined a b) = is_conflict a || is_conflict b
is_conflict _ = false

-- What `admitNew` admits: everything chosen, and the connection ready.
unfoldable pub complete : AdmissionProvider → Db → AdmissionRequest → Result SessionAdmission
complete provider db r = elim (normalize_admission_request r) [
  | err e ↦ err e
  | ok a ↦ elim (select_verified db a.sandbox_profile) [
    | err e ↦ elim (a.sandbox_profile == []) [
      | true ↦ err e
      | false ↦ err (joined invalid_admission e)
    ]
    | ok p ↦ elim (p.definition.harness == txt "codex") [
      | false ↦ err invalid_admission
      | true ↦ elim (resolve_model provider a.provider_connection a.model) [
        | err e ↦ err e
        | ok (c, m) ↦ elim (invalid_admission_text (trim_space m) 1024 true) [
          | true ↦ err invalid_admission
          | false ↦ elim (provider.check c) [
            | err e ↦ err e
            | ok _ ↦ ok (record a {
              sandbox_profile = p.name;
              provider_connection = c;
              model = trim_space m;
            })
          ]
        ]
      ]
    ]
  ]
]

abbrev pub or_stored : Text → Text → Text
or_stored t stored = if t == [] then stored else t

abbrev pub contradicts : Text → Text → Bool
contradicts t stored = not (t == []) && not (t == stored)

-- What `replay` asks for: an omitted choice is the stored Session's.
unfoldable pub complete_replay : Db → AdmissionRequest → Result SessionAdmission
complete_replay db r = elim (find_session db (session_id r.admission_key)) [
  | none ↦ err not_found
  | some s ↦ elim (normalize_admission_request r) [
    | err e ↦ err direct_admission_conflict
    | ok a ↦
        elim (contradicts a.sandbox_profile s.sandbox_profile
          || contradicts a.provider_connection s.provider_connection) [
            | true ↦ err direct_admission_conflict
            | false ↦ ok (record a {
              sandbox_profile = s.sandbox_profile;
              provider_connection = s.provider_connection;
              model = or_stored a.model s.model;
            })
          ]
  ]
]

abbrev pub Admitted : Type 0
Admitted = Result ((Session × Bool) × Db)

module _ (service : Absurd) (provider : AdmissionProvider) (nonce : Result Text) where
  unfoldable pub replay : AdmissionRequest → Db → Admitted
  replay r db = elim (complete_replay db r) [
    | err e ↦ err e
    | ok a ↦ admit_direct service a nonce db
  ]

  -- `admitNew`: it reads the profile in one state, and admits in a later one.
  unfoldable pub admit_new : AdmissionRequest → Db → Db → Admitted
  admit_new r seen db = elim (complete provider seen r) [
    | err e ↦ err e
    | ok a ↦ admit_direct service a nonce db
  ]

  -- A lost race is met by a replay, which says whether the winner asked for the same.
  unfoldable pub admit_or_replay : AdmissionRequest → Db → Db → Db → Admitted
  admit_or_replay r seen db later = elim (admit_new r seen db) [
    | ok a ↦ ok a
    | err e ↦ elim (is_conflict e) [
      | false ↦ err e
      | true ↦ elim (replay r later) [ err e ↦ err e | ok ((s, _), db') ↦ ok ((s, false), db') ]
    ]
  ]

  -- `Admit`: `seen`, `db` and `later` are the states at its look-up, its transaction and its replay.
  unfoldable pub admit : AdmissionRequest → Db → Db → Db → Admitted
  admit r seen db later = elim (is_valid_client_reference r.client_reference) [
    | false ↦ err invalid_admission
    | true ↦ elim (check_admission_key r.admission_key) [
      | err e ↦ err e
      | ok key ↦ elim (is_some (find_session seen (session_id key))) [
        | true ↦ replay (record r { admission_key = key }) db
        | false ↦ admit_or_replay (record r { admission_key = key }) seen db later
      ]
    ]
  ]
