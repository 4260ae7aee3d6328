-- ===== src/Store/Profiles.antt =====
-- internal/postgres/profiles.go, with its queries: the revisions of a Sandbox profile, the
-- verification of its candidate, its promotion, and the fence around one that became unavailable.
-- The staging of a definition and the parsing of its settings are left out.
pub mod Fence
pub mod Promotion
use dorf.Base.{
  ℕ, Bool, true, false, not, ◌&&◌, ◌||◌, Option, none, some, [], ◌∷◌, ◌++◌, Text, txt, ◌==◌, eqb,
  take, is_some,
}
use dorf.Base.Results.{Result, ok, err, Error, no_rows, not_found, message, Done}
use dorf.Std.Sha256.{sum256, hex}
use dorf.Std.Strings.{trim_space}
use dorf.Core.Profiles.{
  Definition, ProfileVerification, SandboxProfile, base_profile_contract, current_definition_hash,
  is_base_verified,
}
use dorf.Store.Table.{Table, get, put, update, remove, map_rows, rows_where}
use dorf.Store.Attention.{set_attention_row}
use dorf.Store.Db.{
  SessionRow, ProfileRow, VerificationRow, Db, Tx, ◌>>=◌, ◌>>◌, pure, fail, refuse_if, branch, one,
  exec, expect_one_rows, or_now, or_empty, null_if_empty,
}

-- The key of the two tables: a name holds no zero byte.
abbrev pub revision_key : Text → Text → Text
revision_key name hash = name ++ (0 ∷ hash)

abbrev pub verification_of : VerificationRow → ProfileVerification
verification_of v = record {
  profile_name = v.profile_name;
  contract_version = v.contract_version;
  definition_hash = v.definition_hash;
  sandbox_id = v.sandbox_id;
  ownership_nonce = v.ownership_nonce;
  harness_version = or_empty v.harness_version;
  attempted_at = v.attempted_at;
  probe_completed_at = v.probe_completed_at;
  cleaned_at = v.cleaned_at;
  last_error = or_empty v.last_error;
}

abbrev pub verification_option : Option VerificationRow → Option ProfileVerification
verification_option none = none
verification_option (some v) = some (verification_of v)

abbrev pub profile_of :
    Text → ProfileRow → Text → Definition → Option VerificationRow → SandboxProfile
profile_of name p hash d v = record {
  active_revision = or_empty p.active_revision;
  name = name;
  definition = d;
  definition_hash = hash;
  is_default = p.is_default;
  created_at = p.created_at;
  verification = verification_option v;
}

-- A revision of a profile, joined with its definition and its verification.
unfoldable pub revision_in : Db → Text → ProfileRow → Text → Option SandboxProfile
revision_in db name p hash = elim (get (revision_key name hash) db.profile_revisions) [
  | none ↦ none
  | some d ↦ some (profile_of name p hash d (get (revision_key name hash) db.profile_verifications))
]

-- `GetSandboxProfile`.
unfoldable pub find_candidate : Db → Text → Option SandboxProfile
find_candidate db name = elim (get name db.profiles) [
  | none ↦ none
  | some p ↦ revision_in db name p p.candidate_revision
]

-- `GetActiveSandboxProfile`.
unfoldable pub find_active : Db → Text → Option SandboxProfile
find_active db name = elim (get name db.profiles) [
  | none ↦ none
  | some p ↦ elim p.active_revision [ none ↦ none | some hash ↦ revision_in db name p hash ]
]

abbrev pub lock_profile : Text → Tx ProfileRow
lock_profile name = one λ db. get name db.profiles

abbrev pub lock_candidate_sandbox_profile : Text → Tx SandboxProfile
lock_candidate_sandbox_profile name db = elim (get name db.profiles) [
  | none ↦ err not_found
  | some p ↦ one (λ d. find_candidate d name) db
]

-- The condition under which the statements admit a revision.
abbrev pub is_settled : VerificationRow → Bool
is_settled v =
    v.contract_version == base_profile_contract
    && (is_some v.probe_completed_at && (is_some v.cleaned_at && not (is_some v.last_error)))

abbrev pub is_settled_in : Db → Text → Text → Bool
is_settled_in db name hash = elim (get (revision_key name hash) db.profile_verifications) [
  | none ↦ false
  | some v ↦ is_settled v
]

-- The statements `LockSandboxProfileNameForAdmission` and `LockVerifiedSandboxProfileForAdmission`.
abbrev pub admitted_revision : Db → Text → Option Text
admitted_revision db name = elim (get name db.profiles) [
  | none ↦ none
  | some p ↦ elim p.active_revision [
    | none ↦ none
    | some hash ↦ elim (is_settled_in db name hash) [ true ↦ some hash | false ↦ none ]
  ]
]

unfoldable pub lock_admission_profile_revision : Text → Tx Text
lock_admission_profile_revision name db = elim (admitted_revision db name) [
  | none ↦ err (message "Sandbox profile has not completed verification and cleanup")
  | some hash ↦ ok (hash, db)
]

-- The identity that a statement about one verification attempt has to match.
abbrev pub is_attempt : ProfileVerification → VerificationRow → Bool
is_attempt a v =
    v.contract_version == a.contract_version
    && (v.sandbox_id == a.sandbox_id && v.ownership_nonce == a.ownership_nonce)

abbrev pub update_verification :
    Text → Text → (VerificationRow → Bool) → (Db → VerificationRow → VerificationRow) → Tx ℕ
update_verification name hash test change = exec λ db.
    let (t, n) = update (revision_key name hash) test (change db) db.profile_verifications in
    (record db { profile_verifications = t }, n)

abbrev pub update_attempt :
    ProfileVerification → (VerificationRow → Bool) → (Db → VerificationRow → VerificationRow) → Tx ℕ
update_attempt a test change =
    update_verification a.profile_name a.definition_hash (λ v. is_attempt a v && test v) change

-- `BeginSandboxProfileVerification`, the statement: a new attempt, or the unproven one again.
abbrev pub begin_row : Text → Text → Text → Text → Tx VerificationRow
begin_row name hash sandbox nonce db =
    elim (get (revision_key name hash) db.profile_verifications) [
      | none ↦
          let v : VerificationRow = record {
            profile_name = name;
            definition_hash = hash;
            contract_version = base_profile_contract;
            sandbox_id = sandbox;
            ownership_nonce = nonce;
            harness_version = none;
            attempted_at = db.clock;
            probe_completed_at = none;
            cleaned_at = none;
            last_error = none;
          } in
          ok (
            v,
            record db {
              profile_verifications = put (revision_key name hash) v db.profile_verifications;
            },
          )
      | some old ↦
          let v : VerificationRow = record old {
            attempted_at = db.clock;
            cleaned_at = none;
            last_error = none;
          } in
          elim (is_some old.probe_completed_at) [
            | true ↦ err no_rows
            | false ↦ ok (
              v,
              record db {
                profile_verifications = put (revision_key name hash) v db.profile_verifications;
              },
            )
          ]
    ]

abbrev pub delete_verification : Text → Text → Tx Done
delete_verification name hash db = ok (
  tt,
  record db { profile_verifications = remove (revision_key name hash) db.profile_verifications },
)

unfoldable pub verification_sandbox_id : Text → Text → Text
verification_sandbox_id name hash =
    txt "dorf-profile-" ++ take 20 (hex (sum256 (name ++ (58 ∷ hash))))

abbrev pub has_probe : Option ProfileVerification → Bool
has_probe none = false
has_probe (some v) = is_some v.probe_completed_at

abbrev pub awaits_cleanup : Option ProfileVerification → Bool
awaits_cleanup none = false
awaits_cleanup (some v) = is_some v.probe_completed_at && not (is_some v.cleaned_at)

-- A fresh attempt, after the settled one is dropped.
abbrev pub begin_afresh : SandboxProfile → Text → Text → Tx ProfileVerification
begin_afresh p name nonce = do
  branch (has_probe p.verification) (delete_verification name p.definition_hash) (pure tt)
  v ← begin_row p.name p.definition_hash (verification_sandbox_id name p.definition_hash) nonce
  pure (verification_of v)

abbrev pub retained_or_fresh : SandboxProfile → Text → Text → Tx ProfileVerification
retained_or_fresh p name nonce db = elim p.verification [
  | none ↦ begin_afresh p name nonce db
  | some v ↦ branch (awaits_cleanup (some v)) (pure v) (begin_afresh p name nonce) db
]

-- The Sandbox identity and the nonce, which are fresh and random, are taken to be unique.
unfoldable pub begin_sandbox_profile_verification : Text → Text → Tx ProfileVerification
begin_sandbox_profile_verification name nonce = do
  p ← lock_candidate_sandbox_profile (trim_space name)
  refuse_if (not (p.definition_hash == current_definition_hash p.definition))
      "Sandbox profile definition does not match its retained hash"
  retained_or_fresh p (trim_space name) nonce

unfoldable pub record_sandbox_profile_probe : ProfileVerification → Text → Tx Done
record_sandbox_profile_probe a version = do
  refuse_if (trim_space version == []) "profile verification requires an observed Harness version"
  expect_one_rows (
      update_attempt a (λ v. not (is_some v.cleaned_at))
        (λ db v. record v {
          harness_version = null_if_empty (trim_space version);
          probe_completed_at = or_now v.probe_completed_at db.clock;
          last_error = none;
        }))

abbrev pub cleaned : ℕ → VerificationRow → VerificationRow
cleaned now v = record v {
  cleaned_at = or_now v.cleaned_at now;
  last_error = elim (not (is_some v.cleaned_at) && is_some v.probe_completed_at) [
    | true ↦ none
    | false ↦ v.last_error
  ];
}

-- `PromoteVerifiedSandboxProfile`: the count of rows is not looked at.
unfoldable pub promote : Text → Text → Tx Done
promote name hash db =
    let (t, n) =
      update name (λ p. p.candidate_revision == hash && is_settled_in db name hash)
        (λ p. record p { active_revision = some hash }) db.profiles in
    ok (tt, record db { profiles = t })

unfoldable pub record_sandbox_profile_verification_cleanup : ProfileVerification → Tx Done
record_sandbox_profile_verification_cleanup a = do
  p ← lock_profile a.profile_name
  expect_one_rows (update_attempt a (λ v. true) (λ db v. cleaned db.clock v))
  promote a.profile_name a.definition_hash

unfoldable pub record_sandbox_profile_verification_error : ProfileVerification → Text → Tx Done
record_sandbox_profile_verification_error a failure = expect_one_rows (
    update_attempt a (λ v. true)
      (λ db v. record v { last_error = null_if_empty (take 2048 (trim_space failure)) }))

abbrev pub get_session_sandbox_profile : Text → Tx Text
get_session_sandbox_profile session =
    one λ db. elim (get session db.sessions) [ none ↦ none | some s ↦ some s.sandbox_profile ]

-- `MarkSandboxProfileUnavailable`: the revision is the one that the Session pins.
abbrev pub mark_unavailable : Text → Text → Text → Tx ℕ
mark_unavailable session name detail db = elim (get session db.sessions) [
  | none ↦ ok (0, db)
  | some s ↦
      update_verification name s.sandbox_profile_revision
        (λ v.
          v.contract_version == base_profile_contract
          && (is_some v.probe_completed_at && is_some v.cleaned_at))
        (λ db v. record v { last_error = null_if_empty detail }) db
]

abbrev pub fence_profile : Text → Text → Text → Text → Tx Done
fence_profile session name source detail = do
  pinned ← get_session_sandbox_profile session
  refuse_if (not (pinned == name)) "Session pins another Sandbox profile"
  n ← mark_unavailable session name detail
  refuse_if (not (eqb n 1)) "Sandbox profile has no settled verification to invalidate"
  set_attention_row session source detail

unfoldable pub record_sandbox_profile_unavailable : Text → Text → Text → Text → Tx Done
record_sandbox_profile_unavailable session name source failure db =
    branch (trim_space session == [] || (trim_space name == [] || trim_space source == []))
      (fail (message "unavailable Sandbox profile requires Session ID, profile, exact source"))
      (branch (trim_space failure == [])
        (fail (message "unavailable Sandbox profile requires failure detail"))
        (λ db. elim (get (trim_space name) db.profiles) [
          | none ↦ err not_found
          | some p ↦
              fence_profile (trim_space session) (trim_space name) (trim_space source)
                (take 2048 (trim_space failure)) db
        ]))
      db
