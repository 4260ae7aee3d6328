-- ===== src/Tests/AdmissionTests.antt =====
-- Admission and profiles on small databases.
use dorf.Base.{
  ◌≡◌, ◌≢◌, refl, inl, true, false, none, some, [], ◌∷◌, Text, txt, Text-discrete, ℕ_discrete,
}
use dorf.Base.Results.{ok, err, message, admission_conflict}
use dorf.Std.Sha256.{sum256, hex}
use dorf.Std.Decimal.{decimal}
use dorf.Std.Utf8.{rune_count}
use dorf.Std.Strings.{trim_space}
use dorf.Core.Domain.{session_id}
use dorf.Core.Profiles.{
  Definition, incus, ProfileVerification, canonical, current_definition_hash, write_fields,
  is_base_verified,
}
use dorf.Core.Profiles.Identity.{canonical_inj}
use dorf.Core.Admission.{SessionAdmission, is_valid_client_reference}
use dorf.Store.Table.{get, put, update, get-put_self}
use dorf.Store.Tasks.{latest_task, has_task}
use dorf.Store.Db.{ProfileRow, VerificationRow, SessionRow, Db}
use dorf.Store.Sandboxes.{session_of}
use dorf.Store.Attention.{attended}
use dorf.Store.Profiles.{
  revision_key, begin_sandbox_profile_verification, record_sandbox_profile_probe,
  record_sandbox_profile_verification_cleanup, lock_admission_profile_revision,
  record_sandbox_profile_unavailable, revision_in, find_active,
}
use dorf.Store.Profiles.Promotion.{verification-admits}
use dorf.Store.Profiles.Fence.{unavailable-fences}
use dorf.Store.Admission.{
  session_by_key, admitted_row, is_effort, is_sha256_digest, admit_session,
  normalize_core_admission,
}
use dorf.Store.Admission.Replay.{anonymous}
use dorf.Control.Store.{ClientRow}
use dorf.Store.Admission.Fresh.{IsFresh, admitted, admitted-IsAdmitted, admit_once}
use dorf.Direct.Admission.{
  AdmissionRequest, AdmissionProvider, check_admission_key, normalize_admission_request,
  invalid_admission_text, complete, select_verified, active_sandbox_profile, resolve_model, admit,
  default_sandbox_profile, default_name,
}
use dorf.Direct.Admission.Bounds.{IsText, complete-bounds}
use dorf.Direct.Admission.Replay.{AsksFor, admit_again}
use dorf.Tests.Fixtures.{open_db, open_session, sid, willing}

abbrev image : Definition
image = record {
  provider = incus;
  harness = txt "codex";
  artifact = txt "f00d";
  incus_endpoint_authority_hash = [];
  incus_project = txt "dorf";
  incus_storage_pool = txt "pool";
  incus_network = txt "net";
  incus_disk_size = txt "10GiB";
  incus_gateway_url = [];
  e2b_gateway_url = [];
  e2b_sandbox_timeout = 0;
  e2b_allow_internet = false;
}

canonical_inj_example : image ≡ image
canonical_inj_example = canonical_inj image image refl

abbrev base : Text
base = txt "base"

abbrev image_hash : Text
image_hash = current_definition_hash image

abbrev staged : ProfileRow
staged = record {
  candidate_revision = image_hash;
  active_revision = none;
  is_default = false;
  created_at = 1;
}

abbrev staged_db : Db
staged_db = record open_db {
  profiles = put base staged [];
  profile_revisions = put (revision_key base image_hash) image [];
}

verification-admits_example :
    (a : ProfileVerification) × (db1 : Db) × (db2 : Db) × (db3 : Db)
    × (begin_sandbox_profile_verification base (txt "n") staged_db ≡ ok (a, db1))
    × (record_sandbox_profile_probe a (txt "1.2") db1 ≡ ok (tt, db2))
    × (record_sandbox_profile_verification_cleanup a db2 ≡ ok (tt, db3))
    × (lock_admission_profile_revision base db3 ≡ ok (image_hash, db3))
unfolding trim_space get put Text-discrete ℕ_discrete
verification-admits_example =
    verification-admits base (txt "n") staged_db staged image refl refl
      (get-put_self (revision_key base image_hash) image []) refl (inl refl) (txt "1.2") (λ e. cc)

abbrev proven : VerificationRow
proven = record {
  profile_name = base;
  definition_hash = txt "1";
  contract_version = txt "base-2";
  sandbox_id = txt "v";
  ownership_nonce = txt "n";
  harness_version = some (txt "1.2");
  attempted_at = 1;
  probe_completed_at = some 2;
  cleaned_at = some 3;
  last_error = none;
}

abbrev active : ProfileRow
active = record {
  candidate_revision = txt "1";
  active_revision = some (txt "1");
  is_default = true;
  created_at = 1;
}

abbrev active_db : Db
active_db = record open_db {
  profiles = (base, active) ∷ [];
  profile_revisions = (revision_key base (txt "1"), image) ∷ [];
  profile_verifications = (revision_key base (txt "1"), proven) ∷ [];
}

abbrev fenced_db : Db
fenced_db = record active_db {
  sessions =
      (sid, attended (record { detail = txt "gone"; source = txt "create"; at = 9 }) open_session)
      ∷ [];
  profile_verifications =
      (revision_key base (txt "1"), record proven { last_error = some (txt "gone") }) ∷ [];
}

unavailable-fences_example :
    lock_admission_profile_revision base fenced_db
    ≡ err (message "Sandbox profile has not completed verification and cleanup")
unfolding record_sandbox_profile_unavailable trim_space get put update Text-discrete ℕ_discrete
unavailable-fences_example =
    (unavailable-fences sid base (txt "create") (txt "gone") active_db fenced_db open_session active
      refl refl refl refl).0

abbrev creator : ClientRow
creator = record {
  name = txt "cli";
  credential_digest = txt "d";
  credential_expires_at = none;
  created_at = 1;
  revoked_at = none;
}

abbrev empty_db : Db
empty_db = record active_db {
  sessions = [];
  session_tasks = [];
  sandboxes = [];
  resources = [];
  clients = (txt "c1", creator) ∷ [];
}

abbrev wanted : SessionAdmission
wanted = record {
  keep_running = true;
  created_by_client_id = txt "c1";
  client_reference = txt "ref";
  admission_key = txt "key";
  agents_md = txt "be kind";
  sandbox_profile = base;
  provider_connection = txt "main";
  model = txt "m";
  reasoning_effort = txt "high";
}

abbrev nonce : Text
nonce = txt "00000000000000000000000000000000000000000000000000000000000000ff"

nonce-digest : is_sha256_digest nonce ≡ true
unfolding is_sha256_digest
nonce-digest = refl

wanted-IsFresh : IsFresh willing empty_db wanted (txt "1") (txt "t2")
unfolding get session_by_key latest_task has_task Text-discrete ℕ_discrete
wanted-IsFresh = record {
  no_session = refl;
  no_key = refl;
  client_known = refl;
  admitted = refl;
  no_sandbox = refl;
  no_name = refl;
  no_resource = refl;
  no_task = refl;
  spawned = refl;
  task_named = refl;
  task_new = refl;
}

abbrev admitted_db : Db
admitted_db =
    admitted willing empty_db wanted (txt "1") (txt "t2") nonce wanted-IsFresh nonce-digest

abbrev wanted_row : SessionRow
wanted_row = admitted_row wanted (txt "1") 9

admit_once_example :
    (admit_session willing wanted (ok nonce) empty_db
      ≡ ok ((session_of admitted_db (session_id (txt "key")) wanted_row, true), admitted_db))
    × ((b : SessionAdmission) (other : Text)
        → anonymous wanted ≡ anonymous b
        → admit_session willing b (ok other) admitted_db
          ≡ ok ((session_of admitted_db (session_id (txt "key")) wanted_row, false), admitted_db))
    × ((b : SessionAdmission) (other : Text)
        → txt "key" ≡ b.admission_key
        → anonymous wanted ≢ anonymous b
        → admit_session willing b (ok other) admitted_db ≡ err admission_conflict)
admit_once_example =
    admit_once willing empty_db wanted (txt "1") (txt "t2") nonce wanted-IsFresh nonce-digest

-- It leaves out the profile, the connection, the model and the effort.
abbrev bare : AdmissionRequest
bare = record {
  keep_running = true;
  created_by_client_id = txt "c2";
  client_reference = txt "ref";
  admission_key = txt "key";
  agents_md = txt "be kind";
  sandbox_profile = [];
  provider_connection = [];
  model = [];
  reasoning_effort = [];
}

abbrev connections : AdmissionProvider
connections = record {
  default_connection = ok (txt "main");
  default_model = λ c. ok (txt " m ");
  check = λ c. ok tt;
}

abbrev verified_db : Db
verified_db = record empty_db {
  profiles = (base, record active { active_revision = some image_hash }) ∷ [];
  profile_revisions = (revision_key base image_hash, image) ∷ [];
  profile_verifications =
      (revision_key base image_hash, record proven { definition_hash = image_hash }) ∷ [];
}

abbrev completed : SessionAdmission
completed = record wanted { created_by_client_id = txt "c2" }

complete-bounds_example :
    (completed.admission_key ≡ bare.admission_key)
    × IsText 0x100000 completed.agents_md
    × IsText 1024 completed.model
    × (trim_space completed.model ≢ [])
    × (is_effort completed.reasoning_effort ≡ true)
unfolding complete normalize_admission_request invalid_admission_text select_verified resolve_model
    default_sandbox_profile default_name active_sandbox_profile find_active revision_in get
    is_base_verified current_definition_hash canonical write_fields decimal sum256 hex trim_space
    Text-discrete ℕ_discrete
complete-bounds_example = complete-bounds connections verified_db bare completed refl

bare-AsksFor : AsksFor bare wanted_row
unfolding is_valid_client_reference rune_count check_admission_key trim_space
    normalize_admission_request invalid_admission_text normalize_core_admission Text-discrete
    ℕ_discrete
bare-AsksFor = record {
  reference = refl;
  key = refl;
  normal = refl;
  same_key = refl;
  same_reference = refl;
  same_agents = refl;
  same_keep_running = refl;
  same_effort = refl;
  profile = refl;
  connection = refl;
  model = refl;
  stored = refl;
}

admit_again_example :
    admit willing connections (ok nonce) bare admitted_db admitted_db empty_db
    ≡ ok ((session_of admitted_db (session_id (txt "key")) wanted_row, false), admitted_db)
admit_again_example =
    admit_again willing connections admitted_db empty_db bare wanted_row nonce
      (admitted-IsAdmitted willing empty_db wanted (txt "1") (txt "t2") nonce wanted-IsFresh
        nonce-digest)
      bare-AsksFor
