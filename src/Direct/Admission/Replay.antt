-- ===== src/Direct/Admission/Replay.antt =====
-- A client that asks again may leave out what was chosen for it.
use dorf.Base.{◌≡◌, refl, true, false, Text, ==_iff, arith}
use dorf.Base.Results.{ok}
use dorf.Core.Domain.{session_id}
use dorf.Core.Admission.{SessionAdmission, is_valid_client_reference}
use dorf.Store.Sandboxes.{find_session, session_of}
use dorf.Store.Db.{SessionRow, Db, Absurd}
use dorf.Store.Admission.{same_admission, normalize_core_admission, admit_direct}
use dorf.Store.Admission.Replay.{IsAdmitted, admit-IsAdmitted}
use dorf.Direct.Admission.{
  AdmissionRequest, AdmissionProvider, check_admission_key, normalize_admission_request, normalized,
  contradicts, or_stored, complete_replay, replay, admit,
}

-- A request with what it leaves out taken from the stored Session.
abbrev pub filled_in : AdmissionRequest → SessionRow → SessionAdmission
filled_in r row = record {
  keep_running = r.keep_running;
  created_by_client_id = r.created_by_client_id;
  client_reference = r.client_reference;
  admission_key = r.admission_key;
  agents_md = r.agents_md;
  sandbox_profile = row.sandbox_profile;
  provider_connection = row.provider_connection;
  model = row.model;
  reasoning_effort = row.reasoning_effort;
}

-- The request is well-formed, and asks for the stored Session wherever it says something.
pub record AsksFor (r : AdmissionRequest) (row : SessionRow) : Type 0 where
  pub reference : is_valid_client_reference r.client_reference ≡ true
  pub key : check_admission_key r.admission_key ≡ ok r.admission_key
  pub normal : normalize_admission_request r ≡ ok (normalized r)
  pub same_key : row.admission_key ≡ r.admission_key
  pub same_reference : row.client_reference ≡ r.client_reference
  pub same_agents : row.agents_md ≡ r.agents_md
  pub same_keep_running : row.keep_running ≡ r.keep_running
  pub same_effort : row.reasoning_effort ≡ (normalized r).reasoning_effort
  pub profile : contradicts (normalized r).sandbox_profile row.sandbox_profile ≡ false
  pub connection : contradicts (normalized r).provider_connection row.provider_connection ≡ false
  pub model : or_stored (normalized r).model row.model ≡ row.model
  pub stored : normalize_core_admission (filled_in r row) ≡ ok (filled_in r row)

module _ (service : Absurd) (provider : AdmissionProvider) (db later : Db) (r : AdmissionRequest)
    (row : SessionRow) (nonce : Text)
    (i : IsAdmitted db r.admission_key (session_id r.admission_key) row)
    (asks : AsksFor r row) where
  completes : complete_replay db r ≡ ok (filled_in r row)
  unfolding complete_replay find_session
  completes =
      ground
        (arith, i.stored, asks.normal, asks.profile, asks.connection, asks.model, asks.same_effort)

  same : same_admission row (filled_in r row) ≡ true
  same = ground (
    arith,
    asks.same_key,
    asks.same_reference,
    asks.same_agents,
    asks.same_keep_running,
    ==_iff row.admission_key r.admission_key,
    ==_iff row.client_reference r.client_reference,
    ==_iff row.agents_md r.agents_md,
    ==_iff row.sandbox_profile row.sandbox_profile,
    ==_iff row.provider_connection row.provider_connection,
    ==_iff row.model row.model,
    ==_iff row.reasoning_effort row.reasoning_effort,
  )

  -- A well-formed request under the key of an admitted Session that says nothing else than the
  -- Session, and may leave out the profile, the connection and the model, returns the Session and
  -- changes nothing, whatever the AI connections answer.
  pub admit_again :
      admit service provider (ok nonce) r db db later
      ≡ ok ((session_of db (session_id r.admission_key) row, false), db)
  unfolding admit replay admit_direct find_session
  admit_again =
      let q =
        admit-IsAdmitted service db r.admission_key (session_id r.admission_key) row i
          (filled_in r row) nonce refl in
      ground (arith, i.stored, asks.reference, asks.key, completes, asks.stored, same, q)
