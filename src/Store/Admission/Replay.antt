-- ===== src/Store/Admission/Replay.antt =====
-- A Session is admitted once under its key: asked again, by any client and in any state of its task,
-- the same admission meets the same Session, and another one is refused.
use dorf.Base.{
  ◌≡◌, ◌↔◌, ℕ, inl, inr, true, false, not, ◌||◌, none, some, [], ◌∷◌, Text, ◌==◌, ==_iff, is_some,
  if◌then◌else◌, arith, Bool-cases,
}
use dorf.Base.Results.{ok, err, admission_conflict}
use dorf.Core.Domain.{main_sandbox_name}
use dorf.Core.Admission.{SessionAdmission}
use dorf.Store.Table.{Table, get, put}
use dorf.Store.Tasks.{latest_task, task_id_of, schedule_session_task}
use dorf.Store.Sandboxes.{find_sandbox, find_session, session_of}
use dorf.Store.Db.{SessionRow, Db, Absurd}
use dorf.Store.Admission.{
  session_by_key, admitted_row, same_admission, is_reserved, reserve_admitted_sandbox,
  insert_or_find, settle_admission, admit_session,
}

pub session_by_key-put :
    (key id : Text) (r : SessionRow) (t : Table SessionRow)
    → get id t ≡ none
    → session_by_key key t ≡ none
    → (r.admission_key == key) ≡ true
    → session_by_key key (put id r t) ≡ some (id, r)
unfolding session_by_key get put
session_by_key-put key id r [] n m h = ground (arith)
session_by_key-put key id r ((j, w) ∷ t) n m h = elim (Bool-cases (w.admission_key == key)) [
  | inl hit ↦ absurd (ground (arith))
  | inr miss ↦ ground (arith, session_by_key-put key id r t)
]

-- Everything but the client that created it.
abbrev pub anonymous : SessionAdmission → SessionAdmission
anonymous a = record a { created_by_client_id = [] }

pub same_admission-eq :
    (a b : SessionAdmission) (revision : Text) (now : ℕ)
    → (same_admission (admitted_row a revision now) b ≡ true) ↔ (anonymous a ≡ anonymous b)
same_admission-eq a b revision now = ground (
  arith,
  ==_iff a.client_reference b.client_reference,
  ==_iff a.admission_key b.admission_key,
  ==_iff a.agents_md b.agents_md,
  ==_iff a.sandbox_profile b.sandbox_profile,
  ==_iff a.provider_connection b.provider_connection,
  ==_iff a.model b.model,
  ==_iff a.reasoning_effort b.reasoning_effort,
)

-- A Session under its key whose Sandbox is reserved and whose task is attached, or that is closed.
pub record IsAdmitted (db : Db) (key id : Text) (r : SessionRow) : Type 0 where
  pub keyed : session_by_key key db.sessions ≡ some (id, r)
  pub stored : get id db.sessions ≡ some r
  pub listed : is_some (get (main_sandbox_name id) db.sandboxes) ≡ true
  pub reserved :
      (elim (find_sandbox db (main_sandbox_name id)) [
        | none ↦ false
        | some s ↦ is_reserved id (main_sandbox_name id) s
      ])
      ≡ true
  pub attached :
      (not (task_id_of (latest_task id db.session_tasks) == []) || not r.admission_open) ≡ true

module _ (service : Absurd) (db : Db) (key id : Text) (r : SessionRow)
    (i : IsAdmitted db key id r) where
  replay_settles :
      (nonce : Text)
      → settle_admission service id (ok nonce) 0 db ≡ ok ((session_of db id r, false), db)
  unfolding settle_admission reserve_admitted_sandbox schedule_session_task find_session
  replay_settles nonce = ground (arith, i.stored, i.listed, i.reserved, i.attached)

  -- Asked again, the same admission returns the Session and changes nothing, and another one is
  -- refused.
  pub admit-IsAdmitted :
      (b : SessionAdmission) (nonce : Text)
      → b.admission_key ≡ key
      → admit_session service b (ok nonce) db ≡ (
          if same_admission r b
          then ok ((session_of db id r, false), db)
          else err admission_conflict)
  unfolding admit_session insert_or_find
  admit-IsAdmitted b nonce e = rw e (ground (arith, i.keyed, replay_settles nonce))
