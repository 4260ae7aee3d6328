-- ===== src/Store/Profiles/Fence.antt =====
-- What `RecordSandboxProfileUnavailable` does to admission.
use dorf.Base.{
  ◌≡◌, refl, ◌≢◌, inl, inr, true, some, [], ◌∷◌, Text, ◌==◌, ==_iff, is_some, take, arith,
  Bool-cases, Option-cases,
}
use dorf.Base.Results.{ok, err, message}
use dorf.Std.Strings.{trim_space}
use dorf.Core.Domain.{Attention}
use dorf.Store.Table.{get, update, get-put_self}
use dorf.Store.Db.{SessionRow, ProfileRow, Db, null_if_empty}
use dorf.Store.Attention.{attended}
use dorf.Store.Profiles.{
  revision_key, lock_admission_profile_revision, record_sandbox_profile_unavailable,
}

abbrev detail_of : Text → Text
detail_of failure = take 2048 (trim_space failure)

detail-some :
    (failure : Text) → trim_space failure ≢ [] → is_some (null_if_empty (detail_of failure)) ≡ true
detail-some failure h = go (trim_space failure) h
  where
    go : (t : Text) → t ≢ [] → is_some (null_if_empty (take 2048 t)) ≡ true
    go [] h = absurd (h refl)
    go (c ∷ cs) h = refl

module _ (session name source failure : Text) (db db' : Db) (s : SessionRow) (p : ProfileRow)
    (there : get (trim_space session) db.sessions ≡ some s)
    (listed : get (trim_space name) db.profiles ≡ some p)
    (active : p.active_revision ≡ some s.sandbox_profile_revision)
    (done : record_sandbox_profile_unavailable session name source failure db ≡ ok (tt, db')) where
  abbrev attention : Attention
  attention = record { detail = detail_of failure; source = trim_space source; at = db.clock }

  -- Where the revision that the Session pins is the active one of the profile it names, a report
  -- that succeeds leaves a state in which admission through the profile is refused, and sets the
  -- Session's attention.
  pub unavailable-fences :
      (lock_admission_profile_revision (trim_space name) db'
        ≡ err (message "Sandbox profile has not completed verification and cleanup"))
      × (get (trim_space session) db'.sessions ≡ some (attended attention s))
      × (s.sandbox_profile ≡ trim_space name)
  unfolding record_sandbox_profile_unavailable lock_admission_profile_revision update
  unavailable-fences = elim (Bool-cases (trim_space failure == [])) [
    | inl blank ↦ absurd (ground (arith))
    | inr said ↦
        elim (Option-cases (
          get (revision_key (trim_space name) s.sandbox_profile_revision)
            db.profile_verifications)) [
              | inl absent ↦ absurd (ground (arith))
              | inr (v, row) ↦ ground (
                arith,
                ==_iff (trim_space failure) [],
                detail-some failure,
                ==_iff s.sandbox_profile (trim_space name),
                get-put_self (revision_key (trim_space name) s.sandbox_profile_revision)
                    (record v { last_error = null_if_empty (detail_of failure) })
                    db.profile_verifications,
                get-put_self (trim_space session) (attended attention s) db.sessions,
              )
            ]
  ]
