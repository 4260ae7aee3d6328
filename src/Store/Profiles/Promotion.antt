-- ===== src/Store/Profiles/Promotion.antt =====
-- When a revision of a profile is admitted: after its probe and its cleanup, until it is found
-- unavailable or its verification fails.
use dorf.Base.{
  ℕ, ◌≡◌, refl, sym, subst, ◌≢◌, ◌⊎◌, inl, inr, true, Option, none, some, [], Text, ◌==◌, ==_iff,
  ==-false, is_some, arith,
}
use dorf.Base.Results.{ok}
use dorf.Std.Strings.{trim_space}
use dorf.Core.Profiles.{
  Definition, ProfileVerification, base_profile_contract, current_definition_hash,
}
use dorf.Store.Table.{get, put, update, remove, get-put_self, get-remove_self}
use dorf.Store.Db.{ProfileRow, VerificationRow, Db, or_now, null_if_empty}
use dorf.Store.Profiles.{
  revision_key, verification_of, revision_in, find_candidate, begin_sandbox_profile_verification,
  verification_sandbox_id, record_sandbox_profile_probe, cleaned, promote,
  record_sandbox_profile_verification_cleanup, lock_admission_profile_revision,
}

abbrev pub IsOver : Option VerificationRow → Type 0
IsOver o =
    (o ≡ none)
    ⊎ ((v : VerificationRow) × (o ≡ some v)
        × (is_some v.probe_completed_at ≡ true)
        × (is_some v.cleaned_at ≡ true))

abbrev row_key : VerificationRow → Text
row_key v = revision_key v.profile_name v.definition_hash

abbrev probed : Db → Text → VerificationRow → VerificationRow
probed db version v = record v {
  harness_version = null_if_empty (trim_space version);
  probe_completed_at = or_now v.probe_completed_at db.clock;
  last_error = none;
}

abbrev with_row : VerificationRow → Db → Db
with_row v db = record db { profile_verifications = put (row_key v) v db.profile_verifications }

record_probe :
    (v : VerificationRow) (version : Text) (db : Db)
    → get (row_key v) db.profile_verifications ≡ some v
    → v.cleaned_at ≡ none
    → trim_space version ≢ []
    → record_sandbox_profile_probe (verification_of v) version db
      ≡ ok (tt, with_row (probed db version v) db)
unfolding record_sandbox_profile_probe update
record_probe v version db there open_yet observed = ground (
  arith,
  ==-false (trim_space version) [] observed,
  ==_iff v.contract_version v.contract_version,
  ==_iff v.sandbox_id v.sandbox_id,
  ==_iff v.ownership_nonce v.ownership_nonce,
)

abbrev promoted : VerificationRow → ProfileRow → Db → Db
promoted v p db = record (with_row v db) {
  profiles = put v.profile_name (record p { active_revision = some v.definition_hash }) db.profiles;
}

-- The attempt was read before its row was probed.
record_cleanup :
    (v : VerificationRow) (before : Db) (version : Text) (p : ProfileRow) (db : Db)
    → get (row_key v) db.profile_verifications ≡ some (probed before version v)
    → get v.profile_name db.profiles ≡ some p
    → p.candidate_revision ≡ v.definition_hash
    → (v.contract_version == base_profile_contract) ≡ true
    → v.cleaned_at ≡ none
    → record_sandbox_profile_verification_cleanup (verification_of v) db
      ≡ ok (tt, promoted (cleaned db.clock (probed before version v)) p db)
unfolding record_sandbox_profile_verification_cleanup promote update
record_cleanup v before version p db there named staged contract open_yet = ground (
  arith,
  ==_iff v.contract_version v.contract_version,
  ==_iff v.sandbox_id v.sandbox_id,
  ==_iff v.ownership_nonce v.ownership_nonce,
  ==_iff p.candidate_revision v.definition_hash,
  get-put_self (row_key v) (cleaned db.clock (probed before version v)) db.profile_verifications,
)

is_some-or_now : (o : Option ℕ) (now : ℕ) → is_some (or_now o now) ≡ true
is_some-or_now none now = refl
is_some-or_now (some t) now = refl

admits_promoted :
    (w : VerificationRow) (p : ProfileRow) (db : Db)
    → (w.contract_version == base_profile_contract) ≡ true
    → is_some w.probe_completed_at ≡ true
    → w.cleaned_at ≡ none
    → lock_admission_profile_revision w.profile_name (promoted (cleaned db.clock w) p db)
      ≡ ok (w.definition_hash, promoted (cleaned db.clock w) p db)
unfolding lock_admission_profile_revision
admits_promoted w p db contract done open_yet = ground (
  arith,
  get-put_self (row_key w) (cleaned db.clock w) db.profile_verifications,
  get-put_self w.profile_name (record p { active_revision = some w.definition_hash }) db.profiles,
)

module _ (name nonce : Text) (db : Db) (p : ProfileRow) (d : Definition)
    (trimmed : trim_space name ≡ name) (there : get name db.profiles ≡ some p)
    (defined : get (revision_key name p.candidate_revision) db.profile_revisions ≡ some d)
    (hashed : current_definition_hash d ≡ p.candidate_revision)
    (over : IsOver (get (revision_key name p.candidate_revision) db.profile_verifications)) where
  abbrev Begun : Type 0
  Begun =
      (v : VerificationRow) × (db' : Db) × (begin_sandbox_profile_verification name nonce db
        ≡ ok (verification_of v, db'))
      × (get (revision_key name p.candidate_revision) db'.profile_verifications ≡ some v)
      × (db'.profiles ≡ db.profiles)
      × (v.profile_name ≡ name)
      × (v.definition_hash ≡ p.candidate_revision)
      × ((v.contract_version == base_profile_contract) ≡ true)
      × (v.cleaned_at ≡ none)

  abbrev first : VerificationRow
  first = record {
    profile_name = name;
    definition_hash = p.candidate_revision;
    contract_version = base_profile_contract;
    sandbox_id = verification_sandbox_id name p.candidate_revision;
    ownership_nonce = nonce;
    harness_version = none;
    attempted_at = db.clock;
    probe_completed_at = none;
    cleaned_at = none;
    last_error = none;
  }

  abbrev key : Text
  key = revision_key name p.candidate_revision

  pub begin_lem : Begun
  unfolding begin_sandbox_profile_verification find_candidate revision_in
  begin_lem = elim over [
    | inl absent ↦ (
      first,
      record db { profile_verifications = put key first db.profile_verifications },
      rw trimmed (ground (arith, ==_iff p.candidate_revision (current_definition_hash d))),
      get-put_self key first db.profile_verifications,
      refl,
      refl,
      refl,
      (==_iff _ base_profile_contract).1 refl,
      refl,
    )
    | inr (v, old, probed, done) ↦ (
      first,
      record db { profile_verifications = put key first (remove key db.profile_verifications) },
      rw trimmed (
          ground (
            arith,
            ==_iff p.candidate_revision (current_definition_hash d),
            get-remove_self key db.profile_verifications,
          )),
      get-put_self key first (remove key db.profile_verifications),
      refl,
      refl,
      refl,
      (==_iff _ base_profile_contract).1 refl,
      refl,
    )
  ]

  -- A candidate whose definition fits its hash and has no verification under way becomes the
  -- admitted revision: beginning its verification, recording a probe with a version, and recording
  -- the cleanup each succeed, and admission then takes that revision.
  pub verification-admits :
      (version : Text)
      → trim_space version ≢ []
      → (a : ProfileVerification) × (db1 : Db) × (db2 : Db) × (db3 : Db)
        × (begin_sandbox_profile_verification name nonce db ≡ ok (a, db1))
        × (record_sandbox_profile_probe a version db1 ≡ ok (tt, db2))
        × (record_sandbox_profile_verification_cleanup a db2 ≡ ok (tt, db3))
        × (lock_admission_profile_revision name db3 ≡ ok (p.candidate_revision, db3))
  verification-admits version observed =
      let (v, db1, started, there1, same, n, h, contract, open_yet) = begin_lem in
      let v2 : VerificationRow = probed db1 version v in
      let db2 : Db = with_row v2 db1 in
      let db3 : Db = promoted (cleaned db2.clock v2) p db2 in
      (
        verification_of v,
        db1,
        db2,
        db3,
        started,
        record_probe v version db1 (rw (n, h) there1) open_yet observed,
        record_cleanup v db1 version p db2 (get-put_self (row_key v) v2 db1.profile_verifications)
            (rw (n, same) there) (sym h) contract open_yet,
        subst (λ n. lock_admission_profile_revision n db3 ≡ ok (p.candidate_revision, db3)) n
            (subst (λ h. lock_admission_profile_revision v.profile_name db3 ≡ ok (h, db3)) h
              (admits_promoted v2 p db2 contract (is_some-or_now v.probe_completed_at db1.clock)
                open_yet)),
      )
