-- ===== src/Store/Recovery/Replay.antt =====
-- A recovery is requested once.
use dorf.Base.{
  ◌≡◌, ◌≢◌, refl, ◌⊎◌, inl, inr, true, false, some, Text, ==_iff, Bool-cases, arith, subst, sym,
}
use dorf.Base.Results.{ok, err, message}
use dorf.Persistence.Recovery.{RecoveryRequest, RecoveryReceipt, are_exact_identities}
use dorf.Store.Table.{get}
use dorf.Store.Db.{SandboxRow, SessionRow, Db, Absurd}
use dorf.Store.Holds.{with_delivery_hold}
use dorf.Store.Recovery.{
  find_recovery, same_recovery, validate_recovery, recovery_body, request_checkpoint_recovery,
}

same_recovery_refl : (r : RecoveryRequest) → same_recovery r r ≡ true
same_recovery_refl r = ground (
  arith,
  (==_iff r.id r.id).1 refl,
  (==_iff r.session_id r.session_id).1 refl,
  (==_iff r.sandbox_id r.sandbox_id).1 refl,
  (==_iff r.repository r.repository).1 refl,
  (==_iff r.snapshot_id r.snapshot_id).1 refl,
)

same_recovery-equal : (a b : RecoveryRequest) → same_recovery a b ≡ true → a ≡ b
same_recovery-equal a b h = ground (
  arith,
  h,
  ==_iff a.id b.id,
  ==_iff a.session_id b.session_id,
  ==_iff a.sandbox_id b.sandbox_id,
  ==_iff a.repository b.repository,
  ==_iff a.snapshot_id b.snapshot_id,
)

module _ (service : Absurd) (r : RecoveryRequest) (nonce : Text) (db : Db) where
  found-replays :
      (found : RecoveryReceipt) (row : SessionRow) (s : SandboxRow)
      → validate_recovery r db ≡ ok (tt, db)
      → get r.session_id db.sessions ≡ some row
      → get r.sandbox_id db.sandboxes ≡ some s
      → s.session_id ≡ r.session_id
      → find_recovery db r.id ≡ some found
      → request_checkpoint_recovery service r nonce db ≡ (elim (same_recovery found.request r) [
        | true ↦ ok (found, db)
        | false ↦ err (message "recovery identity already has different input")
      ])
  unfolding request_checkpoint_recovery validate_recovery are_exact_identities with_delivery_hold
      recovery_body
  found-replays found row s valid es eb owner e =
      ground (arith, valid, es, eb, (==_iff s.session_id r.session_id).1 owner, e)

  -- A well-formed request under the identity of a recovery that exists, for a Sandbox of the Session,
  -- changes nothing, whatever the new nonce: if it is the same request, it returns the receipt, and
  -- otherwise it is refused.
  pub request-replays :
      (found : RecoveryReceipt) (row : SessionRow) (s : SandboxRow)
      → validate_recovery r db ≡ ok (tt, db)
      → get r.session_id db.sessions ≡ some row
      → get r.sandbox_id db.sandboxes ≡ some s
      → s.session_id ≡ r.session_id
      → find_recovery db r.id ≡ some found
      → ((found.request ≡ r) × (request_checkpoint_recovery service r nonce db ≡ ok (found, db)))
        ⊎ ((found.request ≢ r)
            × (request_checkpoint_recovery service r nonce db
                ≡ err (message "recovery identity already has different input")))
  request-replays found row s valid es eb owner e =
      let outcome = found-replays found row s valid es eb owner e in
      elim (Bool-cases (same_recovery found.request r)) [
        | inl same ↦ inl (same_recovery-equal found.request r same, rw (outcome, same))
        | inr other ↦ inr (
          (λ q. absurd (
              ground (
                arith,
                other,
                subst (λ x. same_recovery x r ≡ true) (sym q) (same_recovery_refl r),
              ))),
          rw (outcome, other),
        )
      ]
