-- ===== src/Store/Recovery/Acquire.antt =====
-- A Sandbox taken for a recovery is shut to native work at once.
use dorf.Base.{ℕ, ◌≡◌, true, ◌&&◌, none, some, Text, txt, ◌++◌, arith, Option-cases, inl, inr}
use dorf.Base.Results.{ok, err, no_rows, Result-cases}
use dorf.Core.Domain.{Sandbox}
use dorf.Persistence.Recovery.{RecoveryRequest, RecoveryReceipt}
use dorf.Store.Table.{get, get-put_self, any_row-get}
use dorf.Store.Db.{SessionRow, HoldRow, Db, Absurd}
use dorf.Store.Holds.{owner_is, is_held, session_held, with_delivery_hold}
use dorf.Store.Sandboxes.{reserve_sandbox_resource}
use dorf.Store.Wakes.{signal_session_execution_wake}
use dorf.Store.Wakes.Causes.{signal-frame}
use dorf.Store.Native.{begin_native_mutation}
use dorf.Store.Recovery.{
  find_recovery, authorize_recovery_request, insert_checkpoint_recovery, insert_recovery_request,
  validate_recovery, begin_recovery, recovery_body, request_checkpoint_recovery,
}

abbrev recovery_hold : Text → ℕ → HoldRow
recovery_hold sandbox now = record {
  sandbox_id = sandbox;
  reason = txt "checkpoint_recovery";
  requested_at = now;
  released_at = none;
}

authorize-reads :
    (r : RecoveryRequest) (db db1 : Db) (owned : Sandbox)
    → authorize_recovery_request r db ≡ ok (owned, db1)
    → db1 ≡ db
unfolding authorize_recovery_request
authorize-reads r db db1 owned h = ground (arith, h)

insert-holds :
    (r : RecoveryRequest) (source nonce : Text) (db db1 : Db)
    → insert_recovery_request r source nonce db ≡ ok (tt, db1)
    → (get r.id db1.holds ≡ some (recovery_hold r.sandbox_id db.clock))
      × (db1.sandboxes ≡ db.sandboxes)
unfolding insert_recovery_request reserve_sandbox_resource insert_checkpoint_recovery
insert-holds r source nonce db db1 h =
    ground (arith, h, get-put_self r.id (recovery_hold r.sandbox_id db.clock) db.holds)

module _ (service : Absurd) (r : RecoveryRequest) (nonce : Text) where
  begin-holds :
      (row : SessionRow) (db db' : Db) (receipt : RecoveryReceipt)
      → begin_recovery service r nonce row db ≡ ok (receipt, db')
      → (get r.id db'.holds ≡ some (recovery_hold r.sandbox_id db.clock))
        × (db'.sandboxes ≡ db.sandboxes)
  unfolding begin_recovery
  begin-holds row db db' receipt k = elim (Result-cases (authorize_recovery_request r db)) [
    | inr (x, a) ↦ absurd (ground (arith, k, a))
    | inl ((owned, db0), a) ↦
        let same = authorize-reads r db db0 owned a in
        elim (Result-cases (insert_recovery_request r owned.resource_id nonce db)) [
          | inr (x, b) ↦ absurd (ground (arith, k, a, same, b))
          | inl ((_, db1), b) ↦
              let held = insert-holds r owned.resource_id nonce db db1 b in
              elim (Result-cases (
                signal_session_execution_wake service r.session_id (txt "recovery:" ++ r.id) db1)) [
                  | inr (x, c) ↦ absurd (ground (arith, k, a, same, b, c))
                  | inl ((n, db2), c) ↦ ground (
                    arith,
                    k,
                    a,
                    same,
                    b,
                    c,
                    held,
                    signal-frame service r.session_id (txt "recovery:" ++ r.id) db1 db2 n c,
                  )
                ]
        ]
  ]

  recovery-held :
      (db db' : Db) (receipt : RecoveryReceipt)
      → find_recovery db r.id ≡ none
      → request_checkpoint_recovery service r nonce db ≡ ok (receipt, db')
      → session_held db' r.session_id ≡ true
  unfolding request_checkpoint_recovery validate_recovery with_delivery_hold recovery_body
      session_held
  recovery-held db db' receipt e k = elim (Option-cases (get r.session_id db.sessions)) [
    | inl m ↦ ground (arith, m)
    | inr (row, m) ↦ elim (Option-cases (get r.sandbox_id db.sandboxes)) [
      | inl q ↦ ground (arith, m, q)
      | inr (s, q) ↦
          let held =
            any_row-get (λ _ h. owner_is db'.sandboxes r.session_id h.sandbox_id && is_held h) r.id
              db'.holds {v = recovery_hold r.sandbox_id db.clock} in
          ground (arith, e, m, q, begin-holds row db db' receipt, held)
    ]
  ]

  -- An accepted request for a new recovery shuts out native work in the same transaction: no native
  -- mutation of the Session begins while its hold is in force.
  pub recovery-excludes :
      (db db' : Db) (receipt : RecoveryReceipt)
      → find_recovery db r.id ≡ none
      → request_checkpoint_recovery service r nonce db ≡ ok (receipt, db')
      → (thread input turn : Text)
      → begin_native_mutation r.session_id thread input turn db' ≡ err no_rows
  unfolding begin_native_mutation
  recovery-excludes db db' receipt e k thread input turn =
      ground (arith, recovery-held db db' receipt e k)
