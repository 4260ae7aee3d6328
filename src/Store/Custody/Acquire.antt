-- ===== src/Store/Custody/Acquire.antt =====
-- A Sandbox taken for an upgrade is shut to native work at once.
use dorf.Base.{ℕ, ◌≡◌, true, ◌&&◌, none, some, Text, txt, arith, Option-cases, inl, inr}
use dorf.Base.Results.{ok, err, no_rows, Result-cases}
use dorf.Upgrade.Receipt.{Request, Receipt}
use dorf.Store.Table.{get, put, get-put_self, any_row-get}
use dorf.Store.Db.{SessionRow, HoldRow, Db, Absurd}
use dorf.Store.Holds.{
  owner_is, is_held, session_held, insert_sandbox_delivery_hold, with_delivery_hold,
}
use dorf.Store.Sandboxes.{find_sandbox}
use dorf.Store.Wakes.{signal_session_execution_wake}
use dorf.Store.Wakes.Causes.{signal-frame}
use dorf.Store.Upgrades.{find_upgrade}
use dorf.Store.Native.{begin_native_mutation}
use dorf.Store.Custody.{
  new_upgrade, insert_sandbox_upgrade, requested_cause, begin_upgrade, upgrade_body,
  request_sandbox_upgrade,
}

abbrev new_hold : Text → ℕ → HoldRow
new_hold sandbox now = record {
  sandbox_id = sandbox;
  reason = txt "workspace_upgrade";
  requested_at = now;
  released_at = none;
}

module _ (service : Absurd) (r : Request) where
  begin_upgrade-lem :
      (row : SessionRow) (db db' : Db) (receipt : Receipt)
      → begin_upgrade service r row db ≡ ok (receipt, db')
      → (get r.id db'.holds ≡ some (new_hold r.sandbox_id db.clock))
        × (db'.sandboxes ≡ db.sandboxes)
        × (find_upgrade db' r.id ≡ some receipt)
  unfolding begin_upgrade insert_sandbox_delivery_hold insert_sandbox_upgrade
  begin_upgrade-lem row db db' receipt k = elim (Option-cases (find_sandbox db r.sandbox_id)) [
    | inl e ↦ ground (arith, e)
    | inr (owned, e) ↦
        let db1 : Db = record db {
          holds = put r.id (new_hold r.sandbox_id db.clock) db.holds;
          upgrades = put r.id (new_upgrade r owned.resource_id db.clock) db.upgrades;
        } in
        elim (Result-cases
          (signal_session_execution_wake service r.session_id (requested_cause service r) db1)) [
            | inl ((n, db2), q) ↦ ground (
              arith,
              e,
              q,
              get-put_self r.id (new_hold r.sandbox_id db.clock) db.holds,
              signal-frame service r.session_id (requested_cause service r) db1 db2 n q,
            )
            | inr (x, q) ↦ ground (arith, e, q)
          ]
  ]

  request-held :
      (db db' : Db) (receipt : Receipt)
      → find_upgrade db r.id ≡ none
      → request_sandbox_upgrade service r db ≡ ok (receipt, db')
      → session_held db' r.session_id ≡ true
  unfolding request_sandbox_upgrade with_delivery_hold upgrade_body session_held
  request-held db db' receipt e k = elim (Option-cases (get r.session_id db.sessions)) [
    | inl m ↦ ground (arith, m)
    | inr (row, m) ↦ elim (Option-cases (get r.sandbox_id db.sandboxes)) [
      | inl q ↦ ground (arith, m, q)
      | inr (s, q) ↦
          let held =
            any_row-get (λ _ h. owner_is db'.sandboxes r.session_id h.sandbox_id && is_held h) r.id
              db'.holds {v = new_hold r.sandbox_id db.clock} in
          ground (arith, e, m, q, begin_upgrade-lem row db db' receipt, held)
    ]
  ]

  -- An accepted request for a new upgrade shuts out native work in the same transaction: no native
  -- mutation of the Session begins while its hold is in force.
  pub request-excludes :
      (db db' : Db) (receipt : Receipt)
      → find_upgrade db r.id ≡ none
      → request_sandbox_upgrade service r db ≡ ok (receipt, db')
      → (thread input turn : Text)
      → begin_native_mutation r.session_id thread input turn db' ≡ err no_rows
  unfolding begin_native_mutation
  request-excludes db db' receipt e k thread input turn =
      ground (arith, request-held db db' receipt e k)
