-- ===== src/Upgrade/Service/Guards.antt =====
-- When a reconciliation may act.
use dorf.Base.{
  ◌≡◌, ◌⊎◌, true, false, not, ◌||◌, ◌==◌, Option, some, Text, arith, Bool-cases, inl, inr,
  Option-cases,
}
use dorf.Base.Results.{Error, ok, err, no_rows, not_found, message}
use dorf.Core.Domain.{Session, Sandbox, pending, is_pending}
use dorf.Store.Native.{is_settled}
use dorf.Upgrade.Receipt.{Receipt}
use dorf.Upgrade.Driver.{Driver}
use dorf.Effects.{World, ◌>>=◌, ◌>>◌, look_up, refuse_if, branch, transact, pure}
use dorf.Store.Table.{get, any_row}
use dorf.Store.Db.{Db, Absurd}
use dorf.Store.Sandboxes.{find_session, find_sandbox}
use dorf.Store.Holds.{session_delivery_holds}
use dorf.Store.Upgrades.{upgrade_quiescent}
use dorf.Store.Upgrades.Listing.{session_upgrades}
use dorf.Upgrade.Service.{
  first_unfinished, foreign_task, is_hold_of, authorize, reconcile_receipt, reconcile,
}

-- The Sandbox still serves from the resource that the upgrade started on.
abbrev pub IsBound : World → Receipt → Type 0
IsBound w r =
    (owned : Sandbox) × (find_sandbox w.db r.sandbox_id ≡ some owned)
    × (owned.session_id ≡ r.session_id)
    × (owned.resource_id ≡ r.source_resource_id)

-- What has to hold in the database for the service to work on a receipt.
pub record IsReady (w : World) (task : Option Text) (row : Session) (r : Receipt) : Type 0 where
  pub admitted : row.admission_open ≡ true
  pub running : row.cleanup_state ≡ pending
  pub owner : foreign_task task row ≡ false
  pub bound : IsBound w r
  pub held : any_row (is_hold_of r) (session_delivery_holds w.db r.session_id) ≡ true
  pub quiet : upgrade_quiescent r.sandbox_id w.db ≡ ok (true, w.db)

authorize-IsBound :
    (r : Receipt) (w : World)
    → ((x : Error) × (authorize r w ≡ (err x, w)))
      ⊎ ((authorize r w ≡ (ok tt, w))
          × IsBound w r
          × (any_row (is_hold_of r) (session_delivery_holds w.db r.session_id) ≡ true))
unfolding authorize look_up refuse_if ◌>>=◌ ◌>>◌
authorize-IsBound r w = elim (Option-cases (find_sandbox w.db r.sandbox_id)) [
  | inl e ↦ inl (not_found, ground (arith, e))
  | inr (owned, e) ↦
      elim (Bool-cases (
        not (owned.session_id == r.session_id)
        || not (owned.resource_id == r.source_resource_id))) [
          | inl g ↦ inl (message "upgrade source binding was superseded", ground (arith, e, g))
          | inr g ↦
              elim (Bool-cases
                (any_row (is_hold_of r) (session_delivery_holds w.db r.session_id))) [
                  | inr h ↦
                      inl (message "upgrade lost its exact delivery hold", ground (arith, e, g, h))
                  | inl h ↦
                      inr (
                        ground (arith, e, g, h),
                        (owned, e, ground (arith, g), ground (arith, g)),
                        h,
                      )
                ]
        ]
]

quiescent-cases :
    (sandbox : Text) (db : Db)
    → (upgrade_quiescent sandbox db ≡ ok (true, db))
      ⊎ (upgrade_quiescent sandbox db ≡ ok (false, db))
      ⊎ ((x : Error) × (upgrade_quiescent sandbox db ≡ err x))
unfolding upgrade_quiescent
quiescent-cases sandbox db = elim (Option-cases (get sandbox db.sandboxes)) [
  | inl e ↦ inr (inr (no_rows, ground (arith, e)))
  | inr (s, e) ↦ elim (Option-cases (get s.session_id db.sessions)) [
    | inl f ↦ inr (inr (no_rows, ground (arith, e, f)))
    | inr (row, f) ↦ elim (Bool-cases (is_settled row)) [
      | inl q ↦ inl (ground (arith, e, f, q))
      | inr q ↦ inr (inl (ground (arith, e, f, q)))
    ]
  ]
]

module _ (service : Absurd) (driver : Driver) (nonce session : Text) (task : Option Text) where
  -- A reconciliation does nothing at all, neither in the database nor outside, unless the Session is
  -- open and runs the caller's task, and the receipt that it works on, the first unfinished one, is
  -- bound to its source, with its own hold in force and no native mutation pending.
  pub reconcile-IsReady :
      (w : World) (row : Session) (r : Receipt)
      → find_session w.db session ≡ some row
      → first_unfinished (session_upgrades w.db session) ≡ some r
      → ((reconcile service driver nonce task session w).1 ≡ w) ⊎ IsReady w task row r
  unfolding reconcile reconcile_receipt look_up refuse_if branch transact pure ◌>>=◌ ◌>>◌
  reconcile-IsReady w row r e f = elim (Bool-cases (foreign_task task row)) [
    | inl g ↦ inl (ground (arith, e, f, g))
    | inr mine ↦ elim (Bool-cases (not row.admission_open || not (is_pending row.cleanup_state))) [
      | inl g ↦ inl (ground (arith, e, f, g))
      | inr admitting ↦ elim (authorize-IsBound r w) [
        | inl (x, g) ↦ inl (ground (arith, e, f, g, mine, admitting))
        | inr (a, bound, held) ↦ elim (quiescent-cases r.sandbox_id w.db) [
          | inl g ↦ inr (record {
            admitted = ground (arith, admitting);
            running = ground (arith, admitting);
            owner = mine;
            bound = bound;
            held = held;
            quiet = g;
          })
          | inr (inl g) ↦ inl (ground (arith, e, f, g, mine, admitting, a))
          | inr (inr (x, g)) ↦ inl (ground (arith, e, f, g, mine, admitting, a))
        ]
      ]
    ]
  ]
