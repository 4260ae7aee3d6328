-- ===== src/Store/Custody/Release.antt =====
-- A Sandbox is taken for an upgrade with its native work shut out, and given back only once its
-- recovery is verified.
use dorf.Base.{
  ◌≡◌, ◌≢◌, ◌⊎◌, inl, inr, true, false, none, some, [], ◌∷◌, Text, is_some, arith, Bool-cases,
}
use dorf.Base.Results.{ok, Result-cases}
use dorf.Upgrade.Receipt.{Receipt}
use dorf.Store.Table.{Table, get, put, get-put_self, update, any_row, Rows}
use dorf.Store.Db.{ResourceRow, HoldRow, SandboxRow, UpgradeRow, Db, Absurd, or_now}
use dorf.Store.Holds.{owner_is}
use dorf.Store.Wakes.{signal_session_execution_wake}
use dorf.Store.Wakes.Causes.{signal-frame}
use dorf.Store.Upgrades.{find_upgrade, upgrade_quiescent, record_upgrade_finished}
use dorf.Store.Custody.{
  target_of, blocks_release, authorize_upgrade_release, switch_and_release, finish_sandbox_upgrade,
  upgrade_resources_releasable, finished_cause,
}

module _ (service : Absurd) where
  -- What the release transaction leaves in the three rows that it changes.
  switch-rows :
      (r : Receipt) (db db' : Db) (s : SandboxRow) (h : HoldRow) (u : UpgradeRow)
      → get r.sandbox_id db.sandboxes ≡ some s
      → get r.id db.holds ≡ some h
      → get r.id db.upgrades ≡ some u
      → switch_and_release service r db ≡ ok (tt, db')
      → (get r.sandbox_id db'.sandboxes ≡ some (record s { active_resource_id = target_of r }))
        × (get r.id db'.holds ≡ some (record h { released_at = or_now h.released_at db.clock }))
        × (get r.id db'.upgrades ≡ some (record u { finished_at = or_now u.finished_at db.clock }))
        × (s.active_resource_id ≡ r.source_resource_id)
  unfolding switch_and_release update record_upgrade_finished
  switch-rows r db db' s h u es eh eu k =
      let s' : SandboxRow = record s { active_resource_id = target_of r } in
      let h' : HoldRow = record h { released_at = or_now h.released_at db.clock } in
      let u' : UpgradeRow = record u { finished_at = or_now u.finished_at db.clock } in
      let db1 : Db = record db {
        sandboxes = put r.sandbox_id s' db.sandboxes;
        holds = put r.id h' db.holds;
        upgrades = put r.id u' db.upgrades;
      } in
      elim (Result-cases
        (signal_session_execution_wake service r.session_id (finished_cause service r) db1)) [
          | inl ((n, db2), e) ↦ ground (
            arith,
            es,
            eh,
            eu,
            e,
            get-put_self r.sandbox_id s' db.sandboxes,
            get-put_self r.id h' db.holds,
            get-put_self r.id u' db.upgrades,
            signal-frame service r.session_id (finished_cause service r) db1 db2 n e,
          )
          | inr (x, e) ↦ ground (arith, es, eh, eu, e)
        ]

-- A resource that lets the Sandbox go: the destination is bound and alive, and a source that was
-- replaced is deleted.
pub record IsReleasable (r : Receipt) (id : Text) (v : ResourceRow) : Type 0 where
  pub live : (id ≢ target_of r) ⊎ ((is_some v.provider_id ≡ true) × (v.deleted_at ≡ none))
  pub gone :
      (id ≢ r.source_resource_id)
      ⊎ (target_of r ≡ r.source_resource_id)
      ⊎ (is_some v.deleted_at ≡ true)

all-IsReleasable :
    (db : Db) (r : Receipt) (t : Table ResourceRow)
    → any_row (blocks_release db r) t ≡ false
    → Rows
        (λ id (v : ResourceRow).
          (owner_is db.sandboxes r.session_id v.sandbox_id ≡ false) ⊎ IsReleasable r id v)
        t
all-IsReleasable db r [] h = tt
all-IsReleasable db r ((k, v) ∷ t) h = (head, all-IsReleasable db r t (ground arith))
  where
    head : (owner_is db.sandboxes r.session_id v.sandbox_id ≡ false) ⊎ IsReleasable r k v
    head = elim (Bool-cases (owner_is db.sandboxes r.session_id v.sandbox_id)) [
      | inr foreign ↦ inl foreign
      | inl own ↦ inr (record { live = ground (arith, own); gone = ground (arith, own) })
    ]

authorize-lem :
    (r : Receipt) (db db' : Db) (h : HoldRow)
    → get r.id db.holds ≡ some h
    → authorize_upgrade_release r db ≡ ok (tt, db')
    → (db' ≡ db)
      × (h.released_at ≡ none)
      × (h.sandbox_id ≡ r.sandbox_id)
      × (is_some r.verified_at ≡ true)
      × (upgrade_quiescent r.sandbox_id db ≡ ok (true, db))
      × (any_row (blocks_release db r) db.resources ≡ false)
unfolding authorize_upgrade_release upgrade_resources_releasable upgrade_quiescent
authorize-lem r db db' h e k = ground (arith, e)

module _ (service : Absurd) (expected r : Receipt) (db db' : Db) (s : SandboxRow) (h : HoldRow)
    (u : UpgradeRow) where
  -- An upgrade that finishes was verified, under a hold that was in force and with no native mutation
  -- pending, and its resources were settled: the one that serves from now on is bound and alive, one
  -- that it replaced is deleted. In the same transaction the Sandbox switches to its destination, the
  -- hold is released and the receipt finished.
  pub finish_sound :
      find_upgrade db expected.id ≡ some r
      → get r.sandbox_id db.sandboxes ≡ some s
      → get r.id db.holds ≡ some h
      → get r.id db.upgrades ≡ some u
      → r.finished_at ≡ none
      → finish_sandbox_upgrade service expected db ≡ ok (tt, db')
      → (is_some r.verified_at ≡ true)
        × (h.released_at ≡ none)
        × (upgrade_quiescent r.sandbox_id db ≡ ok (true, db))
        × Rows
            (λ id (v : ResourceRow).
              (owner_is db.sandboxes r.session_id v.sandbox_id ≡ false) ⊎ IsReleasable r id v)
            db.resources
        × (get r.sandbox_id db'.sandboxes ≡ some (record s { active_resource_id = target_of r }))
        × (get r.id db'.holds ≡ some (record h { released_at = some db.clock }))
        × (get r.id db'.upgrades ≡ some (record u { finished_at = or_now u.finished_at db.clock }))
  unfolding finish_sandbox_upgrade
  finish_sound er es eh eu open_receipt k = elim (Result-cases (authorize_upgrade_release r db)) [
    | inr (x, e) ↦ absurd (ground (arith, er, e))
    | inl ((_, db1), e) ↦
        let facts = authorize-lem r db db1 h eh e in
        let rows = switch-rows service r db db' s h u es eh eu in
        (
          facts.3,
          facts.1,
          facts.4,
          all-IsReleasable db r db.resources facts.5,
          ground (arith, er, e, facts, rows),
          ground (arith, er, e, facts, rows),
          ground (arith, er, e, facts, rows),
        )
  ]
