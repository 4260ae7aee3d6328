-- ===== src/Store/Recovery/Abandon.antt =====
-- Cleanup gives a recovery up.
use dorf.Base.{◌≡◌, true, false, none, some, is_some, ==_iff, arith}
use dorf.Base.Results.{ok}
use dorf.Core.Domain.{is_scheduled}
use dorf.Persistence.Recovery.{RecoveryReceipt}
use dorf.Store.Table.{get, put, update}
use dorf.Store.Db.{SandboxRow, SessionRow, RecoveryRow, ResourceRow, HoldRow, Db, or_now}
use dorf.Store.Upgrades.{upgrade_quiescent}
use dorf.Store.Recovery.{can_abandon, abandon_recovery_for_cleanup}

module _ (r : RecoveryReceipt) (db db' : Db) (v : RecoveryRow) (s : SandboxRow) (j : SessionRow)
    (d : ResourceRow) (h : HoldRow) where
  -- Cleanup gives a recovery up only where the receipt is unfinished and its Sandbox still has the old
  -- resource, the replacement is deleted, and the Session is closed with its cleanup scheduled; nothing
  -- changes but that the hold is released.
  pub abandon-requires :
      get r.request.id db.recoveries ≡ some v
      → get v.sandbox_id db.sandboxes ≡ some s
      → get s.session_id db.sessions ≡ some j
      → get v.destination_resource_id db.resources ≡ some d
      → get r.request.id db.holds ≡ some h
      → abandon_recovery_for_cleanup r db ≡ ok (tt, db')
      → (v.finished_at ≡ none)
        × (s.active_resource_id ≡ v.source_resource_id)
        × (is_some d.deleted_at ≡ true)
        × (j.admission_open ≡ false)
        × (is_scheduled j.cleanup_state ≡ true)
        × (db' ≡ record db {
          holds =
              put r.request.id (record h { released_at = or_now h.released_at db.clock }) db.holds;
        })
  unfolding abandon_recovery_for_cleanup can_abandon upgrade_quiescent update
  abandon-requires ev es ej ed eh k =
      ground (arith, ev, es, ej, ed, eh, ==_iff s.active_resource_id v.source_resource_id)
