-- ===== src/Store/Recovery/Release.antt =====
-- A recovered Sandbox is given back only once its replacement is verified and the old one deleted.
use dorf.Base.{
  ◌≡◌, ℕ, Bool, inl, inr, true, false, none, some, [], Text, txt, ◌==◌, ==_iff, is_some, arith,
}
use dorf.Base.Results.{ok, Result-cases}
use dorf.Persistence.Recovery.{RecoveryReceipt}
use dorf.Core.Domain.{Session}
use dorf.Store.Table.{get, put, get-put_self, update}
use dorf.Store.Db.{HoldRow, SandboxRow, SessionRow, RecoveryRow, Db, Absurd, or_now}
use dorf.Store.Wakes.{signal_session_execution_wake}
use dorf.Store.Wakes.Causes.{signal-frame}
use dorf.Store.Sandboxes.{session_of, find_session}
use dorf.Store.Native.{is_settled}
use dorf.Store.Recovery.{
  find_recovery, recovery_native_safe, authorize_recovery_release, switch_and_release_recovery,
  record_recovery_finished, recovered_cause, finish_checkpoint_recovery,
}

module _ (service : Absurd) where
  -- What the release transaction leaves in the three rows that it changes.
  recovered-rows :
      (r : RecoveryReceipt) (db db' : Db) (s : SandboxRow) (h : HoldRow) (v : RecoveryRow)
      → get r.request.sandbox_id db.sandboxes ≡ some s
      → get r.request.id db.holds ≡ some h
      → get r.request.id db.recoveries ≡ some v
      → switch_and_release_recovery service r db ≡ ok (tt, db')
      → (get r.request.sandbox_id db'.sandboxes
          ≡ some (record s { active_resource_id = r.destination_resource_id }))
        × (get r.request.id db'.holds
            ≡ some (record h { released_at = or_now h.released_at db.clock }))
        × (get r.request.id db'.recoveries
            ≡ some (record v { finished_at = or_now v.finished_at db.clock }))
        × (s.active_resource_id ≡ r.source_resource_id)
  unfolding switch_and_release_recovery update record_recovery_finished
  recovered-rows r db db' s h v es eh ev k =
      let s' : SandboxRow = record s { active_resource_id = r.destination_resource_id } in
      let h' : HoldRow = record h { released_at = or_now h.released_at db.clock } in
      let v' : RecoveryRow = record v { finished_at = or_now v.finished_at db.clock } in
      let db1 : Db = record db {
        sandboxes = put r.request.sandbox_id s' db.sandboxes;
        holds = put r.request.id h' db.holds;
        recoveries = put r.request.id v' db.recoveries;
      } in
      elim (Result-cases (
        signal_session_execution_wake service r.request.session_id (recovered_cause service r)
          db1)) [
            | inl ((n, db2), e) ↦ ground (
              arith,
              es,
              eh,
              ev,
              e,
              get-put_self r.request.sandbox_id s' db.sandboxes,
              get-put_self r.request.id h' db.holds,
              get-put_self r.request.id v' db.recoveries,
              signal-frame service r.request.session_id (recovered_cause service r) db1 db2 n e,
            )
            | inr (x, e) ↦ ground (arith, es, eh, ev, e)
          ]

safe-reads :
    (sandbox : Text) (n : ℕ) (safe : Bool) (db db' : Db)
    → recovery_native_safe sandbox n db ≡ ok (safe, db')
    → db' ≡ db
unfolding recovery_native_safe
safe-reads sandbox n safe db db' h = ground (arith, h)

abbrev Asked : RecoveryReceipt → Session → HoldRow → Db → Type 0
Asked r session h db =
    (h.released_at ≡ none)
    × ((h.reason == txt "checkpoint_recovery") ≡ true)
    × (is_some r.verified_at ≡ true)
    × (is_some r.source_deleted_at ≡ true)
    × ((r.checkpoint.profile_name == session.sandbox_profile) ≡ true)
    × ((r.checkpoint.profile_revision == session.sandbox_profile_revision) ≡ true)
    × (recovery_native_safe r.request.sandbox_id r.checkpoint.native_revision db ≡ ok (true, db))
    × ((r.destination_provider_id == []) ≡ false)
    × (r.destination_deleted_at ≡ none)

release-asks :
    (session : Session) (r : RecoveryReceipt) (db db' : Db) (h : HoldRow)
    → get r.request.id db.holds ≡ some h
    → authorize_recovery_release session r db ≡ ok (tt, db')
    → (db' ≡ db) × Asked r session h db
unfolding authorize_recovery_release
release-asks session r db db' h e k =
    elim (Result-cases
      (recovery_native_safe r.request.sandbox_id r.checkpoint.native_revision db)) [
        | inr (x, q) ↦ absurd (ground (arith, e, q))
        | inl ((safe, db1), q) ↦ ground (
          arith,
          e,
          q,
          safe-reads r.request.sandbox_id r.checkpoint.native_revision safe db db1 q,
        )
      ]

safe-means :
    (sandbox : Text) (n : ℕ) (db : Db) (s : SandboxRow) (row : SessionRow)
    → get sandbox db.sandboxes ≡ some s
    → get s.session_id db.sessions ≡ some row
    → recovery_native_safe sandbox n db ≡ ok (true, db)
    → (row.native_revision ≡ n) × (is_settled row ≡ true)
unfolding recovery_native_safe
safe-means sandbox n db s row es er h = ground (arith, es, er, h)

-- What the release asks for.
pub record IsRecovered (r : RecoveryReceipt) (session row : SessionRow) (h : HoldRow) : Type 0 where
  pub held : h.released_at ≡ none
  pub reason : h.reason ≡ txt "checkpoint_recovery"
  pub verified : is_some r.verified_at ≡ true
  pub replaced : is_some r.source_deleted_at ≡ true
  pub same_profile : r.checkpoint.profile_name ≡ session.sandbox_profile
  pub same_revision : r.checkpoint.profile_revision ≡ session.sandbox_profile_revision
  pub nothing_lost : row.native_revision ≡ r.checkpoint.native_revision
  pub settled : is_settled row ≡ true
  pub bound : (r.destination_provider_id == []) ≡ false
  pub alive : r.destination_deleted_at ≡ none

module _ (service : Absurd) (expected r : RecoveryReceipt) (db db' : Db) (session row : SessionRow)
    (s : SandboxRow) (h : HoldRow) (v : RecoveryRow) where
  -- A recovery that finishes was verified, under its own hold that was in force, with the profile
  -- revision of its checkpoint; the old resource was deleted, the replacement bound and alive, and the
  -- native work of the Sandbox's Session settled at the revision of the checkpoint, so that none was
  -- lost. In the same transaction the Sandbox switches from the old resource to the replacement, the
  -- hold is released and the receipt finished.
  pub recovery-IsRecovered :
      get expected.request.session_id db.sessions ≡ some session
      → find_recovery db expected.request.id ≡ some r
      → get r.request.sandbox_id db.sandboxes ≡ some s
      → get s.session_id db.sessions ≡ some row
      → get r.request.id db.holds ≡ some h
      → get r.request.id db.recoveries ≡ some v
      → r.finished_at ≡ none
      → finish_checkpoint_recovery service expected db ≡ ok (tt, db')
      → IsRecovered r session row h
        × (get r.request.sandbox_id db'.sandboxes
            ≡ some (record s { active_resource_id = r.destination_resource_id }))
        × (s.active_resource_id ≡ r.source_resource_id)
        × (get r.request.id db'.holds ≡ some (record h { released_at = some db.clock }))
        × (get r.request.id db'.recoveries
            ≡ some (record v { finished_at = or_now v.finished_at db.clock }))
  unfolding finish_checkpoint_recovery find_session
  recovery-IsRecovered ej er es ew eh ev open_receipt k =
      let whole = session_of db expected.request.session_id session in
      elim (Result-cases (authorize_recovery_release whole r db)) [
        | inr (x, e) ↦ absurd (ground (arith, ej, er, e))
        | inl ((_, db1), e) ↦
            let (same, asked) = release-asks whole r db db1 h eh e in
            let (held, reason, verified, replaced, name, revision, safe, bound, alive) = asked in
            let rows = recovered-rows service r db db' s h v es eh ev in
            let native =
              safe-means r.request.sandbox_id r.checkpoint.native_revision db s row es ew safe in
            let switched : switch_and_release_recovery service r db ≡ ok (tt, db') =
              ground (arith, ej, er, e, same) in
            let (moved, released, finished, active) = rows switched in
            (
              record {
                held = held;
                reason = (==_iff h.reason (txt "checkpoint_recovery")).0 reason;
                verified = verified;
                replaced = replaced;
                same_profile = (==_iff r.checkpoint.profile_name session.sandbox_profile).0 name;
                same_revision =
                    (==_iff r.checkpoint.profile_revision session.sandbox_profile_revision).0
                      revision;
                nothing_lost = native.0;
                settled = native.1;
                bound = bound;
                alive = alive;
              },
              moved,
              active,
              ground (arith, released, held),
              finished,
            )
      ]
