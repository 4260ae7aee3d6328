-- ===== src/Store/Actions/Completion.antt =====
-- What complete cleanup means. The checkpoints meant are those that upgrades took, not published ones.
use dorf.Base.{
  ◌≡◌, refl, ◌≢◌, ◌⊎◌, inl, inr, true, false, none, some, [], ◌∷◌, Text, ◌==◌, ==_iff, is_some,
  arith, Bool-cases, ◌&&◌,
}
use dorf.Base.Results.{ok}
use dorf.Core.Domain.{is_complete, route_revoke, sandbox_delete}
use dorf.Store.Table.{
  Table, get, get-put_self, update, Rows, Rows-map, any_row, map_rows, count_rows, count_rows-zero,
}
use dorf.Store.Holds.{owner_is, is_held, session_held}
use dorf.Store.Db.{SessionRow, SandboxRow, ResourceRow, UpgradeRow, HoldRow, Db}
use dorf.Store.Actions.{
  has_success, is_undeleted, keeps_checkpoint, blocks_cleanup, is_unsettled, count_unsettled,
  completed_row, release_hold, complete_cleanup,
}

-- A Sandbox of which nothing is left outside: its route is revoked and it is deleted, so is every
-- resource that it ever had, and so is every checkpoint that an upgrade took of it.
pub record IsSettled (db : Db) (session sandbox : Text) : Type 0 where
  pub route : has_success session route_revoke sandbox db.actions ≡ true
  pub guest : has_success session sandbox_delete sandbox db.actions ≡ true
  pub resources :
      Rows
        (λ _ (r : ResourceRow). (r.sandbox_id ≢ sandbox) ⊎ (is_some r.deleted_at ≡ true))
        db.resources
  pub checkpoints :
      Rows
        (λ _ (u : UpgradeRow).
          (u.sandbox_id ≢ sandbox)
          ⊎ (u.checkpoint_reference ≡ none)
          ⊎ (is_some u.checkpoint_deleted_at ≡ true))
        db.upgrades

all_deleted :
    (sandbox : Text) (t : Table ResourceRow)
    → any_row (is_undeleted sandbox) t ≡ false
    → Rows (λ _ (r : ResourceRow). (r.sandbox_id ≢ sandbox) ⊎ (is_some r.deleted_at ≡ true)) t
all_deleted sandbox [] h = tt
all_deleted sandbox ((k, r) ∷ t) h =
    ground (arith, all_deleted sandbox t, ==_iff r.sandbox_id sandbox)

all_cleaned :
    (sandbox : Text) (t : Table UpgradeRow)
    → any_row (keeps_checkpoint sandbox) t ≡ false
    → Rows
        (λ _ (u : UpgradeRow).
          (u.sandbox_id ≢ sandbox)
          ⊎ (u.checkpoint_reference ≡ none)
          ⊎ (is_some u.checkpoint_deleted_at ≡ true))
        t
all_cleaned sandbox [] h = tt
all_cleaned sandbox ((k, u) ∷ t) h =
    ground (arith, all_cleaned sandbox t, ==_iff u.sandbox_id sandbox)

IsSettled-of :
    (db : Db) (session sandbox : Text)
    → is_unsettled db session sandbox ≡ false
    → IsSettled db session sandbox
unfolding is_unsettled
IsSettled-of db session sandbox h = record {
  route = ground arith;
  guest = ground arith;
  resources = all_deleted sandbox db.resources (ground arith);
  checkpoints = all_cleaned sandbox db.upgrades (ground arith);
}

none_held :
    (db : Db) (session : Text) (t : Table HoldRow)
    → any_row
        (λ _ h. owner_is db.sandboxes session h.sandbox_id && is_held h)
        (map_rows (release_hold db session) t)
      ≡ false
none_held db session [] = refl
none_held db session ((k, h) ∷ t) = ground (arith, none_held db session t)

-- Cleanup completes only when every Sandbox of the Session is settled; it then marks the Session
-- complete and releases the Session's delivery holds, and it moves no other table.
pub complete_cleanup_sound :
    (session task : Text) (db db' : Db) (r : SessionRow)
    → get session db.sessions ≡ some r
    → is_complete r.cleanup_state ≡ false
    → complete_cleanup session task db ≡ ok (tt, db')
    → Rows (λ id (s : SandboxRow). (s.session_id ≢ session) ⊎ IsSettled db session id) db.sandboxes
      × (get session db'.sessions ≡ some (completed_row r db.clock))
      × (session_held db' session ≡ false)
      × (db' ≡ record db { sessions = db'.sessions; holds = db'.holds })
unfolding complete_cleanup update count_unsettled session_held
complete_cleanup_sound session task db db' r e n h = (
  Rows-map db.sandboxes
      (λ id s q. elim (Bool-cases (s.session_id == session)) [
        | inl own ↦ inr (IsSettled-of db session id (ground (arith, own, q)))
        | inr other ↦ inl (ground (arith, other, ==_iff s.session_id session))
      ])
      (count_rows-zero (blocks_cleanup db session) db.sandboxes none_left),
  ground (arith, e, get-put_self session (completed_row r db.clock) db.sessions),
  ground (arith, e, none_held db session db.holds),
  ground (arith, e),
)
  where
    none_left : count_rows (blocks_cleanup db session) db.sandboxes ≡ 0
    none_left = ground (arith, e)
