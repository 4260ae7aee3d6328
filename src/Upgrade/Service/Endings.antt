-- ===== src/Upgrade/Service/Endings.antt =====
-- The last statements of an upgrade bring it nearer to its end too: the reservation of a recovery, the
-- deletion of a resource that was replaced, and the release.
use dorf.Base.{
  ℕ, ◌≡◌, ◌≢◌, Bool, true, false, not, ◌&&◌, none, some, [], ◌∷◌, ◌++◌, Text, ◌==◌, ==_iff,
  ==-false, is_some, inl, inr, Option-cases, arith,
}
use dorf.Base.Results.{ok}
use dorf.Core.Domain.{Sandbox}
use dorf.Upgrade.Receipt.{Receipt}
use dorf.Store.Table.{get, put, update, get-put_self}
use dorf.Store.Db.{UpgradeRow, SandboxRow, ResourceRow, Db, Absurd, or_now}
use dorf.Store.Sandboxes.{record_sandbox_resource_deleted, reserve_sandbox_resource}
use dorf.Store.Upgrades.{
  find_upgrade, reserve_upgrade_destination, bind_upgrade_destination, replacement_of,
}
use dorf.Store.Custody.{target_of, finish_sandbox_upgrade, authorize_upgrade_release}
use dorf.Store.Custody.Release.{finish_sound}
use dorf.Upgrade.Service.{deleted_in, is_replacement}
use dorf.Upgrade.Service.Commits.{Commits}
use dorf.Upgrade.Service.Progress.{
  is_cleaned, reserve_down, clean_down, finish_down, IsRead, receipt, Advances,
}
use dorf.Upgrade.Service.Advances.{is_some-or_now}
use dorf.Effects.{World}

append-ne_nil : (t : Text) (c : ℕ) (cs : Text) → t ++ (c ∷ cs) ≢ []
append-ne_nil [] c cs e = cc
append-ne_nil (d ∷ t) c cs e = cc

module _ (w w' : World) (id : Text) (u : UpgradeRow) (s : SandboxRow) (i : IsRead w.db id u s) where
  abbrev r : Receipt
  r = receipt w.db id u s

  -- A destination is bound to a named resource, the replacement's or the source's.
  bound-Advances :
      (d : Text)
      → d ≢ []
      → u.finished_at ≡ none
      → (r.previous_version == []) ≡ false
      → is_some u.quiesced_at ≡ true
      → (r.checkpoint.reference == []) ≡ false
      → is_some u.rollback_at ≡ true
      → is_some u.restored_at ≡ false
      → (r.destination_resource_id == []) ≡ true
      → get id w'.db.upgrades ≡ some (record u { destination_resource_id = some d })
      → get u.sandbox_id w'.db.sandboxes ≡ some s
      → Advances w.db w'.db id u s
  bound-Advances d named open_yet prepared quiet captured rolled unrestored unbound row there =
      record {
        row = record u { destination_resource_id = some d };
        sandbox = s;
        read = record {
          owned = i.owned;
          row = row;
          sandbox = there;
          named = record { source = i.named.source; destination = λ e. named (ground (arith)) };
        };
        nearer =
            rw
              (
                open_yet,
                prepared,
                quiet,
                captured,
                rolled,
                unrestored,
                unbound,
                ==-false d [] named,
              )
              (reserve_down _ _ _ _);
      }

  pub reserved-Advances :
      (replace : Bool) (nonce : Text)
      → u.finished_at ≡ none
      → (r.previous_version == []) ≡ false
      → is_some u.quiesced_at ≡ true
      → (r.checkpoint.reference == []) ≡ false
      → is_some u.rollback_at ≡ true
      → is_some u.restored_at ≡ false
      → (r.destination_resource_id == []) ≡ true
      → Commits (reserve_upgrade_destination r replace nonce) w w'
      → Advances w.db w'.db id u s
  unfolding reserve_upgrade_destination reserve_sandbox_resource bind_upgrade_destination update
  reserved-Advances true nonce open_yet prepared quiet captured rolled unrestored unbound c =
      let d : Text = replacement_of id in
      let u' : UpgradeRow = record u { destination_resource_id = some d } in
      bound-Advances d (append-ne_nil id _ _) open_yet prepared quiet captured rolled unrestored
        unbound
        (ground (
          arith,
          i.row,
          c.committed,
          c.upgrades,
          get-put_self id u' w.db.upgrades,
          i.named.destination,
          ==_iff r.destination_resource_id [],
        ))
        (ground (
          arith,
          i.row,
          i.sandbox,
          c.committed,
          c.sandboxes,
          i.named.destination,
          ==_iff r.destination_resource_id [],
        ))
  reserved-Advances false nonce open_yet prepared quiet captured rolled unrestored unbound c =
      let d : Text = u.source_resource_id in
      let u' : UpgradeRow = record u { destination_resource_id = some d } in
      bound-Advances d i.named.source open_yet prepared quiet captured rolled unrestored unbound
        (ground (
          arith,
          i.row,
          c.committed,
          c.upgrades,
          get-put_self id u' w.db.upgrades,
          i.named.destination,
          ==_iff r.destination_resource_id [],
        ))
        (ground (
          arith,
          i.row,
          i.sandbox,
          c.committed,
          c.sandboxes,
          i.named.destination,
          ==_iff r.destination_resource_id [],
        ))

  pub deleted-Advances :
      (source : Sandbox)
      → u.finished_at ≡ none
      → (r.previous_version == []) ≡ false
      → is_some u.quiesced_at ≡ true
      → (r.checkpoint.reference == []) ≡ false
      → (is_some u.rollback_at && not (is_some u.restored_at)) ≡ false
      → (not (is_some u.activated_at) && not (is_some u.rollback_at)) ≡ false
      → is_some u.verified_at ≡ true
      → is_replacement r ≡ true
      → source.resource_id ≡ r.source_resource_id
      → deleted_in w.db s.session_id u.source_resource_id ≡ some false
      → Commits (record_sandbox_resource_deleted source) w w'
      → Advances w.db w'.db id u s
  unfolding update
  deleted-Advances source open_yet prepared quiet captured recovered forward verified moved same
        undeleted c =
      elim (Option-cases (get u.source_resource_id w.db.resources)) [
        | inl absent ↦ absurd (ground (arith))
        | inr (v, there) ↦
            let v' : ResourceRow = record v { deleted_at = or_now v.deleted_at w.db.clock } in
            let written : w'.db.resources ≡ put u.source_resource_id v' w.db.resources =
              ground (arith, same, c.committed, c.resources) in
            let sandboxes : w'.db.sandboxes ≡ w.db.sandboxes =
              ground (arith, same, c.committed, c.sandboxes) in
            let upgrades : w'.db.upgrades ≡ w.db.upgrades =
              ground (arith, same, c.committed, c.upgrades) in
            let gone : deleted_in w'.db s.session_id u.source_resource_id ≡ some true = ground (
              arith,
              written,
              sandboxes,
              undeleted,
              there,
              get-put_self u.source_resource_id v' w.db.resources,
              is_some-or_now v.deleted_at w.db.clock,
            ) in
            let now : is_cleaned w'.db s.session_id (receipt w'.db id u s) ≡ true =
              ground (arith, moved, gone) in
            let before : is_cleaned w.db s.session_id r ≡ false =
              ground (arith, moved, undeleted) in
            record {
              row = u;
              sandbox = s;
              read = record {
                owned = i.owned;
                row = ground (arith, i.row, upgrades);
                sandbox = ground (arith, i.sandbox, sandboxes);
                named = i.named;
              };
              nearer =
                  rw (open_yet, prepared, quiet, captured, verified, now, before)
                    (clean_down _ _ _ _ recovered forward);
            }
      ]

module _ (service : Absurd) (w w' : World) (id : Text) (u : UpgradeRow) (s : SandboxRow)
    (i : IsRead w.db id u s) where
  found : find_upgrade w.db id ≡ some (receipt w.db id u s)
  unfolding find_upgrade
  found = ground (arith, i.row, i.sandbox)

  held :
      get id w.db.holds ≡ none
      → u.finished_at ≡ none
      → (db' : Db) → finish_sandbox_upgrade service (receipt w.db id u s) w.db ≡ ok (tt, db')
      → ⊥
  unfolding finish_sandbox_upgrade authorize_upgrade_release
  held none_held open_yet db' h = ground (arith, found)

  pub finished-Advances :
      u.finished_at ≡ none
      → Commits (finish_sandbox_upgrade service (receipt w.db id u s)) w w'
      → Advances w.db w'.db id u s
  finished-Advances open_yet c = elim (Option-cases (get id w.db.holds)) [
    | inl absent ↦ absurd (held absent open_yet c.after c.committed)
    | inr (h, there) ↦
        let r : Receipt = receipt w.db id u s in
        let (verified, released, quiet, rows, switched, hold, finished) =
          finish_sound service r r w.db c.after s h u found i.sandbox there i.row open_yet
            c.committed in
        let u' : UpgradeRow = record u { finished_at = or_now u.finished_at w.db.clock } in
        let s' : SandboxRow = record s { active_resource_id = target_of r } in
        record {
          row = u';
          sandbox = s';
          read = record {
            owned = i.owned;
            row = ground (arith, c.upgrades, finished);
            sandbox = ground (arith, c.sandboxes, switched);
            named = record { source = i.named.source; destination = i.named.destination };
          };
          nearer =
              rw (is_some-or_now u.finished_at w.db.clock, open_yet)
                (finish_down _ _ _ _ _ _ _ _ _ _ _ _ _ _ _ _ _ _);
        }
  ]
