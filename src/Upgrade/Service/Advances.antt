-- ===== src/Upgrade/Service/Advances.antt =====
-- Each statement that a step commits brings its upgrade nearer to its end.
use dorf.Base.{
  ℕ, ◌≡◌, refl, true, false, not, ◌&&◌, ◌||◌, Option, none, some, [], Text, ◌==◌, is_some, arith,
}
use dorf.Upgrade.Receipt.{Receipt, Checkpoint}
use dorf.Store.Table.{update, get-put_self}
use dorf.Store.Db.{UpgradeRow, SandboxRow, or_now}
use dorf.Store.Upgrades.{
  record_upgrade_preparation, record_upgrade_quiesced, record_upgrade_checkpoint,
  record_upgrade_activated, request_upgrade_rollback, mark_restored, record_upgrade_restored,
  record_upgrade_verified, record_upgrade_checkpoint_deleted, or_text,
}
use dorf.Upgrade.Service.{is_replacement}
use dorf.Upgrade.Service.Commits.{Commits}
use dorf.Upgrade.Service.Progress.{
  is_cleaned, prepare_down, quiesce_down, capture_down, activate_down, roll_down, restore_down,
  verify_down, clean_down, IsRead, receipt, Advances,
}
use dorf.Effects.{World}

pub is_some-or_now : (o : Option ℕ) (now : ℕ) → is_some (or_now o now) ≡ true
is_some-or_now none now = refl
is_some-or_now (some t) now = refl

module _ (w w' : World) (id : Text) (u : UpgradeRow) (s : SandboxRow) (i : IsRead w.db id u s) where
  abbrev r : Receipt
  r = receipt w.db id u s

  pub prepared-Advances :
      (version : Text)
      → (version == []) ≡ false
      → u.finished_at ≡ none
      → (r.previous_version == []) ≡ true
      → Commits (record_upgrade_preparation id version) w w'
      → Advances w.db w'.db id u s
  unfolding record_upgrade_preparation update
  prepared-Advances version said open_yet unprepared c =
      let u' : UpgradeRow = record u { previous_version = some version } in
      record {
        row = u';
        sandbox = s;
        read = record {
          owned = i.owned;
          row = ground (arith, i.row, c.committed, c.upgrades, get-put_self id u' w.db.upgrades);
          sandbox = ground (arith, i.row, i.sandbox, c.committed, c.sandboxes);
          named = record { source = i.named.source; destination = i.named.destination };
        };
        nearer = rw (open_yet, said, unprepared) (prepare_down _ _ _ _ _ _ _ _ _);
      }

  pub quiesced-Advances :
      u.finished_at ≡ none
      → (r.previous_version == []) ≡ false
      → is_some u.quiesced_at ≡ false
      → Commits (record_upgrade_quiesced id) w w'
      → Advances w.db w'.db id u s
  unfolding record_upgrade_quiesced update
  quiesced-Advances open_yet prepared unquiet c =
      let u' : UpgradeRow = record u { quiesced_at = or_now u.quiesced_at w.db.clock } in
      record {
        row = u';
        sandbox = s;
        read = record {
          owned = i.owned;
          row = ground (arith, i.row, c.committed, c.upgrades, get-put_self id u' w.db.upgrades);
          sandbox = ground (arith, i.row, i.sandbox, c.committed, c.sandboxes);
          named = record { source = i.named.source; destination = i.named.destination };
        };
        nearer =
            rw (open_yet, prepared, is_some-or_now u.quiesced_at w.db.clock, unquiet)
              (quiesce_down _ _ _ _ _ _ _ _);
      }

  pub captured-Advances :
      (k : Checkpoint)
      → u.finished_at ≡ none
      → (r.previous_version == []) ≡ false
      → is_some u.quiesced_at ≡ true
      → (r.checkpoint.reference == []) ≡ true
      → Commits (record_upgrade_checkpoint id k) w w'
      → Advances w.db w'.db id u s
  unfolding record_upgrade_checkpoint update
  captured-Advances k open_yet prepared quiet uncaptured c =
      let u' : UpgradeRow = record u {
        checkpoint_key = some k.key;
        checkpoint_reference = some k.reference;
        checkpoint_source_id = some k.source_id;
      } in
      record {
        row = u';
        sandbox = s;
        read = record {
          owned = i.owned;
          row = ground (arith, i.row, c.committed, c.upgrades, get-put_self id u' w.db.upgrades);
          sandbox = ground (arith, i.row, i.sandbox, c.committed, c.sandboxes);
          named = record { source = i.named.source; destination = i.named.destination };
        };
        nearer =
            let said : (k.reference == []) ≡ false = ground (arith, i.row, c.committed) in
            rw (open_yet, prepared, quiet, uncaptured, said) (capture_down _ _ _ _ _ _ _);
      }

  pub activated-Advances :
      u.finished_at ≡ none
      → (r.previous_version == []) ≡ false
      → is_some u.quiesced_at ≡ true
      → (r.checkpoint.reference == []) ≡ false
      → is_some u.activated_at ≡ false
      → is_some u.rollback_at ≡ false
      → Commits (record_upgrade_activated id) w w'
      → Advances w.db w'.db id u s
  unfolding record_upgrade_activated update
  activated-Advances open_yet prepared quiet captured inactive unrolled c =
      let u' : UpgradeRow = record u { activated_at = or_now u.activated_at w.db.clock } in
      record {
        row = u';
        sandbox = s;
        read = record {
          owned = i.owned;
          row = ground (arith, i.row, c.committed, c.upgrades, get-put_self id u' w.db.upgrades);
          sandbox = ground (arith, i.row, i.sandbox, c.committed, c.sandboxes);
          named = record { source = i.named.source; destination = i.named.destination };
        };
        nearer =
            rw
              (
                open_yet,
                prepared,
                quiet,
                captured,
                unrolled,
                is_some-or_now u.activated_at w.db.clock,
                inactive,
              )
              (activate_down _ _ _ _ _);
      }

  pub rolled-Advances :
      (code : Text)
      → u.finished_at ≡ none
      → (r.previous_version == []) ≡ false
      → is_some u.quiesced_at ≡ true
      → (r.checkpoint.reference == []) ≡ false
      → is_some u.rollback_at ≡ false
      → (not (is_some u.activated_at) || not (is_some u.verified_at)) ≡ true
      → Commits (request_upgrade_rollback id code) w w'
      → Advances w.db w'.db id u s
  unfolding request_upgrade_rollback update
  rolled-Advances code open_yet prepared quiet captured unrolled early c =
      let u' : UpgradeRow = record u {
        rollback_at = or_now u.rollback_at w.db.clock;
        failure_code = or_text u.failure_code code;
      } in
      record {
        row = u';
        sandbox = s;
        read = record {
          owned = i.owned;
          row = ground (arith, i.row, c.committed, c.upgrades, get-put_self id u' w.db.upgrades);
          sandbox = ground (arith, i.row, i.sandbox, c.committed, c.sandboxes);
          named = record { source = i.named.source; destination = i.named.destination };
        };
        nearer =
            rw
              (
                open_yet,
                prepared,
                quiet,
                captured,
                is_some-or_now u.rollback_at w.db.clock,
                unrolled,
              )
              (roll_down _ _ _ _ _ _ early);
      }

  pub verified-Advances :
      u.finished_at ≡ none
      → (r.previous_version == []) ≡ false
      → is_some u.quiesced_at ≡ true
      → (r.checkpoint.reference == []) ≡ false
      → (is_some u.rollback_at && not (is_some u.restored_at)) ≡ false
      → (not (is_some u.activated_at) && not (is_some u.rollback_at)) ≡ false
      → is_some u.verified_at ≡ false
      → Commits (record_upgrade_verified id) w w'
      → Advances w.db w'.db id u s
  unfolding record_upgrade_verified update
  verified-Advances open_yet prepared quiet captured recovered forward unverified c =
      let u' : UpgradeRow = record u { verified_at = or_now u.verified_at w.db.clock } in
      record {
        row = u';
        sandbox = s;
        read = record {
          owned = i.owned;
          row = ground (arith, i.row, c.committed, c.upgrades, get-put_self id u' w.db.upgrades);
          sandbox = ground (arith, i.row, i.sandbox, c.committed, c.sandboxes);
          named = record { source = i.named.source; destination = i.named.destination };
        };
        nearer =
            rw
              (
                open_yet,
                prepared,
                quiet,
                captured,
                is_some-or_now u.verified_at w.db.clock,
                unverified,
              )
              (verify_down _ _ _ _ _ _ recovered forward);
      }

  pub restored-Advances :
      (provider : Text)
      → u.finished_at ≡ none
      → (r.previous_version == []) ≡ false
      → is_some u.quiesced_at ≡ true
      → (r.checkpoint.reference == []) ≡ false
      → is_some u.rollback_at ≡ true
      → is_some u.restored_at ≡ false
      → (r.destination_resource_id == []) ≡ false
      → Commits (record_upgrade_restored r provider) w w'
      → Advances w.db w'.db id u s
  unfolding record_upgrade_restored mark_restored update
  restored-Advances provider open_yet prepared quiet captured rolled unrestored bound c =
      let u' : UpgradeRow = record u { restored_at = or_now u.restored_at w.db.clock } in
      record {
        row = u';
        sandbox = s;
        read = record {
          owned = i.owned;
          row = ground (arith, i.row, c.committed, c.upgrades, get-put_self id u' w.db.upgrades);
          sandbox = ground (arith, i.row, i.sandbox, c.committed, c.sandboxes);
          named = record { source = i.named.source; destination = i.named.destination };
        };
        nearer =
            rw
              (
                open_yet,
                prepared,
                quiet,
                captured,
                rolled,
                bound,
                is_some-or_now u.restored_at w.db.clock,
                unrestored,
              )
              (restore_down _ _ _ _);
      }

  pub dropped-Advances :
      u.finished_at ≡ none
      → (r.previous_version == []) ≡ false
      → is_some u.quiesced_at ≡ true
      → (r.checkpoint.reference == []) ≡ false
      → (is_some u.rollback_at && not (is_some u.restored_at)) ≡ false
      → (not (is_some u.activated_at) && not (is_some u.rollback_at)) ≡ false
      → is_some u.verified_at ≡ true
      → is_replacement r ≡ false
      → is_some u.checkpoint_deleted_at ≡ false
      → Commits (record_upgrade_checkpoint_deleted id) w w'
      → Advances w.db w'.db id u s
  unfolding record_upgrade_checkpoint_deleted update
  dropped-Advances open_yet prepared quiet captured recovered forward verified in_place undeleted
        c =
      let u' : UpgradeRow = record u {
        checkpoint_deleted_at = or_now u.checkpoint_deleted_at w.db.clock;
      } in
      record {
        row = u';
        sandbox = s;
        read = record {
          owned = i.owned;
          row = ground (arith, i.row, c.committed, c.upgrades, get-put_self id u' w.db.upgrades);
          sandbox = ground (arith, i.row, i.sandbox, c.committed, c.sandboxes);
          named = record { source = i.named.source; destination = i.named.destination };
        };
        nearer =
            let now : is_cleaned w'.db s.session_id (receipt w'.db id u' s) ≡ true =
              ground (arith, is_some-or_now u.checkpoint_deleted_at w.db.clock) in
            let before : is_cleaned w.db s.session_id r ≡ false = ground (arith) in
            rw (open_yet, prepared, quiet, captured, verified, now, before)
              (clean_down _ _ _ _ recovered forward);
      }
