-- ===== src/Store/Upgrades/Order.antt =====
-- Every statement keeps a receipt in order.
use dorf.Base.{◌≡◌, refl, inr, true, Option, none, some, Text, ◌==◌, ==_iff, is_some, arith}
use dorf.Base.Results.{ok}
use dorf.Upgrade.Receipt.{Checkpoint}
use dorf.Store.Table.{get, put, get-put_self, update}
use dorf.Store.Db.{UpgradeRow, Db, or_now, or_empty}
use dorf.Store.Upgrades.{
  or_text, record_upgrade_preparation, record_upgrade_quiesced, record_upgrade_checkpoint,
  record_upgrade_activated, request_upgrade_rollback, bind_upgrade_destination, mark_restored,
  record_upgrade_verified, record_upgrade_checkpoint_deleted, record_upgrade_finished,
}
use dorf.Store.Upgrades.Facts.{
  IsOrdered, Extends, Recording, prepared, quiesced, activated, restored, verified,
  checkpoint_deleted, finished, checkpointed, rollback_requested, destination_bound, perform,
}

-- What a statement that succeeds does to the row.
record Records (id : Text) (db db' : Db) (u : UpgradeRow) : Type 0 where
  row : UpgradeRow
  ordered : IsOrdered row
  extends : Extends u row
  changed : db' ≡ record db { upgrades = put id row db.upgrades }

prepared-Records :
    (id version : Text) (db db' : Db) (u : UpgradeRow)
    → get id db.upgrades ≡ some u
    → IsOrdered u
    → record_upgrade_preparation id version db ≡ ok (tt, db')
    → Records id db db' u
unfolding record_upgrade_preparation update
prepared-Records id version db db' u e o h = record {
  row = record u { previous_version = some version };
  ordered = ground (arith, e);
  extends = ground (arith, e);
  changed = ground (arith, e);
}

quiesced-Records :
    (id : Text) (db db' : Db) (u : UpgradeRow)
    → get id db.upgrades ≡ some u
    → IsOrdered u
    → record_upgrade_quiesced id db ≡ ok (tt, db')
    → Records id db db' u
unfolding record_upgrade_quiesced update
quiesced-Records id db db' u e o h = record {
  row = record u { quiesced_at = or_now u.quiesced_at db.clock };
  ordered = ground (arith, e);
  extends = ground (arith, e);
  changed = ground (arith, e);
}

-- A text that is recorded, and that a statement compares with its own.
same_text : (o : Option Text) (t : Text) → is_some o ≡ true → (or_empty o == t) ≡ true → some t ≡ o
same_text none t p h = absurd (ground (arith, p))
same_text (some s) t p h = ground (arith, (==_iff s t).0 h)

checkpointed-Records :
    (id : Text) (c : Checkpoint) (db db' : Db) (u : UpgradeRow)
    → get id db.upgrades ≡ some u
    → IsOrdered u
    → record_upgrade_checkpoint id c db ≡ ok (tt, db')
    → Records id db db' u
unfolding record_upgrade_checkpoint update
checkpointed-Records id c db db' u e o h = record {
  row = record u {
    checkpoint_key = some c.key;
    checkpoint_reference = some c.reference;
    checkpoint_source_id = some c.source_id;
  };
  ordered = ground (arith, e);
  extends =
      let key = same_text u.checkpoint_key c.key in
      let reference = same_text u.checkpoint_reference c.reference in
      let source = same_text u.checkpoint_source_id c.source_id in
      record {
        sandbox_id = refl;
        source_resource_id = refl;
        package_path = refl;
        version = refl;
        requested_at = refl;
        destination_resource_id = inr refl;
        previous_version = inr refl;
        quiesced_at = inr refl;
        checkpoint_key = ground (arith, e, o.keyed, key);
        checkpoint_source_id = ground (arith, e, o.sourced, source);
        checkpoint_reference = ground (arith, e, reference);
        activated_at = inr refl;
        rollback_at = inr refl;
        failure_code = inr refl;
        restored_at = inr refl;
        verified_at = inr refl;
        checkpoint_deleted_at = inr refl;
        finished_at = inr refl;
      };
  changed = ground (arith, e);
}

activated-Records :
    (id : Text) (db db' : Db) (u : UpgradeRow)
    → get id db.upgrades ≡ some u
    → IsOrdered u
    → record_upgrade_activated id db ≡ ok (tt, db')
    → Records id db db' u
unfolding record_upgrade_activated update
activated-Records id db db' u e o h = record {
  row = record u { activated_at = or_now u.activated_at db.clock };
  ordered = ground (arith, e);
  extends = ground (arith, e);
  changed = ground (arith, e);
}

rollback_requested-Records :
    (id : Text) (code : Text) (db db' : Db) (u : UpgradeRow)
    → get id db.upgrades ≡ some u
    → IsOrdered u
    → request_upgrade_rollback id code db ≡ ok (tt, db')
    → Records id db db' u
unfolding request_upgrade_rollback update
rollback_requested-Records id code db db' u e o h = record {
  row = record u {
    rollback_at = or_now u.rollback_at db.clock;
    failure_code = or_text u.failure_code code;
  };
  ordered = ground (arith, e);
  extends = ground (arith, e);
  changed = ground (arith, e);
}

destination_bound-Records :
    (id : Text) (resource : Text) (db db' : Db) (u : UpgradeRow)
    → get id db.upgrades ≡ some u
    → IsOrdered u
    → bind_upgrade_destination id resource db ≡ ok (tt, db')
    → Records id db db' u
unfolding bind_upgrade_destination update
destination_bound-Records id resource db db' u e o h = record {
  row = record u { destination_resource_id = some resource };
  ordered = ground (arith, e);
  extends = ground (arith, e);
  changed = ground (arith, e);
}

restored-Records :
    (id : Text) (db db' : Db) (u : UpgradeRow)
    → get id db.upgrades ≡ some u
    → IsOrdered u
    → mark_restored id db ≡ ok (tt, db')
    → Records id db db' u
unfolding mark_restored update
restored-Records id db db' u e o h = record {
  row = record u { restored_at = or_now u.restored_at db.clock };
  ordered = ground (arith, e);
  extends = ground (arith, e);
  changed = ground (arith, e);
}

verified-Records :
    (id : Text) (db db' : Db) (u : UpgradeRow)
    → get id db.upgrades ≡ some u
    → IsOrdered u
    → record_upgrade_verified id db ≡ ok (tt, db')
    → Records id db db' u
unfolding record_upgrade_verified update
verified-Records id db db' u e o h = record {
  row = record u { verified_at = or_now u.verified_at db.clock };
  ordered = ground (arith, e);
  extends = ground (arith, e);
  changed = ground (arith, e);
}

checkpoint_deleted-Records :
    (id : Text) (db db' : Db) (u : UpgradeRow)
    → get id db.upgrades ≡ some u
    → IsOrdered u
    → record_upgrade_checkpoint_deleted id db ≡ ok (tt, db')
    → Records id db db' u
unfolding record_upgrade_checkpoint_deleted update
checkpoint_deleted-Records id db db' u e o h = record {
  row = record u { checkpoint_deleted_at = or_now u.checkpoint_deleted_at db.clock };
  ordered = ground (arith, e);
  extends = ground (arith, e);
  changed = ground (arith, e);
}

finished-Records :
    (id : Text) (db db' : Db) (u : UpgradeRow)
    → get id db.upgrades ≡ some u
    → IsOrdered u
    → record_upgrade_finished id db ≡ ok (tt, db')
    → Records id db db' u
unfolding record_upgrade_finished update
finished-Records id db db' u e o h = record {
  row = record u { finished_at = or_now u.finished_at db.clock };
  ordered = ground (arith, e);
  extends = ground (arith, e);
  changed = ground (arith, e);
}

perform-Records :
    (id : Text) (c : Recording) (db db' : Db) (u : UpgradeRow)
    → get id db.upgrades ≡ some u
    → IsOrdered u
    → perform id c db ≡ ok (tt, db')
    → Records id db db' u
perform-Records id (prepared version) db db' u e o h = prepared-Records id version db db' u e o h
perform-Records id quiesced db db' u e o h = quiesced-Records id db db' u e o h
perform-Records id (checkpointed c) db db' u e o h = checkpointed-Records id c db db' u e o h
perform-Records id activated db db' u e o h = activated-Records id db db' u e o h
perform-Records id (rollback_requested code) db db' u e o h =
    rollback_requested-Records id code db db' u e o h
perform-Records id (destination_bound resource) db db' u e o h =
    destination_bound-Records id resource db db' u e o h
perform-Records id restored db db' u e o h = restored-Records id db db' u e o h
perform-Records id verified db db' u e o h = verified-Records id db db' u e o h
perform-Records id checkpoint_deleted db db' u e o h = checkpoint_deleted-Records id db db' u e o h
perform-Records id finished db db' u e o h = finished-Records id db db' u e o h

-- Whatever a statement records, the receipt stays in order, and every fact that it had is kept as it
-- was; nothing but its row changes.
pub perform-Extends :
    (id : Text) (c : Recording) (db db' : Db) (u : UpgradeRow)
    → get id db.upgrades ≡ some u
    → IsOrdered u
    → perform id c db ≡ ok (tt, db')
    → (v : UpgradeRow) × (get id db'.upgrades ≡ some v)
      × IsOrdered v
      × Extends u v
      × (db' ≡ record db { upgrades = put id v db.upgrades })
perform-Extends id c db db' u e o h =
    let r = perform-Records id c db db' u e o h in
    (r.row, rw r.changed (get-put_self id r.row db.upgrades), r.ordered, r.extends, r.changed)
