-- ===== src/Store/Upgrades/History.antt =====
-- The life of a receipt: statements of internal/postgres/upgrades.go, tried in any order.
use dorf.Base.{◌≡◌, refl, ◌∙◌, inl, inr, Option, some, List, [], ◌∷◌, Text, arith}
use dorf.Base.Results.{ok, err, Result-cases}
use dorf.Store.Table.{get}
use dorf.Store.Db.{UpgradeRow, Db}
use dorf.Store.Upgrades.Facts.{IsOrdered, Kept, Extends, Recording, perform}
use dorf.Store.Upgrades.Order.{perform-Extends}

-- Statements in any order, each in a transaction of its own: one that fails changes nothing.
unfoldable pub attempt : Text → List Recording → Db → Db
attempt id [] db = db
attempt id (c ∷ cs) db = attempt id cs (elim (perform id c db) [ ok (_, db') ↦ db' | err _ ↦ db ])

Kept-trans : {A : Type 0} (a b c : Option A) → Kept a b → Kept b c → Kept a c
Kept-trans a b c h k = ground (arith, h, k)

Extends-refl : (u : UpgradeRow) → Extends u u
Extends-refl u = record {
  sandbox_id = refl;
  source_resource_id = refl;
  package_path = refl;
  version = refl;
  requested_at = refl;
  destination_resource_id = inr refl;
  previous_version = inr refl;
  quiesced_at = inr refl;
  checkpoint_key = inr refl;
  checkpoint_source_id = inr refl;
  checkpoint_reference = inr refl;
  activated_at = inr refl;
  rollback_at = inr refl;
  failure_code = inr refl;
  restored_at = inr refl;
  verified_at = inr refl;
  checkpoint_deleted_at = inr refl;
  finished_at = inr refl;
}

Extends-trans : (u v w : UpgradeRow) → Extends u v → Extends v w → Extends u w
Extends-trans u v w h k = record {
  sandbox_id = k.sandbox_id ∙ h.sandbox_id;
  source_resource_id = k.source_resource_id ∙ h.source_resource_id;
  package_path = k.package_path ∙ h.package_path;
  version = k.version ∙ h.version;
  requested_at = k.requested_at ∙ h.requested_at;
  checkpoint_key =
      Kept-trans u.checkpoint_key v.checkpoint_key w.checkpoint_key h.checkpoint_key
        k.checkpoint_key;
  checkpoint_source_id =
      Kept-trans u.checkpoint_source_id v.checkpoint_source_id w.checkpoint_source_id
        h.checkpoint_source_id k.checkpoint_source_id;
  destination_resource_id =
      Kept-trans u.destination_resource_id v.destination_resource_id w.destination_resource_id
        h.destination_resource_id k.destination_resource_id;
  previous_version =
      Kept-trans u.previous_version v.previous_version w.previous_version h.previous_version
        k.previous_version;
  quiesced_at = Kept-trans u.quiesced_at v.quiesced_at w.quiesced_at h.quiesced_at k.quiesced_at;
  checkpoint_reference =
      Kept-trans u.checkpoint_reference v.checkpoint_reference w.checkpoint_reference
        h.checkpoint_reference k.checkpoint_reference;
  activated_at =
      Kept-trans u.activated_at v.activated_at w.activated_at h.activated_at k.activated_at;
  rollback_at = Kept-trans u.rollback_at v.rollback_at w.rollback_at h.rollback_at k.rollback_at;
  failure_code =
      Kept-trans u.failure_code v.failure_code w.failure_code h.failure_code k.failure_code;
  restored_at = Kept-trans u.restored_at v.restored_at w.restored_at h.restored_at k.restored_at;
  verified_at = Kept-trans u.verified_at v.verified_at w.verified_at h.verified_at k.verified_at;
  checkpoint_deleted_at =
      Kept-trans u.checkpoint_deleted_at v.checkpoint_deleted_at w.checkpoint_deleted_at
        h.checkpoint_deleted_at k.checkpoint_deleted_at;
  finished_at = Kept-trans u.finished_at v.finished_at w.finished_at h.finished_at k.finished_at;
}

-- Whatever statements are tried on a receipt, in whatever order, it stays in order, and every fact
-- that it had, of all its fields, is kept as it was.
pub attempt-Extends :
    (id : Text) (cs : List Recording) (db : Db) (u : UpgradeRow)
    → get id db.upgrades ≡ some u
    → IsOrdered u
    → (v : UpgradeRow) × (get id (attempt id cs db).upgrades ≡ some v) × IsOrdered v × Extends u v
unfolding attempt
attempt-Extends id [] db u e o = (u, e, o, Extends-refl u)
attempt-Extends id (c ∷ cs) db u e o = elim (Result-cases (perform id c db)) [
  | inr (x, q) ↦ rw (attempt, q) (attempt-Extends id cs db u e o)
  | inl ((_, db1), q) ↦
      let (v, e1, o1, x1, _) = perform-Extends id c db db1 u e o q in
      let (w, e2, o2, x2) = attempt-Extends id cs db1 v e1 o1 in
      rw (attempt, q) (w, e2, o2, Extends-trans u v w x1 x2)
]
