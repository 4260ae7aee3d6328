-- ===== src/Upgrade/Service/Progress.antt =====
-- How far an upgrade is from its end. Each statement that a step commits brings it nearer.
use dorf.Base.{
  ℕ, ◌<◌, ◌≡◌, ◌≢◌, Bool, true, false, not, ◌&&◌, ◌||◌, Option, none, some, [], Text, ◌==◌, is_some,
  arith,
}
use dorf.Upgrade.Receipt.{Receipt}
use dorf.Store.Table.{get}
use dorf.Store.Db.{UpgradeRow, SandboxRow, Db}
use dorf.Store.Upgrades.{receipt_of}
use dorf.Upgrade.Service.{deleted_in, is_replacement}

-- Whether all that the last step before release deletes is deleted.
abbrev pub is_true : Option Bool → Bool
is_true none = false
is_true (some b) = b

abbrev pub is_cleaned : Db → Text → Receipt → Bool
is_cleaned db session r = elim (is_replacement r) [
  | true ↦ is_true (deleted_in db session r.source_resource_id)
  | false ↦ is_some r.checkpoint_deleted_at
]

-- The successful steps that an upgrade has left, at most, by what is recorded.
unfoldable pub grade :
    (finished unprepared quiet uncaptured rolled restored unbound activated verified cleaned : Bool)
    → ℕ
grade true _ _ _ _ _ _ _ _ _ = 0
grade false true _ _ _ _ _ _ _ _ = 10
grade false false false _ _ _ _ _ _ _ = 9
grade false false true true _ _ _ _ _ _ = 8
grade false false true false true false true _ _ _ = 5
grade false false true false true false false _ _ _ = 4
grade false false true false true true _ _ false _ = 3
grade false false true false false _ _ false _ _ = 7
grade false false true false false _ _ true false _ = 6
grade false false true false _ _ _ _ true false = 2
grade false false true false _ _ _ _ true true = 1

abbrev pub rank : Db → Receipt → ℕ
rank db r =
    grade (is_some r.finished_at) (r.previous_version == []) (is_some r.quiesced_at)
      (r.checkpoint.reference == []) (is_some r.rollback_at) (is_some r.restored_at)
      (r.destination_resource_id == []) (is_some r.activated_at) (is_some r.verified_at)
      (is_cleaned db r.session_id r)

pub grade-le : (a b c d e f g h i j : Bool) → grade a b c d e f g h i j < 11
unfolding grade
grade-le a b c d e f g h i j = ground arith

pub prepare_down :
    (c d e f g h i j k : Bool)
    → grade false false c d e f g h i k < grade false true c d e f g h i j
unfolding grade
prepare_down c d e f g h i j k = ground arith

pub quiesce_down :
    (d e f g h i j k : Bool)
    → grade false false true d e f g h i k < grade false false false d e f g h i j
unfolding grade
quiesce_down d e f g h i j k = ground arith

pub capture_down :
    (e f g h i j k : Bool)
    → grade false false true false e f g h i k < grade false false true true e f g h i j
unfolding grade
capture_down e f g h i j k = ground arith

pub activate_down :
    (f g i j k : Bool)
    → grade false false true false false f g true i k
      < grade false false true false false f g false i j
unfolding grade
activate_down f g i j k = ground arith

-- A rollback is asked for before the upgrade is verified.
pub roll_down :
    (f g h i j k : Bool)
    → not h || not i ≡ true
    → grade false false true false true f g h i k < grade false false true false false f g h i j
unfolding grade
roll_down f g h i j k o = ground arith

pub reserve_down :
    (h i j k : Bool)
    → grade false false true false true false false h i k
      < grade false false true false true false true h i j
unfolding grade
reserve_down h i j k = ground arith

pub restore_down :
    (h i j k : Bool)
    → grade false false true false true true false h i k
      < grade false false true false true false false h i j
unfolding grade
restore_down h i j k = ground arith

pub verify_down :
    (e f g h j k : Bool)
    → (e && not f) ≡ false
    → (not h && not e) ≡ false
    → grade false false true false e f g h true k < grade false false true false e f g h false j
unfolding grade
verify_down e f g h j k a b = ground arith

pub clean_down :
    (e f g h : Bool)
    → (e && not f) ≡ false
    → (not h && not e) ≡ false
    → grade false false true false e f g h true true
      < grade false false true false e f g h true false
unfolding grade
clean_down e f g h a b = ground arith

pub finish_down :
    (b c d e f g h i j b' c' d' e' f' g' h' i' k : Bool)
    → grade true b' c' d' e' f' g' h' i' k < grade false b c d e f g h i j
unfolding grade
finish_down b c d e f g h i j b' c' d' e' f' g' h' i' k = ground arith

-- A receipt row whose source is named, and whose destination, where there is one, is too.
pub record IsNamed (u : UpgradeRow) : Type 0 where
  pub source : u.source_resource_id ≢ []
  pub destination : u.destination_resource_id ≢ some []

-- The receipt `r`, read from its row `u` and its Sandbox `s`.
pub record IsRead (db : Db) (id : Text) (u : UpgradeRow) (s : SandboxRow) : Type 0 where
  pub row : get id db.upgrades ≡ some u
  pub sandbox : get u.sandbox_id db.sandboxes ≡ some s
  pub owned : (s.session_id == []) ≡ false
  pub named : IsNamed u

abbrev pub receipt : Db → Text → UpgradeRow → SandboxRow → Receipt
receipt db id u s = receipt_of id s.session_id db.resources u

-- What a step leaves: the receipt can be read again, and is nearer to its end.
pub record Advances (db db' : Db) (id : Text) (u : UpgradeRow) (s : SandboxRow) : Type 0 where
  pub row : UpgradeRow
  pub sandbox : SandboxRow
  pub read : IsRead db' id row sandbox
  pub nearer : rank db' (receipt db' id row sandbox) < rank db (receipt db id u s)
