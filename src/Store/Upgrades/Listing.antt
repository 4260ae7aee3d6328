-- ===== src/Store/Upgrades/Listing.antt =====
-- `SessionUpgrades` of internal/postgres/upgrades.go: the receipts of a Session, oldest first. Equal
-- times are ordered by the bytes of the identities.
use dorf.Base.{
  Bool, true, false, ◌&&◌, ◌||◌, Option, none, some, List, [], ◌∷◌, Text, ◌==◌, ltb, eqb,
}
use dorf.Std.Strings.{text_before}
use dorf.Upgrade.Receipt.{Receipt}
use dorf.Store.Table.{Table, get}
use dorf.Store.Db.{UpgradeRow, Db}
use dorf.Store.Upgrades.{receipt_of}

abbrev pub before : Receipt → Receipt → Bool
before a b =
    ltb a.requested_at b.requested_at
    || (eqb a.requested_at b.requested_at && text_before a.id b.id)

unfoldable pub insert_ordered : Receipt → List Receipt → List Receipt
insert_ordered r [] = r ∷ []
insert_ordered r (x ∷ xs) =
    let rest = insert_ordered r xs in elim (before r x) [ true ↦ r ∷ x ∷ xs | false ↦ x ∷ rest ]

-- The receipt of a row, where its Sandbox is the Session's; its resources exist by foreign keys.
abbrev pub receipt_in : Db → Text → Text → UpgradeRow → Option Receipt
receipt_in db session id u = elim (get u.sandbox_id db.sandboxes) [
  | none ↦ none
  | some s ↦ elim (s.session_id == session) [
    | true ↦ some (receipt_of id session db.resources u)
    | false ↦ none
  ]
]

unfoldable pub receipts_in : Db → Text → Table UpgradeRow → List Receipt
unfolding insert_ordered
receipts_in db session [] = []
receipts_in db session ((id, u) ∷ t) =
    let rest = receipts_in db session t in
    elim (receipt_in db session id u) [ none ↦ rest | some r ↦ insert_ordered r rest ]

abbrev pub session_upgrades : Db → Text → List Receipt
session_upgrades db session = receipts_in db session db.upgrades
