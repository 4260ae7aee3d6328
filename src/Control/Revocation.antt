-- ===== src/Control/Revocation.antt =====
-- A client that was revoked authenticates no more.
use dorf.Base.{
  ℕ, ◌≡◌, ◌≢◌, subst, true, false, none, some, [], ◌∷◌, Text, ◌==◌, ==_iff, is_some, arith,
  Bool-cases, Option-cases, inl, inr,
}
use dorf.Store.Table.{Table, get, put, get-put_self}
use dorf.Control.Store.{
  ClientRow, ControlDb, Client, ClientRecord, record_of, revoked, revoked_row, find_authentic, done,
  authenticate_credential, revoke_client, get_client,
}

-- The identities of a table are distinct: they are its primary key.
abbrev pub Distinct : Table ClientRow → Type 0
Distinct [] = Unit
Distinct ((k, c) ∷ t) = (get k t ≡ none) × Distinct t

find_authentic-elsewhere :
    (id digest : Text) (now : ℕ) (t : Table ClientRow) (j : Text) (o : ClientRow)
    → get id t ≡ none
    → find_authentic digest now t ≡ some (j, o)
    → (j == id) ≡ false
unfolding find_authentic get
find_authentic-elsewhere id digest now [] j o n h = cc
find_authentic-elsewhere id digest now ((k, p) ∷ t) j o n h =
    ground (arith, find_authentic-elsewhere id digest now t j o)

find_authentic-live :
    (id digest : Text) (c : ClientRow) (now : ℕ) (t : Table ClientRow) (j : Text) (o : ClientRow)
    → Distinct t
    → is_some c.revoked_at ≡ true
    → is_some (get id t) ≡ true
    → find_authentic digest now (put id c t) ≡ some (j, o)
    → (j == id) ≡ false
unfolding find_authentic get put
find_authentic-live id digest c now [] j o d r there h = cc
find_authentic-live id digest c now ((k, p) ∷ t) j o d r there h = elim (Bool-cases (k == id)) [
  | inr miss ↦ ground (arith, find_authentic-live id digest c now t j o d.1)
  | inl hit ↦
      let same = (==_iff k id).0 hit in
      find_authentic-elsewhere id digest now t j o (subst (λ i. get i t ≡ none) same d.0)
        (ground (arith, hit, r))
]

is_revoked : (now : ℕ) (c : ClientRow) → is_some (revoked_row now c).revoked_at ≡ true
is_revoked now c = elim (Option-cases c.revoked_at) [
  | inl live ↦ ground (arith)
  | inr (t, gone) ↦ ground (arith)
]

-- A revocation of a client that is there succeeds. Whatever the time, no credential authenticates as
-- that client afterwards, and its record says that it is revoked.
pub revoke-final :
    (id : Text) (c : ClientRow) (db : ControlDb)
    → Distinct db.clients
    → get id db.clients ≡ some c
    → (db' : ControlDb) × (r : ClientRecord) × (revoke_client id db ≡ done (r, db'))
      × ((later : ℕ) (digest : Text) (client : Client)
          → authenticate_credential digest (record db' { clock = later })
            ≡ done (client, record db' { clock = later })
          → client.id ≢ id)
      × ((later : ℕ)
          → get_client id (record db' { clock = later }) ≡ done (r, record db' { clock = later }))
unfolding revoke_client authenticate_credential get_client
revoke-final id c db d there =
    let c' : ClientRow = revoked_row db.clock c in
    (
      record db { clients = put id c' db.clients },
      record_of id revoked c',
      ground (arith, there),
      λ later digest client h.
          elim (Option-cases (find_authentic digest later (put id c' db.clients))) [
            | inl absent ↦ absurd (ground (arith, absent, h))
            | inr ((j, o), found) ↦
                let away =
                  find_authentic-live id digest c' later db.clients j o d (is_revoked db.clock c)
                    (ground (arith, there)) found in
                λ e. ground (arith, ==_iff j id, away, found, h, e)
          ],
      λ later. ground (arith, get-put_self id c' db.clients, is_revoked db.clock c),
    )
