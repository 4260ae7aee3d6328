-- ===== src/Control/Enrollment.antt =====
-- An enrollment, from its creation to the client that redeems it.
use dorf.Base.{
  ℕ, ◌+◌, ◌<◌, ◌≡◌, ◌⊎◌, inl, inr, refl, subst, Bool, true, false, not, ◌&&◌, Option, none, some,
  [], ◌∷◌, ◌++◌, Text, txt, ◌==◌, ==_iff, eqb, all, is_some, arith, Bool-cases, Option-cases,
}
use dorf.Store.Table.{Table, get, put, any_row, get-put_self}
use dorf.Control.Store.{
  EnrollmentRow, ClientRow, ControlDb, Client, client_of, is_authentic, find_authentic, done,
  refused, enrollment_unavailable, create_enrollment, authenticate_credential, redeem_again,
  redeem_first, redeem_enrollment,
}
use dorf.Control.Service.{
  is_secret, is_prefixed, is_client_name, client_name, cut, enrollment_id, digest,
  enrollment_lifetime, is_url_byte, credential_lifetime, create, redeem, authenticate,
}

abbrev is_plain : ℕ → Bool
is_plain c = not (eqb c b'.')

url-plain : (c : ℕ) → is_url_byte c ≡ true → is_plain c ≡ true
unfolding is_url_byte
url-plain c h = ground arith

all-plain : (t : Text) → all is_url_byte t ≡ true → all is_plain t ≡ true
all-plain [] h = refl
all-plain (c ∷ cs) h = ground (arith, url-plain c, all-plain cs)

prefixed-plain :
    (p t : Text) → all is_plain p ≡ true → is_prefixed p t ≡ true → all is_plain t ≡ true
unfolding is_prefixed is_secret
prefixed-plain [] t plain h = ground (arith, all-plain t)
prefixed-plain (c ∷ p) [] plain h = refl
prefixed-plain (c ∷ p) (d ∷ t) plain h = ground (arith, prefixed-plain p t)

cut-join :
    (id secret : Text) → all is_plain id ≡ true → cut (id ++ (b'.' ∷ secret)) ≡ some (id, secret)
unfolding cut
cut-join [] secret h = refl
cut-join (c ∷ cs) secret h = ground (arith, cut-join cs secret)

-- A new client is found by its digest while it may authenticate.
find_new :
    (id : Text) (c : ClientRow) (now : ℕ) (t : Table ClientRow)
    → get id t ≡ none
    → any_row (λ k (o : ClientRow). o.credential_digest == c.credential_digest) t ≡ false
    → is_authentic c.credential_digest now c ≡ true
    → find_authentic c.credential_digest now (put id c t) ≡ some (id, c)
unfolding find_authentic get put
find_new id c now [] n m h = ground (arith)
find_new id c now ((j, o) ∷ t) n m h = ground (arith, find_new id c now t)

-- What a first redemption leaves.
abbrev Redeemed : Text → Text → Text → Text → Text → ControlDb → Client → ControlDb → Type 0
Redeemed id secret name credential client db result db' =
    (e : EnrollmentRow) × (c : ClientRow) × (get id db'.enrollments ≡ some e)
    × (e.secret_digest ≡ secret)
    × (is_some e.consumed_at ≡ true)
    × (e.client_id ≡ some client)
    × (db'.clients ≡ put client c db.clients)
    × (c.name ≡ name)
    × (c.credential_digest ≡ credential)
    × (get client db.clients ≡ none)
    × (result ≡ client_of client c)

-- A client row that was put under a new identity is the one found under it.
find_own :
    (id digest : Text) (c : ClientRow) (now : ℕ) (t : Table ClientRow) (j : Text) (o : ClientRow)
    → get id t ≡ none
    → find_authentic digest now (put id c t) ≡ some (j, o)
    → (j == id) ≡ true
    → (o ≡ c) × ((c.credential_digest == digest) ≡ true)
unfolding find_authentic get put
find_own id digest c now [] j o n h e = ground (arith)
find_own id digest c now ((k, p) ∷ t) j o n h e = ground (arith, find_own id digest c now t j o)

redeem_again-not_new :
    (owner : Option Text) (name credential : Text) (db : ControlDb) (result : Client)
    (db' : ControlDb)
    → redeem_again owner name credential db ≡ done ((result, true), db')
    → ⊥
unfolding redeem_again
redeem_again-not_new none name credential db result db' h = cc
redeem_again-not_new (some owner) name credential db result db' h =
    elim (Option-cases (find_authentic credential db.clock db.clients)) [
      | inl absent ↦ ground (arith)
      | inr ((id, c), there) ↦ ground (arith)
    ]

redeemed_lem :
    (id secret name credential : Text) (l : ℕ) (client : Text) (db : ControlDb) (result : Client)
    (db' : ControlDb)
    → redeem_enrollment id secret name credential l client db ≡ done ((result, true), db')
    → Redeemed id secret name credential client db result db'
unfolding redeem_enrollment redeem_first
redeemed_lem id secret name credential l client db result db' h =
    elim (Option-cases (get id db.enrollments)) [
      | inl absent ↦ absurd (ground (arith))
      | inr (e, there) ↦
          let c : ClientRow = record {
            name = name;
            credential_digest = credential;
            credential_expires_at = some (db.clock + l);
            created_at = db.clock;
            revoked_at = none;
          } in
          let e' : EnrollmentRow = record e {
            consumed_at = some db.clock;
            client_id = some client;
          } in
          elim (Bool-cases (is_some e.consumed_at)) [
            | inl used ↦
                absurd
                  (ground (arith, redeem_again-not_new e.client_id name credential db result db'))
            | inr unused ↦ (
              e',
              c,
              ground (arith, get-put_self id e' db.enrollments),
              ground (arith, ==_iff e.secret_digest secret),
              refl,
              refl,
              ground (arith),
              refl,
              refl,
              ground (arith),
              ground (arith),
            )
          ]
    ]

-- An enrollment that was redeemed is not redeemed again: at any later time a redemption is refused,
-- or has the secret, the name and the credential of the first, and then it answers its client and
-- changes nothing.
pub redeem_once :
    (id secret name credential : Text) (l : ℕ) (client : Text) (db : ControlDb) (result : Client)
    (db' : ControlDb)
    → redeem_enrollment id secret name credential l client db ≡ done ((result, true), db')
    → (later : ℕ) (secret2 name2 credential2 : Text) (l2 : ℕ) (client2 : Text)
    → (redeem_enrollment id secret2 name2 credential2 l2 client2 (record db' { clock = later })
        ≡ refused enrollment_unavailable)
      ⊎ ((secret2 ≡ secret)
          × (name2 ≡ name)
          × (credential2 ≡ credential)
          × (redeem_enrollment id secret2 name2 credential2 l2 client2
                (record db' { clock = later })
              ≡ done ((result, false), record db' { clock = later })))
unfolding redeem_enrollment redeem_again
redeem_once id secret name credential l client db result db' h later secret2 name2 credential2 l2
      client2 =
    let (e, c, there, same_secret, used, bound, clients, same_name, same_credential, new, same) =
      redeemed_lem id secret name credential l client db result db' h in
    elim (Bool-cases (e.secret_digest == secret2)) [
      | inr wrong ↦ inl (ground (arith, there, wrong))
      | inl right ↦ elim (Option-cases (find_authentic credential2 later db'.clients)) [
        | inl absent ↦ inl (ground (arith, there, right, used, bound, absent))
        | inr ((j, o), found) ↦ elim (Bool-cases (j == client && o.name == name2)) [
          | inr other ↦ inl (ground (arith, there, right, used, bound, found, other))
          | inl own ↦
              let (row, digested) =
                find_own client credential2 c later db.clients j o new
                  (subst (λ (t : Table ClientRow). find_authentic credential2 later t ≡ some (j, o))
                    clients found)
                  (ground (arith, own)) in
              let secrets = (==_iff e.secret_digest secret2).0 right in
              let ids = (==_iff j client).0 (ground (arith, own)) in
              let names = (==_iff o.name name2).0 (ground (arith, own)) in
              let credentials = (==_iff c.credential_digest credential2).0 digested in
              inr (
                cc (secrets, same_secret),
                cc (names, row, same_name),
                cc (credentials, same_credential),
                ground (arith, there, right, used, bound, found, own, row, ids, same),
              )
        ]
      ]
    ]

module _ (to_lower : Text → Text) (lifetime l length l2 : ℕ)
    (id secret name credential client : Text) (db : ControlDb)
    (within : enrollment_lifetime lifetime ≡ some l)
    (lasting : credential_lifetime length ≡ some l2) (identity : is_prefixed (txt "enr_") id ≡ true)
    (secret_ok : is_secret 43 secret ≡ true) (fresh : get id db.enrollments ≡ none)
    (named : is_client_name (client_name to_lower name) ≡ true)
    (proof : is_secret 43 credential ≡ true)
    (new_digest : any_row (λ k (o : ClientRow). o.credential_digest == digest credential) db.clients
      ≡ false)
    (new_client : get client db.clients ≡ none) where
  abbrev token : Text
  token = id ++ (b'.' ∷ secret)

  abbrev enrolled : ControlDb
  enrolled = record db {
    enrollments =
        put id
          (record {
            secret_digest = digest token;
            expires_at = db.clock + l;
            consumed_at = none;
            client_id = none;
          })
          db.enrollments;
  }

  abbrev row : ℕ → ClientRow
  row now = record {
    name = client_name to_lower name;
    credential_digest = digest credential;
    credential_expires_at = some (now + l2);
    created_at = now;
    revoked_at = none;
  }

  abbrev redeemed : ℕ → ControlDb
  redeemed now = record enrolled {
    enrollments =
        put id
          (record {
            secret_digest = digest token;
            expires_at = db.clock + l;
            consumed_at = some now;
            client_id = some client;
          })
          enrolled.enrollments;
    clients = put client (row now) db.clients;
    clock = now;
  }

  id_of_token : enrollment_id token ≡ some id
  unfolding enrollment_id
  id_of_token = ground (arith, cut-join id secret (prefixed-plain (txt "enr_") id refl identity))

  creates : create lifetime id secret db ≡ done (token, enrolled)
  unfolding create create_enrollment
  creates = ground (arith, fresh, within)

  redeems :
      (now : ℕ)
      → now < db.clock + l
      → redeem to_lower length token name credential client (record enrolled { clock = now })
        ≡ done ((client_of client (row now), true), redeemed now)
  unfolding redeem redeem_enrollment redeem_first
  redeems now early =
      let e : EnrollmentRow = record {
        secret_digest = digest token;
        expires_at = db.clock + l;
        consumed_at = none;
        client_id = none;
      } in
      ground (
        arith,
        id_of_token,
        named,
        proof,
        lasting,
        new_digest,
        new_client,
        get-put_self id e db.enrollments,
        ==_iff (digest token) (digest token),
      )

  authenticates :
      (now later : ℕ)
      → later < now + l2
      → authenticate credential (record (redeemed now) { clock = later })
        ≡ done (client_of client (row now), record (redeemed now) { clock = later })
  unfolding authenticate authenticate_credential
  authenticates now later early = ground (
    arith,
    proof,
    early,
    find_new client (row now) later db.clients new_client new_digest,
    ==_iff (digest credential) (digest credential),
  )

  -- The token of a new enrollment, redeemed before it expires under a proper name and with a proper
  -- credential that no client has, gives a client, whom the credential authenticates from then on
  -- until its own lifetime is over.
  pub create-redeem :
      (now later : ℕ)
      → now < db.clock + l
      → later < now + l2
      → (create lifetime id secret db ≡ done (token, enrolled))
        × (redeem to_lower length token name credential client (record enrolled { clock = now })
            ≡ done ((client_of client (row now), true), redeemed now))
        × (authenticate credential (record (redeemed now) { clock = later })
            ≡ done (client_of client (row now), record (redeemed now) { clock = later }))
  create-redeem now later early alive = (creates, redeems now early, authenticates now later alive)
