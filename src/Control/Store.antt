-- ===== src/Control/Store.antt =====
-- internal/postgres/controlauth.go, with its queries: enrollments, and the clients that redeemed one.
-- A digest stands for the secret that it is computed from. Times are microseconds. What `rand.Read`
-- gives is an argument.
use dorf.Base.{
  ℕ, ◌+◌, Bool, true, false, not, ◌&&◌, Option, none, some, [], ◌∷◌, Text, ◌==◌, ltb, is_some,
  if◌then◌else◌,
}
use dorf.Store.Table.{Table, get, put, any_row}

-- The sentinels of internal/controlauth/controlauth.go, and the violation of another constraint.
pub data AuthError : Type 0 where
  invalid_input enrollment_unavailable unauthenticated client_conflict client_not_found : AuthError
  violated : AuthError

pub data Answer (A : Type 0) : Type 0 where
  done : A → Answer A
  refused : AuthError → Answer A

pub record EnrollmentRow : Type 0 where
  pub secret_digest : Text
  pub expires_at : ℕ
  pub consumed_at : Option ℕ
  pub client_id : Option Text

pub record ClientRow : Type 0 where
  pub name : Text
  pub credential_digest : Text
  pub credential_expires_at : Option ℕ
  pub created_at : ℕ
  pub revoked_at : Option ℕ

pub record ControlDb : Type 0 where
  pub enrollments : Table EnrollmentRow
  pub clients : Table ClientRow
  pub clock : ℕ

pub record Client : Type 0 where
  pub id : Text
  pub name : Text
  pub credential_expires_at : Option ℕ

pub data ClientState : Type 0 where
  active expired revoked : ClientState

pub record ClientRecord : Type 0 where
  pub id : Text
  pub name : Text
  pub state : ClientState
  pub created_at : ℕ
  pub expires_at : Option ℕ
  pub revoked_at : Option ℕ

abbrev pub client_of : Text → ClientRow → Client
client_of id c = record { id = id; name = c.name; credential_expires_at = c.credential_expires_at }

-- Whether a time is past, where there is one.
abbrev pub is_past : Option ℕ → ℕ → Bool
is_past none now = false
is_past (some t) now = not (ltb now t)

abbrev pub state_at : ℕ → ClientRow → ClientState
state_at now c = elim (is_some c.revoked_at) [
  | true ↦ revoked
  | false ↦ elim (is_past c.credential_expires_at now) [ true ↦ expired | false ↦ active ]
]

abbrev pub record_of : Text → ClientState → ClientRow → ClientRecord
record_of id state c = record {
  id = id;
  name = c.name;
  state = state;
  created_at = c.created_at;
  expires_at = c.credential_expires_at;
  revoked_at = c.revoked_at;
}

abbrev pub Step : Type 0 → Type 0
Step A = ControlDb → Answer (A × ControlDb)

-- `InsertControlEnrollment`: the identity is the primary key. The digest of a fresh random secret is
-- taken to be unique, as its constraint asks.
unfoldable pub create_enrollment : Text → Text → ℕ → Step ℕ
create_enrollment id secret_digest lifetime db = elim (is_some (get id db.enrollments)) [
  | true ↦ refused violated
  | false ↦ done (
    db.clock + lifetime,
    record db {
      enrollments =
          put id
            (record {
              secret_digest = secret_digest;
              expires_at = db.clock + lifetime;
              consumed_at = none;
              client_id = none;
            })
            db.enrollments;
    },
  )
]

-- The condition of `AuthenticateControlClient`.
abbrev pub is_authentic : Text → ℕ → ClientRow → Bool
is_authentic digest now c =
    c.credential_digest == digest
    && (not (is_some c.revoked_at) && not (is_past c.credential_expires_at now))

-- `AuthenticateControlClient`: digests are unique.
unfoldable pub find_authentic : Text → ℕ → Table ClientRow → Option (Text × ClientRow)
find_authentic digest now [] = none
find_authentic digest now ((id, c) ∷ t) =
    let rest = find_authentic digest now t in
    if is_authentic digest now c then some (id, c) else rest

unfoldable pub authenticate_credential : Text → Step Client
authenticate_credential digest db = elim (find_authentic digest db.clock db.clients) [
  | none ↦ refused unauthenticated
  | some (id, c) ↦ done (client_of id c, db)
]

-- A client row, unless its digest or its identity is taken.
abbrev pub insert_client : Text → ClientRow → Step Client
insert_client id c db =
    elim (any_row (λ k (o : ClientRow). o.credential_digest == c.credential_digest) db.clients) [
      | true ↦ refused client_conflict
      | false ↦ elim (is_some (get id db.clients)) [
        | true ↦ refused violated
        | false ↦ done (client_of id c, record db { clients = put id c db.clients })
      ]
    ]

-- An enrollment that was redeemed answers only the client that redeemed it.
unfoldable pub redeem_again : Option Text → Text → Text → Step (Client × Bool)
redeem_again none name credential db = refused enrollment_unavailable
redeem_again (some owner) name credential db =
    elim (find_authentic credential db.clock db.clients) [
      | none ↦ refused enrollment_unavailable
      | some (id, c) ↦ elim (id == owner && c.name == name) [
        | true ↦ done ((client_of id c, false), db)
        | false ↦ refused enrollment_unavailable
      ]
    ]

unfoldable pub redeem_first : Text → EnrollmentRow → Text → Text → ℕ → Text → Step (Client × Bool)
redeem_first enrollment e name credential lifetime client_id db =
    let c : ClientRow = record {
      name = name;
      credential_digest = credential;
      credential_expires_at = some (db.clock + lifetime);
      created_at = db.clock;
      revoked_at = none;
    } in
    elim (insert_client client_id c db) [
      | refused x ↦ refused x
      | done (client, db1) ↦ done (
        (client, true),
        record db1 {
          enrollments =
              put enrollment (record e { consumed_at = some db.clock; client_id = some client_id })
                db1.enrollments;
        },
      )
    ]

unfoldable pub redeem_enrollment : Text → Text → Text → Text → ℕ → Text → Step (Client × Bool)
redeem_enrollment id secret name credential lifetime client_id db = elim (get id db.enrollments) [
  | none ↦ refused enrollment_unavailable
  | some e ↦ elim (e.secret_digest == secret) [
    | false ↦ refused enrollment_unavailable
    | true ↦ elim (is_some e.consumed_at) [
      | true ↦ redeem_again e.client_id name credential db
      | false ↦ elim (ltb db.clock e.expires_at) [
        | false ↦ refused enrollment_unavailable
        | true ↦ redeem_first id e name credential lifetime client_id db
      ]
    ]
  ]
]

unfoldable pub get_client : Text → Step ClientRecord
get_client id db = elim (get id db.clients) [
  | none ↦ refused client_not_found
  | some c ↦ done (record_of id (state_at db.clock c) c, db)
]

abbrev pub revoked_row : ℕ → ClientRow → ClientRow
revoked_row now c = record c {
  revoked_at = elim c.revoked_at [ none ↦ some now | some t ↦ some t ];
}

unfoldable pub revoke_client : Text → Step ClientRecord
revoke_client id db = elim (get id db.clients) [
  | none ↦ refused client_not_found
  | some c ↦ done (
    record_of id revoked (revoked_row db.clock c),
    record db { clients = put id (revoked_row db.clock c) db.clients },
  )
]

-- `IssueKey`: a credential of the host that does not expire. No conflict is told apart.
unfoldable pub issue_key : Text → Text → Text → Step ClientRecord
issue_key client_id name credential db =
    let c : ClientRow = record {
      name = name;
      credential_digest = credential;
      credential_expires_at = none;
      created_at = db.clock;
      revoked_at = none;
    } in
    elim (insert_client client_id c db) [
      | refused x ↦ refused violated
      | done (_, db1) ↦ done (record_of client_id active c, db1)
    ]
