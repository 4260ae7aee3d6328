-- ===== src/Control/Service.antt =====
-- internal/controlauth/controlauth.go: the checks before the store. `strings.ToLower` is a parameter,
-- and so is what `randomText` returns. Durations are whole microseconds.
use dorf.Base.{
  ℕ, Bool, true, false, ◌&&◌, ◌||◌, Option, none, some, [], ◌∷◌, ◌++◌, Text, txt, leb, eqb, all,
  length, if◌then◌else◌,
}
use dorf.Std.Sha256.{sum256}
use dorf.Std.Strings.{trim_space}
use dorf.Control.Store.{
  invalid_input, enrollment_unavailable, unauthenticated, done, refused, Client, ClientRecord, Step,
  create_enrollment, redeem_enrollment, authenticate_credential, get_client, revoke_client,
  issue_key,
}

is_between : ℕ → ℕ → ℕ → Bool
is_between low high c = leb low c && leb c high

-- `[A-Za-z0-9_-]`.
unfoldable pub is_url_byte : ℕ → Bool
unfolding is_between
is_url_byte c =
    is_between b'a' b'z' c
    || (is_between b'A' b'Z' c || (is_between b'0' b'9' c || (eqb c b'_' || eqb c b'-')))

is_name_byte : ℕ → Bool
unfolding is_between
is_name_byte c =
    is_between b'a' b'z' c || (is_between b'0' b'9' c || (eqb c b'.' || (eqb c b'_' || eqb c b'-')))

is_name_start : ℕ → Bool
unfolding is_between
is_name_start c = is_between b'a' b'z' c || is_between b'0' b'9' c

-- `^[a-z0-9][a-z0-9._-]{0,62}$`.
unfoldable pub is_client_name : Text → Bool
unfolding is_name_start is_name_byte
is_client_name [] = false
is_client_name (c ∷ cs) = is_name_start c && (leb (length cs) 62 && all is_name_byte cs)

-- `[A-Za-z0-9_-]{n}`.
unfoldable pub is_secret : ℕ → Text → Bool
unfolding is_url_byte
is_secret n t = eqb (length t) n && all is_url_byte t

-- A fixed prefix, and 22 bytes of a secret.
unfoldable pub is_prefixed : Text → Text → Bool
is_prefixed [] t = is_secret 22 t
is_prefixed (p ∷ ps) [] = false
is_prefixed (p ∷ ps) (c ∷ cs) = eqb p c && is_prefixed ps cs

-- `strings.Cut` at the first point.
unfoldable pub cut : Text → Option (Text × Text)
cut [] = none
cut (c ∷ cs) =
    let rest = cut cs in
    elim (eqb c b'.') [
      | true ↦ some ([], cs)
      | false ↦ elim rest [ none ↦ none | some (a, b) ↦ some (c ∷ a, b) ]
    ]

unfoldable pub enrollment_id : Text → Option Text
enrollment_id token = elim (cut token) [
  | none ↦ none
  | some (id, secret) ↦ elim (is_prefixed (txt "enr_") id && is_secret 43 secret) [
    | true ↦ some id
    | false ↦ none
  ]
]

abbrev pub digest : Text → Text
digest t = sum256 t

-- The configured lifetime, or the default where there is none; `none` where it is out of bounds.
unfoldable pub lifetime_within : ℕ → ℕ → ℕ → Option ℕ
lifetime_within lifetime default most =
    let l = if eqb lifetime 0 then default else lifetime in
    elim (leb 1000 l && leb l most) [ true ↦ some l | false ↦ none ]

abbrev pub enrollment_lifetime : ℕ → Option ℕ
enrollment_lifetime l = lifetime_within l 600000000 86400000000

abbrev pub credential_lifetime : ℕ → Option ℕ
credential_lifetime l = lifetime_within l 7776000000000 157680000000000

unfoldable pub create : ℕ → Text → Text → Step Text
create lifetime id secret db = elim (enrollment_lifetime lifetime) [
  | none ↦ refused invalid_input
  | some l ↦ elim (create_enrollment id (digest (id ++ (b'.' ∷ secret))) l db) [
    | refused x ↦ refused x
    | done (expires, db') ↦ done (id ++ (b'.' ∷ secret), db')
  ]
]

unfoldable pub authenticate : Text → Step Client
authenticate credential db = elim (is_secret 43 credential) [
  | false ↦ refused unauthenticated
  | true ↦ authenticate_credential (digest credential) db
]

abbrev pub valid_client_id : Text → Option Text
valid_client_id id = elim (is_prefixed (txt "cli_") (trim_space id)) [
  | true ↦ some (trim_space id)
  | false ↦ none
]

unfoldable pub inspect : Text → Step ClientRecord
inspect id db = elim (valid_client_id id) [
  | none ↦ refused invalid_input
  | some k ↦ get_client k db
]

unfoldable pub revoke : Text → Step ClientRecord
revoke id db = elim (valid_client_id id) [
  | none ↦ refused invalid_input
  | some k ↦ revoke_client k db
]

module _ (to_lower : Text → Text) where
  abbrev pub client_name : Text → Text
  client_name name = to_lower (trim_space name)

  unfoldable pub redeem : ℕ → Text → Text → Text → Text → Step (Client × Bool)
  redeem lifetime token name credential client_id db = elim (enrollment_id token) [
    | none ↦ refused enrollment_unavailable
    | some id ↦ elim (is_client_name (client_name name) && is_secret 43 credential) [
      | false ↦ refused invalid_input
      | true ↦ elim (credential_lifetime lifetime) [
        | none ↦ refused invalid_input
        | some l ↦
            redeem_enrollment id (digest token) (client_name name) (digest credential) l client_id
              db
      ]
    ]
  ]

  unfoldable pub issue : Text → Text → Text → Step ClientRecord
  issue name credential client_id db =
      elim (is_client_name (client_name name) && is_secret 43 credential) [
        | false ↦ refused invalid_input
        | true ↦ issue_key client_id (client_name name) (digest credential) db
      ]
