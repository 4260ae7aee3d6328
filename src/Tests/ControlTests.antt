-- ===== src/Tests/ControlTests.antt =====
-- One enrollment and its client.
use dorf.Base.{
  ℕ, ◌≡◌, ◌≢◌, ◌⊎◌, refl, false, none, some, [], ◌∷◌, Text, txt, Text-discrete, ℕ_discrete, arith,
}
use dorf.Std.Strings.{trim_space}
use dorf.Store.Table.{get, put}
use dorf.Control.Store.{
  EnrollmentRow, ClientRow, ControlDb, Client, ClientRecord, done, refused, enrollment_unavailable,
  client_of, redeem_enrollment, redeem_first, revoke_client, authenticate_credential, get_client,
}
use dorf.Control.Service.{is_secret, is_prefixed, is_client_name, lifetime_within, create}
use dorf.Control.Enrollment.{create-redeem, redeem_once}
use dorf.Control.Revocation.{revoke-final}

abbrev nobody : ControlDb
nobody = record { enrollments = []; clients = []; clock = 100 }

abbrev enr : Text
enr = txt "enr_0123456789abcdefghij-_"

abbrev key : Text
key = txt "0123456789012345678901234567890123456789012"

abbrev other_key : Text
other_key = txt "A123456789012345678901234567890123456789012"

create-redeem_example : (r : Text × ControlDb) × (create 0 enr key nobody ≡ done r)
unfolding is_prefixed is_secret is_client_name lifetime_within trim_space get
create-redeem_example =
    let all =
      create-redeem (λ t. t) 0 600000000 0 7776000000000 enr key (txt "laptop") other_key
        (txt "cli_1") nobody refl refl refl refl refl refl refl refl refl 200 300 (omega arith)
        (omega arith) in
    (_, all.0)

abbrev enrollment : EnrollmentRow
enrollment = record {
  secret_digest = txt "s";
  expires_at = 500;
  consumed_at = none;
  client_id = none;
}

abbrev invited : ControlDb
invited = record nobody { enrollments = (enr, enrollment) ∷ [] }

abbrev client_row : ClientRow
client_row = record {
  name = txt "laptop";
  credential_digest = txt "d";
  credential_expires_at = some 1100;
  created_at = 100;
  revoked_at = none;
}

abbrev joined_db : ControlDb
joined_db = record invited {
  enrollments =
      (enr, record enrollment { consumed_at = some 100; client_id = some (txt "cli_1") }) ∷ [];
  clients = (txt "cli_1", client_row) ∷ [];
}

redeem_once_example :
    (redeem_enrollment enr
        (txt "s")
        (txt "phone")
        (txt "d")
        9
        (txt "cli_2")
        (record joined_db { clock = 300 })
      ≡ refused enrollment_unavailable)
    ⊎ ((txt "s" ≡ txt "s")
        × (txt "phone" ≡ txt "laptop")
        × (txt "d" ≡ txt "d")
        × (redeem_enrollment enr
              (txt "s")
              (txt "phone")
              (txt "d")
              9
              (txt "cli_2")
              (record joined_db { clock = 300 })
            ≡ done ((client_of (txt "cli_1") client_row, false), record joined_db { clock = 300 })))
unfolding redeem_enrollment redeem_first get put Text-discrete ℕ_discrete
redeem_once_example =
    redeem_once enr (txt "s") (txt "laptop") (txt "d") 1000 (txt "cli_1") invited
      (client_of (txt "cli_1") client_row) joined_db refl 300 (txt "s") (txt "phone") (txt "d") 9
      (txt "cli_2")

revoke-final_example :
    (db' : ControlDb) × (r : ClientRecord) × (revoke_client (txt "cli_1") joined_db ≡ done (r, db'))
    × ((later : ℕ) (digest : Text) (client : Client)
        → authenticate_credential digest (record db' { clock = later })
          ≡ done (client, record db' { clock = later })
        → client.id ≢ txt "cli_1")
    × ((later : ℕ)
        → get_client (txt "cli_1") (record db' { clock = later })
          ≡ done (r, record db' { clock = later }))
unfolding get Text-discrete ℕ_discrete
revoke-final_example = revoke-final (txt "cli_1") client_row joined_db (refl, tt) refl
