-- ===== src/Store/Attention/Ownership.antt =====
-- An execution attention belongs to the part of the program that set it.
use dorf.Base.{
  ◌≡◌, ◌≢◌, ◌||◌, ◌⊎◌, inl, inr, some, ==-false, Bool-cases, [], Text, ◌==◌, ==_iff, take, arith,
}
use dorf.Base.Results.{ok, err, not_found}
use dorf.Std.Strings.{trim_space}
use dorf.Core.Domain.{Attention}
use dorf.Store.Table.{get, put, get-put_self, update}
use dorf.Store.Db.{SessionRow, Db}
use dorf.Store.Attention.{
  may_clear, set_attention_row, attended, unattended, set_execution_attention,
  clear_execution_attention,
}

abbrev pub new_attention : Text → Text → Db → Attention
new_attention source detail db = record {
  detail = take 4096 (trim_space detail);
  source = trim_space source;
  at = db.clock;
}

-- The same under sources that are trimmed already.
row-protects :
    (session source detail other text : Text) (db db' : Db) (r : SessionRow)
    → get session db.sessions ≡ some r
    → set_attention_row session source detail db ≡ ok (tt, db')
    → let a : Attention = record { detail = detail; source = source; at = db.clock } in
      (get session db'.sessions ≡ some (attended a r))
      × ((other ≡ source) ⊎ (set_attention_row session other text db' ≡ err not_found))
      × ((other ≡ source)
          ⊎ (update session (may_clear other) unattended db'.sessions ≡ (db'.sessions, 0)))
      × (update session (may_clear source) unattended db'.sessions
          ≡ (put session (unattended (attended a r)) db'.sessions, 1))
unfolding update
row-protects session source detail other text db db' r e h =
    let a : Attention = record { detail = detail; source = source; at = db.clock } in
    ground (
      arith,
      e,
      get-put_self session (attended a r) db.sessions,
      ==_iff source other,
      ==_iff source source,
    )

-- A source that sets an attention leaves it on the Session, cut to 4096 bytes. In that state another
-- source, different once trimmed, is refused when it sets one and changes nothing when it clears;
-- the source itself clears the attention.
pub set-protects :
    (session source detail other text : Text) (db db' : Db) (r : SessionRow)
    → get session db.sessions ≡ some r
    → set_execution_attention session source detail db ≡ ok (tt, db')
    → trim_space other ≢ trim_space source
    → trim_space other ≢ []
    → trim_space text ≢ []
    → (get session db'.sessions ≡ some (attended (new_attention source detail db) r))
      × (set_execution_attention session other text db' ≡ err not_found)
      × (clear_execution_attention session other db' ≡ ok (tt, db'))
      × (clear_execution_attention session source db'
          ≡ ok (
            tt,
            record db' {
              sessions =
                  put session
                    (unattended (attended (new_attention source detail db) r))
                    db'.sessions;
            },
          ))
unfolding set_execution_attention clear_execution_attention
set-protects session source detail other text db db' r e h ne some_other some_text =
    elim (Bool-cases (session == [] || (trim_space source == [] || trim_space detail == []))) [
      | inl refused ↦ absurd (ground (arith, refused))
      | inr accepted ↦ ground (
        arith,
        accepted,
        ==-false (trim_space other) [] some_other,
        ==-false (trim_space text) [] some_text,
        row-protects session (trim_space source) (take 4096 (trim_space detail)) (trim_space other)
            (take 4096 (trim_space text)) db db' r e,
      )
    ]
