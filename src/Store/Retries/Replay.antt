-- ===== src/Store/Retries/Replay.antt =====
-- A retry request takes effect once.
use dorf.Base.{
  ◌≡◌, refl, false, some, inl, inr, Text, ◌==◌, ◌||◌, ltb, length, [], ==_iff, arith, Bool-cases,
  Option-cases,
}
use dorf.Base.Results.{ok, Result-cases}
use dorf.Std.Strings.{trim_space}
use dorf.Store.Table.{get, get-put_self}
use dorf.Store.Db.{RetryRow, Db, Absurd}
use dorf.Store.Tasks.{latest_task, task_id_of}
use dorf.Store.Retries.{
  RetryReceipt, receipt_of, row_of, schedule_retry, retry_keyed, retry_failed_session,
}

module _ (service : Absurd) where
  -- The request is on record, whether it was before or is now.
  keyed-recorded :
      (session key : Text) (db db' : Db) (receipt : RetryReceipt)
      → retry_keyed service session key db ≡ ok (receipt, db')
      → (row : RetryRow) × (get key db'.retries ≡ some row)
        × (row.session_id ≡ session)
        × (record receipt { created = false } ≡ receipt_of key row false)
  unfolding retry_keyed schedule_retry
  keyed-recorded session key db db' receipt h = elim (Option-cases (get key db.retries)) [
    | inr (row, e) ↦ (
      row,
      ground (arith, e),
      ground (arith, e, ==_iff row.session_id session),
      ground (arith, e),
    )
    | inl e ↦ elim (Option-cases (get session db.sessions)) [
      | inl f ↦ absurd (ground (arith, e, f))
      | inr (s, f) ↦
          let task : Text = task_id_of (latest_task session db.session_tasks) in
          elim (Result-cases (service.retry db.absurd_calls task)) [
            | inr (x, g) ↦ absurd (ground (arith, e, f, g))
            | inl (t, g) ↦
                let row : RetryRow = row_of session t in
                (
                  row,
                  ground (arith, e, f, g, get-put_self key row db.retries),
                  refl,
                  ground (arith, e, f, g),
                )
          ]
    ]
  ]

  replayed :
      (session key : Text) (db : Db) (row : RetryRow)
      → get key db.retries ≡ some row
      → row.session_id ≡ session
      → retry_keyed service session key db ≡ ok (receipt_of key row false, db)
  unfolding retry_keyed
  replayed session key db row e own = ground (arith, e, own, ==_iff row.session_id session)

  -- Asked again with its key, a request that was accepted returns the same receipt, marked as not
  -- created, and nothing changes: no second attempt is scheduled.
  pub retry_idem :
      (session key : Text) (db db' : Db) (receipt : RetryReceipt)
      → retry_failed_session service session key db ≡ ok (receipt, db')
      → retry_failed_session service session key db' ≡ ok (record receipt { created = false }, db')
  unfolding retry_failed_session
  retry_idem session key db db' receipt h =
      elim (Bool-cases
        (trim_space session == [] || (trim_space key == [] || ltb 255 (length (trim_space key))))) [
          | inl refused ↦ absurd (ground (arith, refused))
          | inr fine ↦
              let (row, e, own, same) =
                keyed-recorded (trim_space session) (trim_space key) db db' receipt
                  (ground (arith, fine)) in
              ground
                (arith, fine, replayed (trim_space session) (trim_space key) db' row e own, same)
        ]
