-- ===== src/Store/Wakes/Causes.antt =====
-- The revision of a cause, and the bound of a Session's revisions.
use dorf.Base.{
  ℕ, suc, ◌+◌, ◌≡◌, ◌≤◌, ◌<◌, refl, ◌⊎◌, false, Option, none, some, List, [], ◌∷◌, Text, ==_iff,
  arith,
}
use dorf.Base.Results.{ok}
use dorf.Store.Table.{get, put, get-put_self}
use dorf.Store.Db.{WakeCause, Db, Absurd, emit_event}
use dorf.Store.Wakes.{
  max_int64, find_cause, revision_taken, wake_cause, signal_session_execution_wake,
}

-- A Session's current revision.
abbrev pub revision_of : Option ℕ → ℕ
revision_of none = 0
revision_of (some n) = n

-- No cause of the Session has a revision above the bound.
abbrev pub Capped : Text → ℕ → List WakeCause → Type 0
Capped session n [] = Unit {0}
Capped session n (c ∷ cs) = (c.session_id ≡ session → c.revision ≤ n) × Capped session n cs

-- The Session's causes lie within its revision, which fits in an `int64`.
pub record IsValid (session : Text) (db : Db) : Type 0 where
  pub capped : Capped session (revision_of (get session db.wakes)) db.wake_causes
  pub bounded : revision_of (get session db.wakes) ≤ max_int64

Capped-mono :
    (session : Text) (m n : ℕ) (cs : List WakeCause)
    → m ≤ n
    → Capped session m cs
    → Capped session n cs
Capped-mono session m n [] h c = tt
Capped-mono session m n (x ∷ cs) h c = (λ e. omega (arith, c.0 e), Capped-mono session m n cs h c.1)

not_taken :
    (session : Text) (m n : ℕ) (cs : List WakeCause)
    → Capped session m cs
    → m < n
    → revision_taken session n cs ≡ false
unfolding revision_taken
not_taken session m n [] c h = refl
not_taken session m n (x ∷ cs) c h =
    ground (arith, not_taken session m n cs c.1 h, ==_iff x.session_id session, c.0)

find_cause-le :
    (session cause : Text) (m n : ℕ) (cs : List WakeCause)
    → Capped session m cs
    → find_cause session cause cs ≡ some n
    → n ≤ m
unfolding find_cause
find_cause-le session cause m n [] c e = cc
find_cause-le session cause m n (x ∷ cs) c e =
    ground (arith, find_cause-le session cause m n cs c.1, ==_iff x.session_id session, c.0)

find_cause-new :
    (session cause : Text) (n : ℕ) (cs : List WakeCause)
    → find_cause session cause (wake_cause session cause n ∷ cs) ≡ some n
unfolding find_cause
find_cause-new session cause n cs = ground (arith, ==_iff session session, ==_iff cause cause)

module _ (service : Absurd) (session cause : Text) (db db' : Db) (n : ℕ) where
  -- A signal records its cause under the revision that it returns, and emits its event, once more
  -- where the cause was recorded before. A cause that was recorded keeps its revision, and then
  -- neither causes nor current revision move; a new cause takes the next revision, above all that the
  -- Session has recorded.
  pub signal-once :
      IsValid session db
      → signal_session_execution_wake service session cause db ≡ ok (n, db')
      → (find_cause session cause db'.wake_causes ≡ some n)
        × (n ≤ revision_of (get session db'.wakes))
        × (db'.absurd_calls ≡ emit_event session n cause ∷ db.absurd_calls)
        × (((find_cause session cause db.wake_causes ≡ some n)
              × (db'.wake_causes ≡ db.wake_causes)
              × (revision_of (get session db'.wakes) ≡ revision_of (get session db.wakes)))
            ⊎ ((find_cause session cause db.wake_causes ≡ none)
                × (n ≡ suc (revision_of (get session db.wakes)))
                × (revision_of (get session db'.wakes) ≡ n)))
  unfolding signal_session_execution_wake
  signal-once v h = ground (
    arith,
    get-put_self session 0 db.wakes,
    get-put_self session (revision_of (get session db.wakes) + 1) db.wakes,
    get-put_self session (revision_of (get session db.wakes) + 1) (put session 0 db.wakes),
    find_cause-new session cause (revision_of (get session db.wakes) + 1) db.wake_causes,
    find_cause-le session cause (revision_of (get session db.wakes)) n db.wake_causes v.capped,
  )

  -- So the state stays valid, and the revision stays within an `int64`.
  pub signal-IsValid :
      IsValid session db
      → signal_session_execution_wake service session cause db ≡ ok (n, db')
      → IsValid session db'
  unfolding signal_session_execution_wake
  signal-IsValid v h = ground (
    arith,
    get-put_self session 0 db.wakes,
    get-put_self session (revision_of (get session db.wakes) + 1) db.wakes,
    get-put_self session (revision_of (get session db.wakes) + 1) (put session 0 db.wakes),
    Capped-mono session (revision_of (get session db.wakes))
        (revision_of (get session db.wakes) + 1) db.wake_causes,
    v.capped,
    v.bounded,
  )

  -- A signal touches the wakes and Absurd only.
  pub signal-frame :
      signal_session_execution_wake service session cause db ≡ ok (n, db')
      → db' ≡ record db {
        wakes = db'.wakes;
        wake_causes = db'.wake_causes;
        absurd_calls = db'.absurd_calls;
      }
  unfolding signal_session_execution_wake
  signal-frame h = ground arith
