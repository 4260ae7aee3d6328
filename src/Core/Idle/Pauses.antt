-- ===== src/Core/Idle/Pauses.antt =====
-- When a Sandbox is paused.
use dorf.Base.{
  ◌≡◌, refl, ◌⊎◌, inl, inr, Bool, true, false, if◌then◌else◌, some, Option-cases, List, [], ◌∷◌,
  Text, ◌==◌, arith, Bool-cases, ==_iff,
}
use dorf.Base.Results.{ok, err, Result-cases, Error, message}
use dorf.Core.Domain.{Session, Sandbox}
use dorf.Core.Native.{NativeSession, is_pending_mutation, native_idle}
use dorf.Core.Idle.{
  SandboxPauser, sandbox_idle_grace_period, can_pause, session_sandboxes, pause_idle,
  reconcile_idle,
}
use dorf.Effects.{
  Call, asked_native, paused_sandbox, World, ◌>>=◌, ◌>>◌, pure, fail, branch, refuse_if, transact,
  look_up, call,
}
use dorf.Store.Table.{get, put, get-put_self}
use dorf.Store.Db.{SessionRow, Db}
use dorf.Store.Sandboxes.{session_of, find_session}
use dorf.Store.Native.{state_of, is_settled}
use dorf.Store.Activity.{active_since, is_idle_for, sandbox_idle_for}

-- A log in which every pause comes directly after the native Session said that the Sandbox is idle.
pub data IsAsked (n : NativeSession) (s : Session) (base : List Call) : List Call → Type 0 where
  start : IsAsked n s base base
  asked :
      (b : Sandbox) {calls : List Call}
      → IsAsked n s base calls
      → IsAsked n s base (asked_native b.resource_id ∷ calls)
  paused :
      (b : Sandbox) {calls : List Call}
      → b.session_id ≡ s.id
      → n.native_idle calls s b ≡ ok true
      → IsAsked n s base calls
      → IsAsked n s base (paused_sandbox b.resource_id ∷ asked_native b.resource_id ∷ calls)

abbrev pub refreshed : Text → SessionRow → Db → Db
refreshed id r db = record db { sessions = put id (active_since r db.clock) db.sessions }

settled-not_pending :
    (r : SessionRow) → is_settled r ≡ true → is_pending_mutation (state_of r) ≡ false
unfolding is_pending_mutation
settled-not_pending r h = elim (Option-cases r.native_pending_input_id) [
  | inr (a, p) ↦ absurd (ground (arith, h, p))
  | inl p ↦ elim (Option-cases r.native_pending_turn_id) [
    | inr (a, q) ↦ absurd (ground (arith, h, p, q))
    | inl q ↦ ground (arith, p, q)
  ]
]

asks :
    (n : NativeSession) (s : Session) (b : Sandbox) (w : World) (r : SessionRow)
    → get s.id w.db.sessions ≡ some r
    → is_pending_mutation (state_of r) ≡ false
    → (s.thread_id == []) ≡ false
    → native_idle (some n) s b w
      ≡ (n.native_idle w.calls s b, record w { calls = asked_native b.resource_id ∷ w.calls })
unfolding native_idle call transact branch pure fail ◌>>=◌ ◌>>◌
asks n s b w r e p t = ground (arith, e, p, t)

abbrev IsCareful : NativeSession → Session → List Call → Db → World → Type 0
IsCareful n s base db w = (w.db ≡ db) × IsAsked n s base w.calls

-- One round of the loop, on a Sandbox of the Session.
round :
    (p : SandboxPauser) (n : NativeSession) (s : Session) (b : Sandbox) (bs : List Sandbox)
    (w w1 : World) (idle : Bool)
    → (b.session_id == s.id) ≡ true
    → native_idle (some n) s b w ≡ (ok idle, w1)
    → pause_idle p (some n) s (b ∷ bs) w ≡ (
        if idle
        then (call (paused_sandbox b.resource_id) (λ calls. p.sandbox_pause calls s b)
              >> pause_idle p (some n) s bs)
            w1
        else (ok tt, w1))
unfolding pause_idle refuse_if branch pure ◌>>=◌ ◌>>◌
round p n s b bs w w1 true f e = ground (arith, f, e)
round p n s b bs w w1 false f e = ground (arith, f, e)

unanswered :
    (p : SandboxPauser) (n : NativeSession) (s : Session) (b : Sandbox) (bs : List Sandbox)
    (w w1 : World) (x : Error)
    → (b.session_id == s.id) ≡ true
    → native_idle (some n) s b w ≡ (err x, w1)
    → pause_idle p (some n) s (b ∷ bs) w ≡ (err x, w1)
unfolding pause_idle refuse_if branch pure ◌>>=◌ ◌>>◌
unanswered p n s b bs w w1 x f e = ground (arith, f, e)

foreign :
    (p : SandboxPauser) (n : NativeSession) (s : Session) (b : Sandbox) (bs : List Sandbox)
    (w : World)
    → (b.session_id == s.id) ≡ false
    → pause_idle p (some n) s (b ∷ bs) w
      ≡ (err (message "idle Sandbox has a different Session owner"), w)
unfolding pause_idle refuse_if ◌>>=◌ ◌>>◌
foreign p n s b bs w f = ground (arith, f)

-- Where no mutation is pending, the loop keeps the database and a careful log.
loop-IsCareful :
    (p : SandboxPauser) (n : NativeSession) (s : Session) (base : List Call) (bs : List Sandbox)
    (w : World) (r : SessionRow)
    → get s.id w.db.sessions ≡ some r
    → is_pending_mutation (state_of r) ≡ false
    → (s.thread_id == []) ≡ false
    → IsAsked n s base w.calls
    → IsCareful n s base w.db (pause_idle p (some n) s bs w).1
unfolding pause_idle refuse_if branch call pure ◌>>=◌ ◌>>◌
loop-IsCareful p n s base [] w r e q t h = (refl, h)
loop-IsCareful p n s base (b ∷ bs) w r e q t h =
    let w1 = record w { calls = asked_native b.resource_id ∷ w.calls } in
    let w2 = record w1 { calls = paused_sandbox b.resource_id ∷ w1.calls } in
    let question = asks n s b w r e q t in
    elim (Bool-cases (b.session_id == s.id)) [
      | inr f ↦ rw (foreign p n s b bs w f) (refl, h)
      | inl f ↦ elim (Result-cases (n.native_idle w.calls s b)) [
        | inr (x, a) ↦ rw (unanswered p n s b bs w w1 x f (rw (question, a))) (refl, asked b h)
        | inl (false, a) ↦ rw (round p n s b bs w w1 false f (rw (question, a))) (refl, asked b h)
        | inl (true, a) ↦
            let next = paused b ((==_iff b.session_id s.id).0 f) a h in
            rw (round p n s b bs w w1 true f (rw (question, a)))
              (elim (Result-cases (p.sandbox_pause w1.calls s b)) [
                | inr (x, c) ↦ rw c (refl, next)
                | inl (u, c) ↦ rw c (loop-IsCareful p n s base bs w2 r e q t next)
              ])
      ]
    ]

-- What was right about a run from `w` to `w'`, on the Session's row `r`.
pub record IsIdleRun (p : SandboxPauser) (n : NativeSession) (id : Text) (r : SessionRow)
    (w w' : World) : Type 0 where
  pub kept : (w'.db ≡ w.db) ⊎ (w'.db ≡ refreshed id r w.db)
  pub allowed :
      (w'.calls ≡ w.calls)
      ⊎ ((p.power_free w.calls ≡ true)
          × (can_pause (session_of w.db id r) ≡ true)
          × (is_idle_for w.db id sandbox_idle_grace_period (active_since r w.db.clock) ≡ true))
  pub careful : IsAsked n (session_of w.db id r) w.calls w'.calls

module _ (p : SandboxPauser) (n : NativeSession) (id : Text) (r : SessionRow) (w : World) where
  still :
      (db : Db)
      → (db ≡ w.db) ⊎ (db ≡ refreshed id r w.db)
      → IsIdleRun p n id r w (record w { db = db })
  still db k = record { kept = k; allowed = inl refl; careful = start }

  -- The guards before the loop.
  guarded :
      get id w.db.sessions ≡ some r
      → (id == []) ≡ false
      → p.power_free w.calls ≡ true
      → can_pause (session_of w.db id r) ≡ true
      → is_idle_for w.db id sandbox_idle_grace_period (active_since r w.db.clock) ≡ true
      → reconcile_idle (some p) (some n) id w
        ≡ pause_idle p
            (some n)
            (session_of w.db id r)
            (session_sandboxes (refreshed id r w.db) id)
            (record w { db = refreshed id r w.db })
  unfolding reconcile_idle sandbox_idle_for find_session look_up transact refuse_if branch ◌>>=◌
      ◌>>◌
  guarded e i f c d = ground (arith, e, i, f, c, d, (==_iff id id).1 refl)

  declines :
      get id w.db.sessions ≡ some r
      → ((id == []) ≡ true)
        ⊎ (((id == []) ≡ false) × (p.power_free w.calls ≡ false))
        ⊎ (((id == []) ≡ false)
            × (p.power_free w.calls ≡ true)
            × (can_pause (session_of w.db id r) ≡ false))
      → (reconcile_idle (some p) (some n) id w).1 ≡ w
  unfolding reconcile_idle find_session look_up refuse_if branch pure fail ◌>>=◌ ◌>>◌
  declines e (inl i) = ground (arith, i)
  declines e (inr (inl (i, f))) = ground (arith, i, f)
  declines e (inr (inr (i, f, c))) = ground (arith, e, i, f, c, (==_iff id id).1 refl)

  busy :
      get id w.db.sessions ≡ some r
      → (id == []) ≡ false
      → p.power_free w.calls ≡ true
      → can_pause (session_of w.db id r) ≡ true
      → is_idle_for w.db id sandbox_idle_grace_period (active_since r w.db.clock) ≡ false
      → (reconcile_idle (some p) (some n) id w).1 ≡ record w { db = refreshed id r w.db }
  unfolding reconcile_idle sandbox_idle_for find_session look_up transact refuse_if branch pure
      ◌>>=◌ ◌>>◌
  busy e i f c d = ground (arith, e, i, f, c, d, (==_iff id id).1 refl)

  -- For a Session that has a native thread, whatever the provider and the native Session answer: a
  -- reconciliation changes at most the time of the last activity; it calls nothing unless nobody uses
  -- the Sandboxes, the Session may be paused and it has been idle for the grace period, with no native
  -- mutation and no hold; and each pause comes directly after the native Session said that this
  -- Sandbox of the Session is idle.
  pub reconcile_idle-IsIdleRun :
      get id w.db.sessions ≡ some r
      → ((session_of w.db id r).thread_id == []) ≡ false
      → IsIdleRun p n id r w (reconcile_idle (some p) (some n) id w).1
  reconcile_idle-IsIdleRun e t = elim (Bool-cases (id == [])) [
    | inl i ↦ rw (declines e (inl i)) (still w.db (inl refl))
    | inr i ↦ elim (Bool-cases (p.power_free w.calls)) [
      | inr f ↦ rw (declines e (inr (inl (i, f)))) (still w.db (inl refl))
      | inl f ↦ elim (Bool-cases (can_pause (session_of w.db id r))) [
        | inr c ↦ rw (declines e (inr (inr (i, f, c)))) (still w.db (inl refl))
        | inl c ↦
            elim (Bool-cases
              (is_idle_for w.db id sandbox_idle_grace_period (active_since r w.db.clock))) [
                | inr d ↦ rw (busy e i f c d) (still (refreshed id r w.db) (inr refl))
                | inl d ↦
                    let idle = active_since r w.db.clock in
                    let q = settled-not_pending idle (ground (arith, d)) in
                    let run =
                      loop-IsCareful p n (session_of w.db id r) w.calls
                        (session_sandboxes (refreshed id r w.db) id)
                        (record w { db = refreshed id r w.db }) idle
                        (get-put_self id idle w.db.sessions) q t start in
                    rw (guarded e i f c d)
                      (record { kept = inr run.0; allowed = inr (f, c, d); careful = run.1 })
              ]
      ]
    ]
  ]
