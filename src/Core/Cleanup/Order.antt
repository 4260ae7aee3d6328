-- ===== src/Core/Cleanup/Order.antt =====
-- What a cleanup run calls, and the Action that cleanup stands at.
use dorf.Base.{
  ◌≡◌, refl, ◌≢◌, ◌⊎◌, inl, inr, Bool, true, false, Option, none, some, List, [], ◌∷◌, Text, All,
  arith, Bool-cases,
}
use dorf.Base.Results.{ok, Result-cases}
use dorf.Std.Strings.{text_before}
use dorf.Core.Domain.{
  ActionKind, route_revoke, sandbox_delete, Action, Sandbox, Session, has_succeeded_action,
  is_complete,
}
use dorf.Store.Db.{Db}
use dorf.Core.Cleanup.{
  CleanupTarget, insert_sandbox, sort_sandboxes, targets_of, cleanup_targets, first_pending,
  current_cleanup_action, CleanupCall, prepared, completed, executed, Run, CleanupExecution,
  execute_all, clear_note, run_cleanup,
}

abbrev pub IsCleaned : List Action → Sandbox → Type 0
IsCleaned actions s =
    (has_succeeded_action actions route_revoke s.id ≡ true)
    × (has_succeeded_action actions sandbox_delete s.id ≡ true)

All-placed :
    (P : Sandbox → Type 0) (s x : Sandbox) (xs rest : List Sandbox) (test : Bool)
    → (All P rest → P s × All P xs)
    → All P (elim test as (λ _. List Sandbox) [ true ↦ s ∷ x ∷ xs | false ↦ x ∷ rest ])
    → P s × All P (x ∷ xs)
All-placed P s x xs rest true k h = h
All-placed P s x xs rest false k h = let (p, ps) = k h.1 in (p, (h.0, ps))

All-insert :
    (P : Sandbox → Type 0) (s : Sandbox) (xs : List Sandbox)
    → All P (insert_sandbox s xs)
    → P s × All P xs
unfolding insert_sandbox
All-insert P s [] h = h
All-insert P s (x ∷ xs) h =
    All-placed P s x xs (insert_sandbox s xs) (text_before s.id x.id) (All-insert P s xs) h

All-sort : (P : Sandbox → Type 0) (xs : List Sandbox) → All P (sort_sandboxes xs) → All P xs
unfolding sort_sandboxes
All-sort P [] h = tt
All-sort P (x ∷ xs) h = let (p, ps) = All-insert P x (sort_sandboxes xs) h in (p, All-sort P xs ps)

abbrev IsCurrent : List Sandbox → List Action → Option (ActionKind × Text) → Type 0
IsCurrent sandboxes actions current =
    ((current ≡ none) × All (IsCleaned actions) sandboxes)
    ⊎ ((kind : ActionKind) × (id : Text) × (current ≡ some (kind, id))
        × (has_succeeded_action actions kind id ≡ false)
        × ((kind ≢ sandbox_delete) ⊎ (has_succeeded_action actions route_revoke id ≡ true)))

first_pending-IsCurrent :
    (ss : List Sandbox) (actions : List Action)
    → IsCurrent ss actions (first_pending (targets_of ss) actions)
unfolding first_pending targets_of
first_pending-IsCurrent [] actions = inl (refl, tt)
first_pending-IsCurrent (s ∷ ss) actions =
    elim (Bool-cases (has_succeeded_action actions route_revoke s.id)) [
      | inr e ↦ inr (route_revoke, s.id, ground (arith, e), e, inl (λ q. cc))
      | inl e ↦ elim (Bool-cases (has_succeeded_action actions sandbox_delete s.id)) [
        | inr f ↦ inr (sandbox_delete, s.id, ground (arith, e, f), f, inr e)
        | inl f ↦ elim (first_pending-IsCurrent ss actions) [
          | inl (q, all) ↦ inl (ground (arith, e, f, q), ((e, f), all))
          | inr (kind, id, q, p, o) ↦ inr (kind, id, ground (arith, e, f, q), p, o)
        ]
      ]
    ]

-- The current cleanup Action is one that has not succeeded, and it deletes a Sandbox only after the
-- Sandbox's route was revoked; there is none only where every Sandbox had both succeed.
pub current-IsCurrent :
    (sandboxes : List Sandbox) (actions : List Action)
    → ((current_cleanup_action sandboxes actions ≡ none) × All (IsCleaned actions) sandboxes)
      ⊎ ((kind : ActionKind) × (id : Text) × (current_cleanup_action sandboxes actions
            ≡ some (kind, id))
          × (has_succeeded_action actions kind id ≡ false)
          × ((kind ≢ sandbox_delete) ⊎ (has_succeeded_action actions route_revoke id ≡ true)))
unfolding current_cleanup_action cleanup_targets
current-IsCurrent sandboxes actions =
    elim (first_pending-IsCurrent (sort_sandboxes sandboxes) actions) [
      | inl (q, all) ↦ inl (q, All-sort (IsCleaned actions) sandboxes all)
      | inr next ↦ inr next
    ]

-- The calls of a whole run over the targets, newest first.
unfoldable pub executions : List CleanupTarget → List CleanupCall → List CleanupCall
executions [] calls = calls
executions (t ∷ ts) calls = executions ts (executed t.sandbox.id t.kind ∷ calls)

module _ (service : CleanupExecution) where
  execute_all-calls :
      (session owner : Text) (ts : List CleanupTarget) (w : Run)
      → (execute_all service session owner ts w).0 ≡ ok tt
      → (execute_all service session owner ts w).1.calls ≡ executions ts w.calls
  unfolding execute_all executions
  execute_all-calls session owner [] w h = refl
  execute_all-calls session owner (t ∷ ts) w h =
      let (result, db) = service.execute_sandbox_action w owner t.sandbox.id t.kind in
      let w1 : Run = record { db = db; calls = executed t.sandbox.id t.kind ∷ w.calls } in
      elim (Result-cases result) [
        | inl (u, e) ↦ ground (arith, e, execute_all-calls session owner ts w1)
        | inr (x, e) ↦ ground (arith, e)
      ]

  -- The targets were executed in order, and each execution was accepted on the state that the one
  -- before left; each was logged.
  abbrev pub AreExecuted : Text → List CleanupTarget → Run → Run → Type 0
  AreExecuted owner [] w w' = w' ≡ w
  AreExecuted owner (t ∷ ts) w w' =
      (db : Db) × (service.execute_sandbox_action w owner t.sandbox.id t.kind ≡ (ok tt, db))
      × AreExecuted owner ts (record { db = db; calls = executed t.sandbox.id t.kind ∷ w.calls }) w'

  execute_all-AreExecuted :
      (session owner : Text) (ts : List CleanupTarget) (w w' : Run)
      → execute_all service session owner ts w ≡ (ok tt, w')
      → AreExecuted owner ts w w'
  unfolding execute_all
  execute_all-AreExecuted session owner [] w w' h = ground (arith)
  execute_all-AreExecuted session owner (t ∷ ts) w w' h =
      let (result, db) = service.execute_sandbox_action w owner t.sandbox.id t.kind in
      let w1 : Run = record { db = db; calls = executed t.sandbox.id t.kind ∷ w.calls } in
      elim (Result-cases result) [
        | inr (x, e) ↦ absurd (ground (arith, e))
        | inl (u, e) ↦ (
          db,
          ground (arith, e),
          execute_all-AreExecuted session owner ts w1 w' (ground (arith, e)),
        )
      ]

  -- What stands behind a run from `w1` to `w'` that succeeded: every target was executed and accepted,
  -- in order, and then the completion was accepted, on the state that they left, and is the last call.
  pub record IsFinished (session owner : Text) (sandboxes : List Sandbox) (w1 w' : Run)
      : Type 0 where
    pub cleaned : Run
    pub each : AreExecuted owner (cleanup_targets sandboxes) w1 cleaned
    pub accepted : service.complete_cleanup cleaned session ≡ (ok tt, w'.db)
    pub calls : w'.calls ≡ completed session ∷ executions (cleanup_targets sandboxes) w1.calls

  -- A cleanup run that succeeds on a Session that is not complete has cleared an old cleanup
  -- attention, had every target executed and accepted, in order, and its completion, its last call,
  -- accepted on the state that they left; nothing else was called.
  pub run_cleanup-IsFinished :
      (session : Text) (w w' : Run) (s : Session) (sandboxes : List Sandbox) (db : Db)
      → service.prepare_cleanup w session ≡ (ok (s, sandboxes), db)
      → is_complete s.cleanup_state ≡ false
      → run_cleanup service session w ≡ (ok tt, w')
      → (db1 : Db) × (clear_note service session s db ≡ ok (tt, db1))
        × IsFinished session s.id sandboxes
            (record { db = db1; calls = prepared session ∷ w.calls })
            w'
  unfolding run_cleanup
  run_cleanup-IsFinished session w w' s sandboxes db e c h =
      elim (Result-cases (clear_note service session s db)) [
        | inr (x, f) ↦ absurd (ground (arith, e, c, f))
        | inl ((u, db1), f) ↦
            let w1 : Run = record { db = db1; calls = prepared session ∷ w.calls } in
            let ts = cleanup_targets sandboxes in
            let w2 = (execute_all service session s.id ts w1).1 in
            elim (Result-cases (execute_all service session s.id ts w1).0) [
              | inr (x, g) ↦ absurd (ground (arith, e, c, f, g))
              | inl (v, g) ↦ elim (Result-cases (service.complete_cleanup w2 session).0) [
                | inr (x, k) ↦ absurd (ground (arith, e, c, f, g, k))
                | inl (_, k) ↦ (
                  db1,
                  f,
                  record {
                    cleaned = w2;
                    each = execute_all-AreExecuted session s.id ts w1 w2 (ground (arith, g));
                    accepted = ground (arith, e, c, f, g, k);
                    calls = ground (arith, e, c, f, g, k, execute_all-calls session s.id ts w1 g);
                  },
                )
              ]
            ]
      ]
