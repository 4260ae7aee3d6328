-- ===== src/Upgrade/Service/Commits.antt =====
-- What a step of an upgrade that succeeds has committed: one statement, on the state that it met, and
-- then at most a change of attention.
use dorf.Base.{
  ◌≡◌, refl, subst, Bool, true, false, not, Option, some, List, [], ◌∷◌, String, Text, txt, ◌==◌,
  is_some, inl, inr, Bool-cases, Option-cases, arith, ◌⊎◌,
}
use dorf.Base.Results.{Result, ok, Error, Result-cases, Done}
use dorf.Core.Domain.{Sandbox}
use dorf.Upgrade.Receipt.{Receipt, Checkpoint}
use dorf.Store.Table.{update}
use dorf.Store.Db.{Db, Tx, Absurd}
use dorf.Store.Sandboxes.{record_sandbox_resource_deleted, find_sandbox_resource}
use dorf.Store.Attention.{clear_execution_attention, set_execution_attention}
use dorf.Store.Upgrades.{
  record_upgrade_preparation, record_upgrade_quiesced, record_upgrade_checkpoint,
  record_upgrade_activated, request_upgrade_rollback, reserve_upgrade_destination,
  record_upgrade_restored, record_upgrade_verified, record_upgrade_checkpoint_deleted,
}
use dorf.Store.Custody.{finish_sandbox_upgrade}
use dorf.Upgrade.Driver.{Driver}
use dorf.Effects.{
  World, Eff, Call, inspected_package, ◌>>=◌, ◌>>◌, transact, look_up, call, refuse_if, branch,
  fail, pure,
}
use dorf.Upgrade.Service.{
  require_claim, save, after_failure, perform, or_rollback, prepare, quiesce, capture, activate,
  restore, verified_target, verify, verify_target, delete_resource, delete_checkpoint, resume,
  source_text, failure_text,
}

-- The tables that a receipt is read from are those that the statement left.
pub record Commits (m : Tx Done) (w w' : World) : Type 0 where
  pub after : Db
  pub committed : m w.db ≡ ok (tt, after)
  pub upgrades : w'.db.upgrades ≡ after.upgrades
  pub sandboxes : w'.db.sandboxes ≡ after.sandboxes
  pub resources : w'.db.resources ≡ after.resources

call-ok :
    {A : Type 0} (c : Call) (answer : List Call → Result A) (k : A → Eff Done) (w w' : World)
    → (call c answer >>= k) w ≡ (ok tt, w')
    → (a : A) × (k a (record w { calls = c ∷ w.calls }) ≡ (ok tt, w'))
unfolding call ◌>>=◌
call-ok c answer k w w' h = elim (Result-cases (answer w.calls)) [
  | inr (e, bad) ↦ absurd (ground (arith))
  | inl (a, good) ↦ (a, ground (arith))
]

call_then-ok :
    (c : Call) (answer : List Call → Result Done) (k : Eff Done) (w w' : World)
    → (call c answer >> k) w ≡ (ok tt, w')
    → k (record w { calls = c ∷ w.calls }) ≡ (ok tt, w')
unfolding ◌>>◌
call_then-ok c answer k w w' h = (call-ok c answer (λ _. k) w w' h).1

pub branch-ok :
    (test : Bool) (m k : Eff Done) (w w' : World)
    → branch test m k w ≡ (ok tt, w')
    → ((test ≡ true) × (m w ≡ (ok tt, w'))) ⊎ ((test ≡ false) × (k w ≡ (ok tt, w')))
unfolding branch
branch-ok true m k w w' h = inl (refl, h)
branch-ok false m k w w' h = inr (refl, h)

pub look_up-ok :
    {A : Type 0} (f : Db → Option A) (e : Error) (k : A → Eff Done) (w w' : World)
    → (look_up f e >>= k) w ≡ (ok tt, w')
    → (a : A) × (f w.db ≡ some a) × (k a w ≡ (ok tt, w'))
unfolding look_up ◌>>=◌
look_up-ok f e k w w' h = elim (Option-cases (f w.db)) [
  | inl absent ↦ absurd (ground (arith))
  | inr (a, there) ↦ (a, there, ground (arith))
]

refuse_if-ok :
    (test : Bool) (s : String) (k : Eff Done) (w w' : World)
    → (refuse_if test s >> k) w ≡ (ok tt, w')
    → (test ≡ false) × (k w ≡ (ok tt, w'))
unfolding refuse_if ◌>>◌ ◌>>=◌
refuse_if-ok test s k w w' h = ground (arith)

module _ (service : Absurd) (driver : Driver) where
  save-ok :
      (m : Tx Done) (w w' : World) → save service driver m w ≡ (ok tt, w') → m w.db ≡ ok (tt, w'.db)
  unfolding save require_claim ◌>>◌ ◌>>=◌ call transact
  save-ok m w w' h = elim (Result-cases (driver.claim w.calls)) [
    | inr (e, bad) ↦ absurd (ground (arith))
    | inl (_, good) ↦ elim (Result-cases (m w.db)) [
      | inr (e, bad) ↦ absurd (ground (arith))
      | inl ((_, db), done) ↦ ground (arith)
    ]
  ]

  committed_at : (w w' : World) (m : Tx Done) → m w.db ≡ ok (tt, w'.db) → Commits m w w'
  committed_at w w' m h = record {
    after = w'.db;
    committed = h;
    upgrades = refl;
    sandboxes = refl;
    resources = refl;
  }

  after_failure-err :
      (r : Receipt) (name : Text) (w w' : World)
      → after_failure service driver r name w ≡ (ok tt, w')
      → ⊥
  unfolding require_claim ◌>>◌ ◌>>=◌ call transact fail
  after_failure-err r name w w' h = elim (Result-cases (driver.claim w.calls)) [
    | inr (e, bad) ↦ ground (arith)
    | inl (_, good) ↦
        elim (Result-cases
          (set_execution_attention r.session_id (source_text r) (failure_text name) w.db)) [
            | inr (e, bad) ↦ ground (arith)
            | inl ((_, db), done) ↦ ground (arith)
          ]
  ]

  -- A step that succeeds has done its work.
  perform-ok :
      (r : Receipt) (name : Text) (fn : Eff Done) (w w' : World)
      → perform service driver r name fn w ≡ (ok tt, w')
      → (w1 : World) × (fn w ≡ (ok tt, w1)) × ((m : Tx Done) → Commits m w w1 → Commits m w w')
  unfolding perform transact clear_execution_attention update
  perform-ok r name fn w w' h = elim (Result-cases (fn w).0) [
    | inr (e, bad) ↦ absurd (after_failure-err r name (fn w).1 w' (ground (arith)))
    | inl (_, good) ↦ (
      (fn w).1,
      ground (arith),
      λ m c. record {
        after = c.after;
        committed = c.committed;
        upgrades = ground (arith, c.upgrades);
        sandboxes = ground (arith, c.sandboxes);
        resources = ground (arith, c.resources);
      },
    )
  ]

  or_rollback-Commits :
      (r : Receipt) (code : Text) (may : Bool) (effect : Eff Done) (fact : Tx Done) (w w' : World)
      → ((effect w).1.db ≡ w.db)
      → or_rollback service driver r code may effect fact w ≡ (ok tt, w')
      → Commits fact w w' ⊎ ((may ≡ true) × Commits (request_upgrade_rollback r.id code) w w')
  unfolding or_rollback
  or_rollback-Commits r code may effect fact w w' same h = elim (Result-cases (effect w).0) [
    | inl (_, good) ↦
        let done = save-ok fact (effect w).1 w' (ground (arith)) in
        inl (record {
          after = w'.db;
          committed = subst (λ d. fact d ≡ ok (tt, w'.db)) same done;
          upgrades = refl;
          sandboxes = refl;
          resources = refl;
        })
    | inr (e, bad) ↦ elim (Bool-cases may) [
      | inl m ↦
          let ask : Tx Done = request_upgrade_rollback r.id code in
          let done = save-ok ask (effect w).1 w' (ground (arith)) in
          inr (
            m,
            record {
              after = w'.db;
              committed = subst (λ d. ask d ≡ ok (tt, w'.db)) same done;
              upgrades = refl;
              sandboxes = refl;
              resources = refl;
            },
          )
      | inr m ↦ absurd (ground (arith))
    ]
  ]

  pub prepare-Commits :
      (r : Receipt) (source : Sandbox) (w w' : World)
      → prepare service driver r source w ≡ (ok tt, w')
      → (version : Text) × ((version == []) ≡ false)
        × Commits (record_upgrade_preparation r.id version) w w'
  unfolding prepare
  prepare-Commits r source w w' h =
      let (w1, worked, keep) = perform-ok r (txt "prepare") _ w w' h in
      let (version, rest) = call-ok _ _ _ w w1 worked in
      let (said, saved) = refuse_if-ok _ _ _ _ w1 rest in
      let w0 : World = record w { calls = inspected_package source.resource_id ∷ w.calls } in
      let c = save-ok (record_upgrade_preparation r.id version) w0 w1 saved in
      (version, said, keep _ (committed_at w w1 _ c))

  pub quiesce-Commits :
      (r : Receipt) (source : Sandbox) (w w' : World)
      → quiesce service driver r source w ≡ (ok tt, w')
      → Commits (record_upgrade_quiesced r.id) w w'
  unfolding quiesce
  quiesce-Commits r source w w' h =
      let (w1, worked, keep) = perform-ok r (txt "quiesce") _ w w' h in
      let (session, there, rest) = look_up-ok _ _ _ w w1 worked in
      let saved = call_then-ok _ _ _ w w1 rest in
      keep _ (committed_at w w1 _ (save-ok (record_upgrade_quiesced r.id) _ w1 saved))

  pub capture-Commits :
      (r : Receipt) (source : Sandbox) (w w' : World)
      → capture service driver r source w ≡ (ok tt, w')
      → (c : Checkpoint) × Commits (record_upgrade_checkpoint r.id c) w w'
  unfolding capture
  capture-Commits r source w w' h =
      let (w1, worked, keep) = perform-ok r (txt "checkpoint") _ w w' h in
      let (c, rest) = call-ok _ _ _ w w1 worked in
      let (same, saved) = refuse_if-ok _ _ _ _ w1 rest in
      (c, keep _ (committed_at w w1 _ (save-ok (record_upgrade_checkpoint r.id c) _ w1 saved)))

  call-db :
      (c : Call) (answer : List Call → Result Done) (w : World) → (call c answer w).1.db ≡ w.db
  unfolding call
  call-db c answer w = refl

  pub activate-Commits :
      (r : Receipt) (source : Sandbox) (w w' : World)
      → activate service driver r source w ≡ (ok tt, w')
      → Commits (record_upgrade_activated r.id) w w'
        ⊎ Commits (request_upgrade_rollback r.id (txt "activation_failed")) w w'
  unfolding activate
  activate-Commits r source w w' h =
      let (w1, worked, keep) = perform-ok r (txt "activate") _ w w' h in
      elim (or_rollback-Commits r _ _ _ _ w w1 (call-db _ _ w) worked) [
        | inl c ↦ inl (keep _ c)
        | inr (_, c) ↦ inr (keep _ c)
      ]

  pub restore-Commits :
      (nonce : Text) (r : Receipt) (source : Sandbox) (w w' : World)
      → restore service driver nonce r source w ≡ (ok tt, w')
      → (((r.destination_resource_id == []) ≡ true)
          × Commits (reserve_upgrade_destination r driver.replaces_resource nonce) w w')
        ⊎ (((r.destination_resource_id == []) ≡ false)
            × (provider : Text) × Commits (record_upgrade_restored r provider) w w')
  unfolding restore
  restore-Commits nonce r source w w' h = elim (branch-ok _ _ _ w w' h) [
    | inl (unbound, reserving) ↦
        let (w1, worked, keep) = perform-ok r (txt "reserve-recovery") _ w w' reserving in
        inl (unbound, keep _ (committed_at w w1 _ (save-ok _ w w1 worked)))
    | inr (bound, restoring) ↦
        let (destination, there, rest) = look_up-ok _ _ _ w w' restoring in
        let (w1, worked, keep) = perform-ok r (txt "restore") _ w w' rest in
        let (id, saved) = call-ok _ _ _ w w1 worked in
        inr (
          bound,
          id,
          keep _ (committed_at w w1 _ (save-ok (record_upgrade_restored r id) _ w1 saved)),
        )
  ]

  verify_target-Commits :
      (r : Receipt) (destination : Sandbox) (version : Text) (w w' : World)
      → verify_target service driver r destination version w ≡ (ok tt, w')
      → Commits (record_upgrade_verified r.id) w w'
        ⊎ ((not (is_some r.rollback_at) ≡ true)
            × Commits (request_upgrade_rollback r.id (txt "verification_failed")) w w')
  verify_target-Commits r destination version w w' h =
      let (w1, worked, keep) = perform-ok r (txt "verify") _ w w' h in
      let (session, there, rest) = look_up-ok _ _ _ w w1 worked in
      elim (or_rollback-Commits r _ _ _ _ w w1 (call-db _ _ w) rest) [
        | inl c ↦ inl (keep _ c)
        | inr (may, c) ↦ inr (may, keep _ c)
      ]

  target-ok :
      (r : Receipt) (source : Sandbox) (k : Sandbox × Text → Eff Done) (w w' : World)
      → (verified_target service driver r source >>= k) w ≡ (ok tt, w')
      → (t : Sandbox × Text) × (k t w ≡ (ok tt, w'))
  unfolding ◌>>=◌ branch look_up pure
  target-ok r source k w w' h = elim (Bool-cases (is_some r.rollback_at)) [
    | inr forward ↦ ((source, r.version), ground (arith))
    | inl back ↦
        elim (Option-cases
          (find_sandbox_resource w.db r.session_id r.sandbox_id r.destination_resource_id)) [
            | inl absent ↦ absurd (ground (arith))
            | inr (d, there) ↦ ((d, r.previous_version), ground (arith))
          ]
  ]

  pub verify-Commits :
      (r : Receipt) (source : Sandbox) (w w' : World)
      → verify service driver r source w ≡ (ok tt, w')
      → Commits (record_upgrade_verified r.id) w w'
        ⊎ ((not (is_some r.rollback_at) ≡ true)
            × Commits (request_upgrade_rollback r.id (txt "verification_failed")) w w')
  unfolding verify
  verify-Commits r source w w' h =
      let (t, rest) = target-ok r source _ w w' h in verify_target-Commits r t.0 t.1 w w' rest

  pub delete_resource-Commits :
      (r : Receipt) (owned : Sandbox) (w w' : World)
      → delete_resource service driver r owned w ≡ (ok tt, w')
      → Commits (record_sandbox_resource_deleted owned) w w'
  unfolding delete_resource
  delete_resource-Commits r owned w w' h =
      let (w1, worked, keep) = perform-ok r (txt "resource-cleanup") _ w w' h in
      let saved = call_then-ok _ _ _ w w1 worked in
      keep _ (committed_at w w1 _ (save-ok (record_sandbox_resource_deleted owned) _ w1 saved))

  pub delete_checkpoint-Commits :
      (r : Receipt) (source : Sandbox) (w w' : World)
      → delete_checkpoint service driver r source w ≡ (ok tt, w')
      → Commits (record_upgrade_checkpoint_deleted r.id) w w'
  unfolding delete_checkpoint
  delete_checkpoint-Commits r source w w' h =
      let (w1, worked, keep) = perform-ok r (txt "checkpoint-cleanup") _ w w' h in
      let saved = call_then-ok _ _ _ w w1 worked in
      keep _ (committed_at w w1 _ (save-ok (record_upgrade_checkpoint_deleted r.id) _ w1 saved))

  pub resume-Commits :
      (r : Receipt) (w w' : World)
      → resume service driver r w ≡ (ok tt, w')
      → Commits (finish_sandbox_upgrade service r) w w'
  resume-Commits r w w' h =
      let (w1, worked, keep) = perform-ok r (txt "resume") _ w w' h in
      keep _ (committed_at w w1 _ (save-ok _ w w1 worked))
