-- ===== src/Upgrade/Service/Failures.antt =====
-- A step of an upgrade that fails leaves the tables that its receipt is read from.
use dorf.Base.{
  ◌≡◌, refl, subst, ◌∙◌, Bool, true, false, Option, List, [], ◌++◌, String, Text, txt, ◌==◌, inl,
  inr, arith, Bool-cases, Option-cases,
}
use dorf.Base.Results.{Result, ok, err, Error, Done, Result-cases}
use dorf.Std.Strings.{trim_space-keeps}
use dorf.Core.Domain.{Sandbox}
use dorf.Upgrade.Receipt.{Receipt}
use dorf.Upgrade.Driver.{Driver}
use dorf.Store.Table.{update}
use dorf.Store.Db.{Db, Tx, Absurd}
use dorf.Store.Attention.{set_execution_attention, clear_execution_attention}
use dorf.Store.Upgrades.{request_upgrade_rollback}
use dorf.Effects.{
  Call, World, Eff, ◌>>=◌, ◌>>◌, pure, fail, branch, refuse_if, transact, look_up, call,
}
use dorf.Upgrade.Service.{
  source_text, failure_text, require_claim, save, after_failure, perform, or_rollback, prepare,
  quiesce, capture, activate, restore, verified_target, verify, delete_resource, delete_checkpoint,
  resume, finish, dispatch, step, resource_deleted,
}

pub record Same (db db' : Db) : Type 0 where
  pub upgrades : db'.upgrades ≡ db.upgrades
  pub sandboxes : db'.sandboxes ≡ db.sandboxes
  pub resources : db'.resources ≡ db.resources

Same-refl : (db : Db) → Same db db
Same-refl db = record { upgrades = refl; sandboxes = refl; resources = refl }

Same-trans : (a b c : Db) → Same a b → Same b c → Same a c
Same-trans a b c h k = record {
  upgrades = k.upgrades ∙ h.upgrades;
  sandboxes = k.sandboxes ∙ h.sandboxes;
  resources = k.resources ∙ h.resources;
}

abbrev Reads : {A : Type 0} → Eff A → Type 0
Reads m = (w : World) → (m w).1.db ≡ w.db

-- Where it fails, it has changed none of those tables.
abbrev Undoes : {A : Type 0} → Eff A → Type 0
Undoes m = (w : World) (e : Error) → (m w).0 ≡ err e → Same w.db (m w).1.db

Reads-Undoes : {A : Type 0} (m : Eff A) → Reads m → Undoes m
Reads-Undoes m h w e _ = rw (h w) (Same-refl w.db)

bind-Undoes :
    {A B : Type 0} (m : Eff A) (f : A → Eff B)
    → Reads m
    → ((a : A) → Undoes (f a))
    → Undoes (m >>= f)
unfolding ◌>>=◌
bind-Undoes m f h k w e bad = elim (Result-cases (m w).0) [
  | inl (a, q) ↦
      let same : (m >>= f) w ≡ f a (m w).1 = ground (arith, q) in
      rw same (
        subst (λ d. Same d (f a (m w).1).1.db) (h w)
          (k a (m w).1 e (subst (λ z. z.0 ≡ err e) same bad)))
  | inr (x, q) ↦
      let same : (m >>= f) w ≡ (err x, (m w).1) = ground (arith, q) in
      rw (same, h w) (Same-refl w.db)
]

then-Undoes : {B : Type 0} (m : Eff Done) (k : Eff B) → Reads m → Undoes k → Undoes (m >> k)
unfolding ◌>>◌
then-Undoes m k h q = bind-Undoes m (λ _. k) h (λ _. q)

branch-Undoes :
    {A : Type 0} (test : Bool) (m k : Eff A) → Undoes m → Undoes k → Undoes (branch test m k)
unfolding branch
branch-Undoes true m k h q = h
branch-Undoes false m k h q = q

look_up-Reads : {A : Type 0} (f : Db → Option A) (e : Error) → Reads (look_up f e)
unfolding look_up
look_up-Reads f e w = elim (Option-cases (f w.db)) [
  | inl q ↦ ground (arith, q)
  | inr (a, q) ↦ ground (arith, q)
]

call-Reads : {A : Type 0} (c : Call) (f : List Call → Result A) → Reads (call c f)
unfolding call
call-Reads c f w = refl

refuse_if-Reads : (test : Bool) (s : String) → Reads (refuse_if test s)
unfolding refuse_if
refuse_if-Reads true s w = refl
refuse_if-Reads false s w = refl

transact-Undoes : {A : Type 0} (m : Tx A) → Undoes (transact m)
unfolding transact
transact-Undoes m w e bad = elim (Result-cases (m w.db)) [
  | inl ((a, db), q) ↦ absurd (ground (arith, q, bad))
  | inr (x, q) ↦
      let same : transact m w ≡ (err x, w) = ground (arith, q) in rw same (Same-refl w.db)
]

clear-ok :
    (session id : Text) (w : World)
    → (session == []) ≡ false
    → (transact (clear_execution_attention session (txt "upgrade:" ++ id)) w).0 ≡ ok tt
unfolding clear_execution_attention transact
clear-ok session id w h = ground (arith, h, trim_space-keeps (txt "pgrade:" ++ id))

set-Same :
    (session source detail : Text) (w : World)
    → Same w.db (transact (set_execution_attention session source detail) w).1.db
unfolding set_execution_attention transact update
set-Same session source detail w = record {
  upgrades = ground arith;
  sandboxes = ground arith;
  resources = ground arith;
}

abbrev Minds : {A : Type 0} → Eff A → Type 0
Minds m = (w : World) → Same w.db (m w).1.db

then-Minds : {B : Type 0} (m : Eff Done) (k : Eff B) → Minds m → Minds k → Minds (m >> k)
unfolding ◌>>◌ ◌>>=◌
then-Minds m k h q w = elim (Result-cases (m w).0) [
  | inl (a, e) ↦
      let same : (m >> k) w ≡ k (m w).1 = ground (arith, e) in
      rw same (Same-trans w.db (m w).1.db (k (m w).1).1.db (h w) (q (m w).1))
  | inr (x, e) ↦ let same : (m >> k) w ≡ (err x, (m w).1) = ground (arith, e) in rw same (h w)
]

fail-Minds : (e : Error) → Minds (fail {A = Done} e)
unfolding fail
fail-Minds e w = Same-refl w.db

call-Minds : {A : Type 0} (c : Call) (f : List Call → Result A) → Minds (call c f)
unfolding call
call-Minds c f w = Same-refl w.db

module _ (service : Absurd) (driver : Driver) where
  save-Undoes : (m : Tx Done) → Undoes (save service driver m)
  unfolding save require_claim
  save-Undoes m = then-Undoes _ _ (call-Reads _ _) (transact-Undoes m)

  after_failure-Minds : (r : Receipt) (name : Text) → Minds (after_failure service driver r name)
  unfolding require_claim
  after_failure-Minds r name =
      then-Minds _ _ (call-Minds _ _)
        (then-Minds _ _ (set-Same r.session_id (source_text r) (failure_text name)) (fail-Minds _))

  or_rollback-Undoes :
      (r : Receipt) (code : Text) (may : Bool) (effect : Eff Done) (fact : Tx Done)
      → Reads effect
      → Undoes (or_rollback service driver r code may effect fact)
  unfolding or_rollback
  or_rollback-Undoes r code may effect fact h w e bad = elim (Result-cases (effect w).0) [
    | inl (_, q) ↦
        let same : or_rollback service driver r code may effect fact w
            ≡ save service driver fact (effect w).1 =
          ground (arith, q) in
        rw same (
          subst (λ d. Same d (save service driver fact (effect w).1).1.db) (h w)
            (save-Undoes fact (effect w).1 e (subst (λ z. z.0 ≡ err e) same bad)))
    | inr (x, q) ↦ elim (Bool-cases may) [
      | inl m ↦
          let ask : Tx Done = request_upgrade_rollback r.id code in
          let same : or_rollback service driver r code may effect fact w
              ≡ save service driver ask (effect w).1 =
            ground (arith, q, m) in
          rw same (
            subst (λ d. Same d (save service driver ask (effect w).1).1.db) (h w)
              (save-Undoes ask (effect w).1 e (subst (λ z. z.0 ≡ err e) same bad)))
      | inr m ↦
          let same : or_rollback service driver r code may effect fact w ≡ (err x, (effect w).1) =
            ground (arith, q, m) in
          rw (same, h w) (Same-refl w.db)
    ]
  ]

  module _ (r : Receipt) (owned : (r.session_id == []) ≡ false) where
    perform-Undoes :
        (name : Text) (fn : Eff Done) → Undoes fn → Undoes (perform service driver r name fn)
    unfolding perform
    perform-Undoes name fn h w e bad = elim (Result-cases (fn w).0) [
      | inl (_, q) ↦ absurd (ground (arith, q, bad, clear-ok r.session_id r.id (fn w).1 owned))
      | inr (x, q) ↦
          let same : perform service driver r name fn w
              ≡ after_failure service driver r name (fn w).1 =
            ground (arith, q) in
          rw same (
            Same-trans w.db (fn w).1.db (after_failure service driver r name (fn w).1).1.db
              (h w x q) (after_failure-Minds r name (fn w).1))
    ]

    called-Undoes :
        {A : Type 0} (c : Call) (f : List Call → Result A) (k : A → Tx Done)
        → Undoes (call c f >>= λ a. save service driver (k a))
    called-Undoes c f k = bind-Undoes _ _ (call-Reads c f) (λ a. save-Undoes (k a))

    checked-Undoes :
        {A : Type 0} (c : Call) (f : List Call → Result A) (test : A → Bool) (s : String)
        (k : A → Tx Done)
        → Undoes (call c f >>= λ a. refuse_if (test a) s >> save service driver (k a))
    checked-Undoes c f test s k =
        bind-Undoes _ _ (call-Reads c f)
          (λ a. then-Undoes _ _ (refuse_if-Reads (test a) s) (save-Undoes (k a)))

    prepare-Undoes : (source : Sandbox) → Undoes (prepare service driver r source)
    unfolding prepare
    prepare-Undoes source = perform-Undoes _ _ (checked-Undoes _ _ _ _ _)

    quiesce-Undoes : (source : Sandbox) → Undoes (quiesce service driver r source)
    unfolding quiesce
    quiesce-Undoes source = perform-Undoes _ _ (
        bind-Undoes _ _ (look_up-Reads _ _)
          (λ session. then-Undoes _ _ (call-Reads _ _) (save-Undoes _)))

    capture-Undoes : (source : Sandbox) → Undoes (capture service driver r source)
    unfolding capture
    capture-Undoes source = perform-Undoes _ _ (checked-Undoes _ _ _ _ _)

    activate-Undoes : (source : Sandbox) → Undoes (activate service driver r source)
    unfolding activate
    activate-Undoes source = perform-Undoes _ _ (or_rollback-Undoes r _ _ _ _ (call-Reads _ _))

    restore-Undoes :
        (nonce : Text) (source : Sandbox) → Undoes (restore service driver nonce r source)
    unfolding restore
    restore-Undoes nonce source = branch-Undoes _ _ _ (perform-Undoes _ _ (save-Undoes _)) (
        bind-Undoes _ _ (look_up-Reads _ _)
          (λ destination. perform-Undoes _ _ (called-Undoes _ _ _)))

    target-Reads : (source : Sandbox) → Reads (verified_target service driver r source)
    unfolding branch look_up pure ◌>>=◌
    target-Reads source w = ground arith

    verify-Undoes : (source : Sandbox) → Undoes (verify service driver r source)
    unfolding verify
    verify-Undoes source = bind-Undoes _ _ (target-Reads source) (λ target. perform-Undoes _ _ (
        bind-Undoes _ _ (look_up-Reads _ _)
          (λ session. or_rollback-Undoes r _ _ _ _ (call-Reads _ _))))

    delete_resource-Undoes : (owned : Sandbox) → Undoes (delete_resource service driver r owned)
    unfolding delete_resource
    delete_resource-Undoes owned =
        perform-Undoes _ _ (then-Undoes _ _ (call-Reads _ _) (save-Undoes _))

    delete_checkpoint-Undoes :
        (source : Sandbox) → Undoes (delete_checkpoint service driver r source)
    unfolding delete_checkpoint
    delete_checkpoint-Undoes source =
        perform-Undoes _ _ (then-Undoes _ _ (call-Reads _ _) (save-Undoes _))

    resume-Undoes : Undoes (resume service driver r)
    resume-Undoes = perform-Undoes _ _ (save-Undoes _)

    finish-Undoes : (source : Sandbox) → Undoes (finish service driver r source)
    unfolding finish resource_deleted
    finish-Undoes source =
        branch-Undoes _ _ _
          (bind-Undoes _ _ (look_up-Reads _ _)
            (λ deleted. branch-Undoes _ _ _ resume-Undoes (delete_resource-Undoes source)))
          (branch-Undoes _ _ _ resume-Undoes (delete_checkpoint-Undoes source))

    dispatch-Undoes :
        (nonce : Text) (source : Sandbox) → Undoes (dispatch service driver nonce r source)
    unfolding dispatch
    dispatch-Undoes nonce source = branch-Undoes _ _ _ (prepare-Undoes source) (
        branch-Undoes _ _ _ (quiesce-Undoes source) (
          branch-Undoes _ _ _ (capture-Undoes source) (
            branch-Undoes _ _ _ (restore-Undoes nonce source) (
              branch-Undoes _ _ _ (activate-Undoes source)
                (branch-Undoes _ _ _ (verify-Undoes source) (finish-Undoes source))))))

    pub step-Undoes :
        (nonce : Text) (w : World) (e : Error)
        → (step service driver nonce r w).0 ≡ err e
        → Same w.db (step service driver nonce r w).1.db
    unfolding step
    step-Undoes nonce = bind-Undoes _ _ (look_up-Reads _ _) (λ source. dispatch-Undoes nonce source)
