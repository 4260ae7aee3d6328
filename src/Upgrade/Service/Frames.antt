-- ===== src/Upgrade/Service/Frames.antt =====
-- The steps of an upgrade before its end move neither its hold nor the binding of its Sandbox.
use dorf.Base.{Bool, Text, txt, inl, inr, Bool-cases}
use dorf.Base.Results.{Done, Result-cases}
use dorf.Core.Domain.{Sandbox}
use dorf.Upgrade.Receipt.{Receipt}
use dorf.Store.Db.{Tx, Absurd}
use dorf.Store.Attention.{clear_execution_attention}
use dorf.Store.Upgrades.{request_upgrade_rollback}
use dorf.Upgrade.Driver.{Driver}
use dorf.Effects.{Eff, transact}
use dorf.Upgrade.Service.Custody.{
  Keeps, KeepsTx, Kept-trans, bind-Keeps, transact-Keeps, look_up-Keeps, call-Keeps, branch-Keeps,
  refuse_if-Keeps, then-Keeps, pure-Keeps, fail-Keeps,
}
use dorf.Upgrade.Service.{
  source_text, require_claim, save, after_failure, perform, or_rollback, prepare, quiesce, capture,
  activate, restore, verify_target, verify, delete_resource,
}
use dorf.Upgrade.Service.{delete_checkpoint}
use dorf.Upgrade.Service.Statements.{
  dropped-KeepsTx, set-KeepsTx, clear-KeepsTx, preparation-KeepsTx, quiesced-KeepsTx,
  checkpoint-KeepsTx, activated-KeepsTx, rollback-KeepsTx, reserve-KeepsTx, restored-KeepsTx,
  verified-KeepsTx, deleted-KeepsTx,
}

module _ (service : Absurd) (driver : Driver) where
  pub save-Keeps : (m : Tx Done) → KeepsTx m → Keeps (save service driver m)
  unfolding save require_claim
  save-Keeps m h = then-Keeps _ _ (call-Keeps _ _) (transact-Keeps m h)

  pub after_failure-Keeps :
      (r : Receipt) (name : Text) → Keeps (after_failure service driver r name)
  unfolding require_claim
  after_failure-Keeps r name =
      then-Keeps _ _ (call-Keeps _ _)
        (then-Keeps _ _ (transact-Keeps _ (set-KeepsTx _ _ _)) (fail-Keeps Done _))

  pub perform-Keeps :
      (r : Receipt) (name : Text) (fn : Eff Done)
      → Keeps fn
      → Keeps (perform service driver r name fn)
  unfolding perform
  perform-Keeps r name fn h w = elim (Result-cases (fn w).0) [
    | inl (_, e) ↦
        let clear : Tx Done = clear_execution_attention r.session_id (source_text r) in
        rw (perform, e)
          (Kept-trans w.db (fn w).1.db (transact clear (fn w).1).1.db (h w)
            (transact-Keeps clear (clear-KeepsTx r.session_id (source_text r)) (fn w).1))
    | inr (x, e) ↦
        rw (perform, e)
          (Kept-trans w.db (fn w).1.db (after_failure service driver r name (fn w).1).1.db (h w)
            (after_failure-Keeps r name (fn w).1))
  ]

  pub or_rollback-Keeps :
      (r : Receipt) (code : Text) (may : Bool) (effect : Eff Done) (fact : Tx Done)
      → Keeps effect
      → KeepsTx fact
      → Keeps (or_rollback service driver r code may effect fact)
  unfolding or_rollback
  or_rollback-Keeps r code may effect fact h k w = elim (Result-cases (effect w).0) [
    | inl (_, e) ↦
        rw (or_rollback, e)
          (Kept-trans w.db (effect w).1.db (save service driver fact (effect w).1).1.db (h w)
            (save-Keeps fact k (effect w).1))
    | inr (x, e) ↦ elim (Bool-cases may) [
      | inl m ↦
          let ask : Tx Done = request_upgrade_rollback r.id code in
          rw (or_rollback, e, m)
            (Kept-trans w.db (effect w).1.db (save service driver ask (effect w).1).1.db (h w)
              (save-Keeps ask (rollback-KeepsTx r.id code) (effect w).1))
      | inr m ↦ rw (or_rollback, e, m) (h w)
    ]
  ]

  pub prepare-Keeps : (r : Receipt) (source : Sandbox) → Keeps (prepare service driver r source)
  unfolding prepare
  prepare-Keeps r source = perform-Keeps r (txt "prepare") _ (
      bind-Keeps _ _ (call-Keeps _ _) (λ version.
        then-Keeps _ _ (refuse_if-Keeps _ _) (save-Keeps _ (preparation-KeepsTx r.id version))))

  pub quiesce-Keeps : (r : Receipt) (source : Sandbox) → Keeps (quiesce service driver r source)
  unfolding quiesce
  quiesce-Keeps r source = perform-Keeps r (txt "quiesce") _ (
      bind-Keeps _ _ (look_up-Keeps _ _)
        (λ session. then-Keeps _ _ (call-Keeps _ _) (save-Keeps _ (quiesced-KeepsTx r.id))))

  pub capture-Keeps : (r : Receipt) (source : Sandbox) → Keeps (capture service driver r source)
  unfolding capture
  capture-Keeps r source = perform-Keeps r (txt "checkpoint") _ (
      bind-Keeps _ _ (call-Keeps _ _) (λ checkpoint.
        then-Keeps _ _ (refuse_if-Keeps _ _) (save-Keeps _ (checkpoint-KeepsTx r.id checkpoint))))

  pub activate-Keeps : (r : Receipt) (source : Sandbox) → Keeps (activate service driver r source)
  unfolding activate
  activate-Keeps r source =
      perform-Keeps r (txt "activate") _
        (or_rollback-Keeps r _ _ _ _ (call-Keeps _ _) (activated-KeepsTx r.id))

  pub restore-Keeps :
      (nonce : Text) (r : Receipt) (source : Sandbox)
      → Keeps (restore service driver nonce r source)
  unfolding restore
  restore-Keeps nonce r source =
      branch-Keeps _ _ _
        (perform-Keeps r (txt "reserve-recovery") _ (save-Keeps _ (reserve-KeepsTx r _ nonce)))
        (bind-Keeps _ _ (look_up-Keeps _ _) (λ destination.
          perform-Keeps r (txt "restore") _
            (bind-Keeps _ _ (call-Keeps _ _) (λ id. save-Keeps _ (restored-KeepsTx r id)))))

  pub verify_target-Keeps :
      (r : Receipt) (destination : Sandbox) (version : Text)
      → Keeps (verify_target service driver r destination version)
  verify_target-Keeps r destination version = perform-Keeps r (txt "verify") _ (
      bind-Keeps _ _ (look_up-Keeps _ _)
        (λ session. or_rollback-Keeps r _ _ _ _ (call-Keeps _ _) (verified-KeepsTx r.id)))

  pub verify-Keeps : (r : Receipt) (source : Sandbox) → Keeps (verify service driver r source)
  unfolding verify
  verify-Keeps r source =
      bind-Keeps _ _
        (branch-Keeps _ _ _ (bind-Keeps _ _ (look_up-Keeps _ _) (λ destination. pure-Keeps _))
          (pure-Keeps _))
        (λ target. verify_target-Keeps r target.0 target.1)

  pub delete_resource-Keeps :
      (r : Receipt) (owned : Sandbox) → Keeps (delete_resource service driver r owned)
  unfolding delete_resource
  delete_resource-Keeps r owned =
      perform-Keeps r (txt "resource-cleanup") _
        (then-Keeps _ _ (call-Keeps _ _) (save-Keeps _ (deleted-KeepsTx owned)))

  pub delete_checkpoint-Keeps :
      (r : Receipt) (source : Sandbox) → Keeps (delete_checkpoint service driver r source)
  unfolding delete_checkpoint
  delete_checkpoint-Keeps r source =
      perform-Keeps r (txt "checkpoint-cleanup") _
        (then-Keeps _ _ (call-Keeps _ _) (save-Keeps _ (dropped-KeepsTx r.id)))
