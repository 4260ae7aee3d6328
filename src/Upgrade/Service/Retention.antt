-- ===== src/Upgrade/Service/Retention.antt =====
-- An upgrade gives its Sandbox back only once its recovery is verified.
use dorf.Base.{◌≡◌, Bool, true, false, Option, some, Text, arith, is_some}
use dorf.Core.Domain.{Session, Sandbox}
use dorf.Upgrade.Receipt.{Receipt}
use dorf.Store.Db.{Absurd}
use dorf.Store.Sandboxes.{find_session}
use dorf.Store.Upgrades.{upgrade_quiescent}
use dorf.Store.Upgrades.Listing.{session_upgrades}
use dorf.Upgrade.Driver.{Driver}
use dorf.Effects.{World, Eff, ◌>>=◌, ◌>>◌, pure, branch, refuse_if, look_up}
use dorf.Upgrade.Service.{
  first_unfinished, authorize, require_claim, dispatch, step, reconcile_receipt, reconcile,
}
use dorf.Upgrade.Service.Custody.{
  Kept, Keeps, KeepsTx, bind-Keeps, transact-Keeps, look_up-Keeps, call-Keeps, branch-Keeps,
  refuse_if-Keeps, then-Keeps, pure-Keeps,
}
use dorf.Upgrade.Service.Frames.{
  prepare-Keeps, quiesce-Keeps, capture-Keeps, activate-Keeps, restore-Keeps, verify-Keeps,
}

branch-Keeps-true :
    {A : Type 0} (test : Bool) (m k : Eff A) → test ≡ true → Keeps m → Keeps (branch test m k)
unfolding branch
branch-Keeps-true test m k e h w = rw e (h w)

quiescent-KeepsTx : (sandbox : Text) → KeepsTx (upgrade_quiescent sandbox)
unfolding upgrade_quiescent
quiescent-KeepsTx sandbox db db' u h = record { holds = ground arith; bindings = ground arith }

authorize-Keeps : (r : Receipt) → Keeps (authorize r)
unfolding authorize
authorize-Keeps r = bind-Keeps _ _ (look_up-Keeps _ _) (λ owned.
    then-Keeps _ _ (refuse_if-Keeps _ _)
      (bind-Keeps _ _ (look_up-Keeps _ _) (λ held. refuse_if-Keeps _ _)))

module _ (service : Absurd) (driver : Driver) (nonce : Text) where
  dispatch-Keeps :
      (r : Receipt) (source : Sandbox)
      → is_some r.verified_at ≡ false
      → Keeps (dispatch service driver nonce r source)
  unfolding dispatch
  dispatch-Keeps r source unproven = branch-Keeps _ _ _ (prepare-Keeps service driver r source) (
      branch-Keeps _ _ _ (quiesce-Keeps service driver r source) (
        branch-Keeps _ _ _ (capture-Keeps service driver r source) (
          branch-Keeps _ _ _ (restore-Keeps service driver nonce r source) (
            branch-Keeps _ _ _ (activate-Keeps service driver r source) (
              branch-Keeps-true _ _ _ (ground (arith, unproven))
                (verify-Keeps service driver r source))))))

  receipt-Keeps :
      (r : Receipt)
      → is_some r.verified_at ≡ false
      → Keeps (reconcile_receipt service driver nonce r)
  unfolding reconcile_receipt step require_claim
  receipt-Keeps r unproven = then-Keeps _ _ (authorize-Keeps r) (
      bind-Keeps _ _ (transact-Keeps _ (quiescent-KeepsTx r.sandbox_id)) (λ quiet.
        branch-Keeps _ _ _ (pure-Keeps _) (
          then-Keeps _ _ (call-Keeps _ _) (
            then-Keeps _ _
              (bind-Keeps _ _ (look_up-Keeps _ _) (λ source. dispatch-Keeps r source unproven))
              (pure-Keeps _)))))

  -- Until its recovery is verified, an upgrade keeps its Sandbox: whatever the driver answers, and
  -- whether it succeeds or fails, a reconciliation then releases no hold and rebinds no Sandbox.
  pub reconcile-Kept :
      (task : Option Text) (session : Text) (w : World) (row : Session) (r : Receipt)
      → find_session w.db session ≡ some row
      → first_unfinished (session_upgrades w.db session) ≡ some r
      → is_some r.verified_at ≡ false
      → Kept w.db (reconcile service driver nonce task session w).1.db
  unfolding reconcile look_up refuse_if branch pure ◌>>=◌ ◌>>◌
  reconcile-Kept task session w row r e f unproven =
      let kept = receipt-Keeps r unproven w in
      record {
        holds = ground (arith, e, f, kept.holds);
        bindings = ground (arith, e, f, kept.bindings);
      }
