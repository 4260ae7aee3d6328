-- ===== src/Core/Execution/Authority.antt =====
-- What an external effect needs.
use dorf.Base.{
  ◌≡◌, ◌⊎◌, inl, inr, true, false, Option, some, ◌∷◌, Text, Bool-cases, Option-cases, arith,
}
use dorf.Base.Results.{ok, Result-cases}
use dorf.Core.Domain.{ActionKind, same_kind, is_succeeded}
use dorf.Effects.{
  checked_claim, World, ◌>>=◌, ◌>>◌, pure, branch, refuse_if, transact, look_up, call,
}
use dorf.Store.Actions.{Authorization, authorize_sandbox_action}
use dorf.Store.Actions.Authority.{authorize-reads}
use dorf.Core.Execution.{Externals, Task, require_claim, conflicts, execute_sandbox_action}

-- The caller's task is authorized for an Action of the Session that has still to be carried out.
pub record IsAuthorized (w : World) (task : Option Task) (session id : Text) (kind : ActionKind)
    : Type 0 where
  pub t : Task
  pub a : Authorization
  pub running : task ≡ some t
  pub authorized : authorize_sandbox_action id t.id t.name w.db ≡ ok (a, w.db)
  pub consistent : conflicts session id t a ≡ false
  pub expected : same_kind a.action.kind kind ≡ true
  pub unsettled : is_succeeded a.action.state ≡ false

module _ (externals : Externals) where
  -- Apart from checking its claim, carrying out a Sandbox Action does nothing at all, neither in the
  -- database nor at the provider, unless the caller's task is authorized for exactly that Action of
  -- that Session, of the expected kind, and the Action has not succeeded before.
  pub execute-IsAuthorized :
      (task : Option Task) (session id : Text) (kind : ActionKind) (w : World)
      → ((execute_sandbox_action externals task session id kind w).1
          ≡ record w { calls = checked_claim ∷ w.calls })
        ⊎ IsAuthorized w task session id kind
  unfolding execute_sandbox_action require_claim call look_up transact refuse_if branch pure ◌>>=◌
      ◌>>◌
  execute-IsAuthorized task session id kind w = elim (Result-cases (externals.claim w.calls)) [
    | inr (x, c) ↦ inl (ground (arith, c))
    | inl (u, c) ↦ elim (Option-cases task) [
      | inl n ↦ inl (ground (arith, c, n))
      | inr (t, n) ↦ elim (Result-cases (authorize_sandbox_action id t.id t.name w.db)) [
        | inr (x, e) ↦ inl (ground (arith, c, n, e))
        | inl ((a, db1), e) ↦
            let same = authorize-reads id t.id t.name w.db db1 a e in
            elim (Bool-cases (conflicts session id t a)) [
              | inl f ↦ inl (ground (arith, c, n, e, f, same))
              | inr f ↦ elim (Bool-cases (same_kind a.action.kind kind)) [
                | inr g ↦ inl (ground (arith, c, n, e, f, g, same))
                | inl g ↦ elim (Bool-cases (is_succeeded a.action.state)) [
                  | inl k ↦ inl (ground (arith, c, n, e, f, g, k, same))
                  | inr k ↦ inr (record {
                    t = t;
                    a = a;
                    running = n;
                    authorized = ground (arith, e, same);
                    consistent = f;
                    expected = g;
                    unsettled = k;
                  })
                ]
              ]
            ]
      ]
    ]
  ]
