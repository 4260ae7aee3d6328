-- ===== src/Core/Execution.antt =====
-- internal/core/service.go: one Sandbox Action, carried out under the Session's fence. The provider's
-- answers are given by an `Externals` record. The fault barrier, which tests use to stop a process
-- between an effect and its record, is left out.
pub mod Authority
use dorf.Base.{Bool, true, false, not, ◌&&◌, ◌||◌, Option, none, some, List, Text, ◌==◌}
use dorf.Base.Results.{
  Result, ok, err, Error, message, external, joined, no_task_context, not_found, Done,
}
use dorf.Core.Domain.{
  ActionKind, sandbox_create, route_create, route_revoke, sandbox_delete, same_kind, is_succeeded,
  is_requested, is_scheduled, Session, Sandbox, Route, route_for_sandbox, cleanup_task_name,
}
use dorf.Effects.{
  Call, checked_claim, created_sandbox, created_route, revoked_route, deleted_sandbox, World, Eff,
  ◌>>=◌, ◌>>◌, pure, fail, branch, refuse_if, transact, look_up, call,
}
use dorf.Store.Db.{Absurd}
use dorf.Store.Sandboxes.{find_session, bind_sandbox_resource}
use dorf.Store.Activity.{begin_sandbox_activity, finish_sandbox_activity}
use dorf.Store.Attention.{set_execution_attention, clear_execution_attention}
use dorf.Store.Actions.{
  Authorization, authorize_sandbox_action, record_sandbox_action_success, complete_cleanup,
}

-- `Externals`, with the claim check of the service.
pub record Externals : Type 0 where
  pub claim : List Call → Result Done
  pub sandbox_create : List Call → Session → Sandbox → Result Text
  pub route_create : List Call → Session → Sandbox → Route → Result Done
  pub route_revoke : List Call → Session → Sandbox → Route → Result Done
  pub sandbox_delete : List Call → Session → Sandbox → Result Done
  pub text_of : Error → Text

-- The task of the context: its identity and its name.
pub record Task : Type 0 where
  pub id : Text
  pub name : Text

-- `attentionNeeded`, which `errors.As` looks for through joined errors.
unfoldable pub attention_needed : Error → Bool
attention_needed (external needed unavailable) = needed
attention_needed (joined a b) = attention_needed a || attention_needed b
attention_needed _ = false

abbrev pub current_task : Option Task → Eff Task
current_task task = look_up (λ db. task) no_task_context

-- `exactCurrentAttachedTask`, for a name that is given.
unfoldable pub exact_current_attached_task : Option Task → Text → Text → Eff Session
exact_current_attached_task task session name = do
  t ← current_task task
  row ← look_up (λ db. find_session db session) not_found
  refuse_if
      (not (t.name == name)
        || (not (row.current_task_id == t.id) || not (row.current_task_name == name)))
      "task is not the exact current attachment for Session"
  pure row

-- `errors.Join` of an operation's error and the error of the finish.
abbrev pub join : Result Done → Result Done → Result Done
join (ok _) r = r
join (err a) (ok _) = err a
join (err a) (err b) = err (joined a b)

abbrev pub finish_activity : Text → Result Done → World → Result Done × World
finish_activity session result w =
    let (finished, w') = transact (finish_sandbox_activity session) w in (join result finished, w')

-- `WithSandboxActivity`.
unfoldable pub with_sandbox_activity : Text → Eff Done → Eff Done
with_sandbox_activity session operation = transact (begin_sandbox_activity session) >> λ w.
    let (result, w') = operation w in finish_activity session result w'

abbrev pub conflicts : Text → Text → Task → Authorization → Bool
conflicts session id t a =
    not (a.session.id == session)
    || (not (a.action.id == id)
        || (not (a.action.session_id == session)
            || (not (a.sandbox.session_id == session)
                || (not (a.action.scope == a.sandbox.id)
                    || (not (a.task_id == t.id) || not (a.task_name == t.name))))))

module _ (externals : Externals) where
  unfoldable pub require_claim : Eff Done
  require_claim = call checked_claim externals.claim

  -- `requireCleanupTask`.
  unfoldable pub require_cleanup_task : Option Task → Text → Eff Done
  require_cleanup_task task session = do
    require_claim
    row ← exact_current_attached_task task session cleanup_task_name
    refuse_if
        (row.admission_open
          || (not (is_requested row.cleanup_state) && not (is_scheduled row.cleanup_state)))
        "cleanup task cannot act before cleanup is requested for Session"

  -- `CompleteCleanup`.
  unfoldable pub complete_session_cleanup : Option Task → Text → Eff Done
  complete_session_cleanup task session = do
    require_cleanup_task task session
    t ← current_task task
    transact (complete_cleanup session t.id)

  -- The effect of `ExecuteSandboxAction`, by the kind of the Action.
  unfoldable pub effect_of : Authorization → ActionKind → Eff Done
  effect_of a sandbox_create = do
    provider ←
        call (created_sandbox a.sandbox.resource_id)
          (λ calls. externals.sandbox_create calls a.session a.sandbox)
    require_claim
    transact (bind_sandbox_resource a.sandbox provider)
  effect_of a route_create =
      call (created_route a.sandbox.resource_id)
        (λ calls. externals.route_create calls a.session a.sandbox (route_for_sandbox a.sandbox))
  effect_of a route_revoke =
      call (revoked_route a.sandbox.resource_id)
        (λ calls. externals.route_revoke calls a.session a.sandbox (route_for_sandbox a.sandbox))
  effect_of a sandbox_delete =
      call (deleted_sandbox a.sandbox.resource_id)
        (λ calls. externals.sandbox_delete calls a.session a.sandbox)

  -- What is left of a failed effect.
  abbrev pub attend : Text → Text → Error → Eff Done
  attend session id e w =
      let (claimed, w1) = require_claim w in
      elim claimed [
        | err c ↦ (err (joined e c), w1)
        | ok _ ↦
            let (saved, w2) =
              transact (set_execution_attention session id (externals.text_of e)) w1 in
            elim saved [ ok _ ↦ (err e, w2) | err x ↦ (err (joined e x), w2) ]
      ]

  unfoldable pub report_failure : Text → Text → Error → Eff Done
  report_failure session id e w = elim (attention_needed e) [
    | true ↦ attend session id e w
    | false ↦ (err e, w)
  ]

  abbrev pub settle : Text → Text → Eff Done
  settle session id = do
    require_claim
    transact (clear_execution_attention session id)
    transact (record_sandbox_action_success id)

  -- The effect, and then its record.
  unfoldable pub apply_effect : Text → Authorization → Eff Done
  apply_effect session a w =
      let (result, w1) = with_sandbox_activity session (effect_of a a.action.kind) w in
      elim result [
        | ok _ ↦ settle session a.action.id w1
        | err e ↦ report_failure session a.action.id e w1
      ]

  -- `executeSandboxAction`, for an expected kind.
  unfoldable pub execute_sandbox_action : Option Task → Text → Text → ActionKind → Eff Done
  execute_sandbox_action task session id kind = do
    require_claim
    t ← current_task task
    a ← transact (authorize_sandbox_action id t.id t.name)
    refuse_if (conflicts session id t a)
        "Sandbox Action does not match its authoritative Session, Sandbox, and task"
    refuse_if (not (same_kind a.action.kind kind)) "Sandbox Action is not of the expected kind"
    branch (is_succeeded a.action.state) (pure tt) (apply_effect session a)
