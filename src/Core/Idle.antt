-- ===== src/Core/Idle.antt =====
-- internal/core/idle.go: the pause of the Sandboxes of a Session that nobody uses. The whole runs
-- under the Session's fence; the try-lock of the pause fence and the provider's pause are given by a
-- `SandboxPauser` record.
pub mod Pauses
use dorf.Base.{ℕ, Bool, true, false, not, ◌&&◌, Option, none, some, List, [], ◌∷◌, Text, ◌==◌}
use dorf.Base.Results.{Result, not_found, message, Done}
use dorf.Core.Domain.{Session, Sandbox, is_pending}
use dorf.Core.Cleanup.{sort_sandboxes}
use dorf.Core.Native.{NativeSession, native_idle}
use dorf.Effects.{
  Call, paused_sandbox, Eff, ◌>>=◌, ◌>>◌, pure, fail, branch, refuse_if, transact, look_up, call,
}
use dorf.Store.Table.{Table}
use dorf.Store.Db.{SandboxRow, Db}
use dorf.Store.Sandboxes.{find_session, find_sandbox}
use dorf.Store.Activity.{sandbox_idle_for}

-- `SandboxIdleGracePeriod`, in seconds.
abbrev pub sandbox_idle_grace_period : ℕ
sandbox_idle_grace_period = 60

pub record SandboxPauser : Type 0 where
  pub power_free : List Call → Bool
  pub sandbox_pause : List Call → Session → Sandbox → Result Done

-- `canPause`.
unfoldable pub can_pause : Session → Bool
can_pause s = not s.keep_running && (s.admission_open && is_pending s.cleanup_state)

abbrev pub owned_sandboxes : Db → Text → Table SandboxRow → List Sandbox
owned_sandboxes db session [] = []
owned_sandboxes db session ((id, s) ∷ rows) =
    let rest = owned_sandboxes db session rows in
    elim (s.session_id == session) [
      | false ↦ rest
      | true ↦ elim (find_sandbox db id) [ none ↦ rest | some b ↦ b ∷ rest ]
    ]

-- `ListSessionSandboxes`: the Sandboxes with their active resources, by identity.
abbrev pub session_sandboxes : Db → Text → List Sandbox
session_sandboxes db session = sort_sandboxes (owned_sandboxes db session db.sandboxes)

-- The loop of `ReconcileIdleSandboxes`: the first Sandbox that is not idle ends it.
unfoldable pub pause_idle : SandboxPauser → Option NativeSession → Session → List Sandbox → Eff Done
pause_idle pauser native session [] = pure tt
pause_idle pauser native session (b ∷ bs) = do
  refuse_if (not (b.session_id == session.id)) "idle Sandbox has a different Session owner"
  idle ← native_idle native session b
  branch (not idle) (pure tt) (do
    call (paused_sandbox b.resource_id) (λ calls. pauser.sandbox_pause calls session b)
    pause_idle pauser native session bs)

abbrev pub pause_unused : SandboxPauser → Option NativeSession → Text → Eff Done
pause_unused pauser native id = do
  session ← look_up (λ db. find_session db id) not_found
  refuse_if (not (session.id == id)) "idle reconciliation changed Session identity"
  branch (not (can_pause session)) (pure tt) (do
    idle ← transact (sandbox_idle_for id sandbox_idle_grace_period)
    branch (not idle) (pure tt)
        (λ w. pause_idle pauser native session (session_sandboxes w.db id) w))

-- `ReconcileIdleSandboxes`; the externals may have no pause. A fence that is taken skips the rest.
unfoldable pub reconcile_idle : Option SandboxPauser → Option NativeSession → Text → Eff Done
reconcile_idle none native id = pure tt
reconcile_idle (some pauser) native id =
    branch (id == []) (fail (message "idle reconciliation requires a Session identity"))
      (λ w. branch (pauser.power_free w.calls) (pause_unused pauser native id) (pure tt) w)
