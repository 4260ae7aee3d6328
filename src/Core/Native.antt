-- ===== src/Core/Native.antt =====
-- internal/core/native_lifecycle.go: whether native work is idle, and how a pending mutation is
-- settled by the native history. The Harness is given by a `NativeSession` record.
pub mod Settlement
use dorf.Base.{
  Bool, true, false, not, ◌&&◌, ◌||◌, Option, none, some, List, [], ◌∷◌, Text, txt, ◌==◌, any, all,
}
use dorf.Base.Results.{Result, ok, err, native_unavailable}
use dorf.Core.Domain.{Session, Sandbox}
use dorf.Effects.{
  Call, asked_native, read_turns, World, Eff, ◌>>=◌, ◌>>◌, pure, fail, branch, transact, call,
}
use dorf.Store.Native.{NativeState, native_state, finish_native_mutation}

-- The fields of a Turn that settlement reads.
pub record HarnessTurn : Type 0 where
  pub id : Text
  pub status : Text
  pub client_ids : List Text

-- `Terminal`.
unfoldable pub terminal : HarnessTurn → Bool
terminal t =
    t.status == txt "completed" || (t.status == txt "failed" || t.status == txt "interrupted")

-- `Pending`.
unfoldable pub is_pending_mutation : NativeState → Bool
is_pending_mutation s = not (s.pending_input_id == []) || not (s.pending_turn_id == [])

abbrev pub proves : NativeState → HarnessTurn → Bool
proves s t =
    (not (s.pending_input_id == []) && any (λ id. id == s.pending_input_id) t.client_ids)
    || (not (s.pending_turn_id == []) && (t.id == s.pending_turn_id && terminal t))

-- `NativeMutationProven`.
unfoldable pub native_mutation_proven : NativeState → List HarnessTurn → Bool
native_mutation_proven s [] = false
native_mutation_proven s (t ∷ ts) = proves s t || native_mutation_proven s ts

pub record NativeSession : Type 0 where
  pub native_idle : List Call → Session → Sandbox → Result Bool
  pub read_native_turns : List Call → Session → Sandbox → Result (List HarnessTurn)

-- With a mutation pending: it is settled once the history proves it.
unfoldable pub settle_by_history : NativeSession → Session → Sandbox → NativeState → Eff Bool
settle_by_history n session owned state = do
  turns ← call (read_turns owned.resource_id) (λ calls. n.read_native_turns calls session owned)
  branch (not (native_mutation_proven state turns)) (pure false)
      (do transact (finish_native_mutation session.id state.revision); pure (all terminal turns))

-- `nativeIdle`; the externals may have no native Session.
unfoldable pub native_idle : Option NativeSession → Session → Sandbox → Eff Bool
native_idle native session owned = do
  state ← transact (native_state session.id)
  branch (session.thread_id == []) (pure (not (is_pending_mutation state))) (elim native [
    | none ↦ fail native_unavailable
    | some n ↦
        branch (not (is_pending_mutation state))
          (call (asked_native owned.resource_id) (λ calls. n.native_idle calls session owned))
          (settle_by_history n session owned state)
  ])
