-- ===== src/Core/Native/Settlement.antt =====
-- When native work counts as idle.
use dorf.Base.{
  ◌≡◌, ◌⊎◌, inl, inr, true, false, Option, some, List, [], ◌==◌, all, arith, Bool-cases,
  Option-cases,
}
use dorf.Base.Results.{ok, Result-cases}
use dorf.Core.Domain.{Session, Sandbox}
use dorf.Effects.{World, ◌>>=◌, ◌>>◌, pure, fail, branch, transact, call}
use dorf.Store.Table.{get, get-put_self, update}
use dorf.Store.Db.{SessionRow}
use dorf.Store.Native.{state_of, settled_row, finish_native_mutation}
use dorf.Core.Native.{
  HarnessTurn, terminal, is_pending_mutation, native_mutation_proven, NativeSession,
  settle_by_history, native_idle,
}

-- The history that was read proves the pending mutation and has only terminal Turns, and the mutation
-- is settled.
pub record IsProven (native : Option NativeSession) (s : Session) (owned : Sandbox) (w w' : World)
    (r : SessionRow) : Type 0 where
  pub n : NativeSession
  pub turns : List HarnessTurn
  pub present : native ≡ some n
  pub read : n.read_native_turns w.calls s owned ≡ ok turns
  pub proven : native_mutation_proven (state_of r) turns ≡ true
  pub ended : all terminal turns ≡ true
  pub settled : get s.id w'.db.sessions ≡ some (settled_row r)

-- Native work counts as idle only where no mutation was pending, and then nothing is changed, or where
-- the native history proves the pending one and has only terminal Turns, and then it is settled.
pub native_idle-settles :
    (native : Option NativeSession) (s : Session) (owned : Sandbox) (w w' : World) (r : SessionRow)
    → get s.id w.db.sessions ≡ some r
    → native_idle native s owned w ≡ (ok true, w')
    → ((is_pending_mutation (state_of r) ≡ false) × (w'.db ≡ w.db)) ⊎ IsProven native s owned w w' r
unfolding native_idle settle_by_history finish_native_mutation update call transact branch pure fail
    ◌>>=◌ ◌>>◌
native_idle-settles native s owned w w' r e h =
    elim (Bool-cases (is_pending_mutation (state_of r))) [
      | inr p ↦ inl (
        p,
        elim (Bool-cases (s.thread_id == [])) [
          | inl t ↦ ground (arith, e, p, t)
          | inr t ↦ elim (Option-cases native) [
            | inl m ↦ absurd (ground (arith, e, p, t, m))
            | inr (n, m) ↦ ground (arith, e, p, t, m)
          ]
        ],
      )
      | inl p ↦ elim (Bool-cases (s.thread_id == [])) [
        | inl t ↦ absurd (ground (arith, e, p, t))
        | inr t ↦ elim (Option-cases native) [
          | inl m ↦ absurd (ground (arith, e, p, t, m))
          | inr (n, m) ↦ elim (Result-cases (n.read_native_turns w.calls s owned)) [
            | inr (x, q) ↦ absurd (ground (arith, e, p, t, m, q))
            | inl (turns, q) ↦ inr (record {
              n = n;
              turns = turns;
              present = m;
              read = q;
              proven = ground (arith, e, p, t, m, q);
              ended = ground (arith, e, p, t, m, q);
              settled =
                  ground (arith, e, p, t, m, q, get-put_self s.id (settled_row r) w.db.sessions);
            })
          ]
        ]
      ]
    ]
