-- ===== src/Upgrade/Service/Termination.antt =====
-- A step of an upgrade that succeeds brings it nearer to its end, and one that fails leaves it as near:
-- ten successes are the most that it can have.
use dorf.Base.{
  ℕ, suc, ◌≤◌, ◌≡◌, refl, List, ◌∷◌, Option-cases, true, false, not, ◌&&◌, none, some, [], Text,
  ◌==◌, is_some, inl, inr, arith,
}
use dorf.Base.Results.{ok, err, Result-cases}
use dorf.Core.Domain.{Sandbox}
use dorf.Upgrade.Receipt.{Receipt}
use dorf.Store.Db.{UpgradeRow, SandboxRow, Db, Absurd}
use dorf.Store.Sandboxes.{find_sandbox_resource}
use dorf.Store.Upgrades.{find_upgrade}
use dorf.Upgrade.Driver.{Driver}
use dorf.Upgrade.Service.{dispatch, restore, activate, verify, finish, step, resource_deleted}
use dorf.Upgrade.Service.Commits.{
  look_up-ok, branch-ok, prepare-Commits, quiesce-Commits, capture-Commits, activate-Commits,
  restore-Commits, verify-Commits, delete_resource-Commits, delete_checkpoint-Commits,
  resume-Commits,
}
use dorf.Upgrade.Service.Progress.{IsRead, receipt, Advances, rank, is_cleaned, grade-le}
use dorf.Upgrade.Service.Advances.{
  prepared-Advances, quiesced-Advances, captured-Advances, activated-Advances, rolled-Advances,
  verified-Advances, restored-Advances, dropped-Advances,
}
use dorf.Upgrade.Service.Failures.{Same, step-Undoes}
use dorf.Upgrade.Service.Endings.{reserved-Advances, deleted-Advances, finished-Advances}
use dorf.Effects.{World, branch}

found-receipt :
    (db : Db) (id : Text) (u : UpgradeRow) (s : SandboxRow) (r : Receipt)
    → IsRead db id u s
    → find_upgrade db id ≡ some r
    → r ≡ receipt db id u s
unfolding find_upgrade
found-receipt db id u s r i h = ground (arith, i.row, i.sandbox)

module _ (service : Absurd) (driver : Driver) (w w' : World) (id : Text) (u : UpgradeRow)
    (s : SandboxRow) (i : IsRead w.db id u s) (open_yet : u.finished_at ≡ none) where
  abbrev r : Receipt
  r = receipt w.db id u s

  found-source :
      (source : Sandbox)
      → find_sandbox_resource w.db r.session_id r.sandbox_id r.source_resource_id ≡ some source
      → source.resource_id ≡ r.source_resource_id
  unfolding find_sandbox_resource
  found-source source h = ground (arith, i.sandbox)

  module _ (source : Sandbox) (sourced : source.resource_id ≡ r.source_resource_id)
      (prepared : (r.previous_version == []) ≡ false) (quiet : is_some u.quiesced_at ≡ true)
      (captured : (r.checkpoint.reference == []) ≡ false)
      (recovered : (is_some u.rollback_at && not (is_some u.restored_at)) ≡ false)
      (forward : (not (is_some u.activated_at) && not (is_some u.rollback_at)) ≡ false) where
    finish-Advances :
        is_some u.verified_at ≡ true
        → finish service driver r source w ≡ (ok tt, w')
        → Advances w.db w'.db id u s
    unfolding finish resource_deleted
    finish-Advances verified h = elim (branch-ok _ _ _ w w' h) [
      | inl (moved, rest) ↦
          let (deleted, there, rest2) = look_up-ok _ _ _ w w' rest in
          elim (branch-ok _ _ _ w w' rest2) [
            | inl (gone, resuming) ↦
                finished-Advances service w w' id u s i open_yet
                  (resume-Commits service driver r w w' resuming)
            | inr (left, deleting) ↦
                deleted-Advances w w' id u s i source open_yet prepared quiet captured recovered
                  forward verified moved sourced (ground (arith, there, left))
                  (delete_resource-Commits service driver r source w w' deleting)
          ]
      | inr (in_place, rest) ↦ elim (branch-ok _ _ _ w w' rest) [
        | inl (gone, resuming) ↦
            finished-Advances service w w' id u s i open_yet
              (resume-Commits service driver r w w' resuming)
        | inr (left, dropping) ↦
            dropped-Advances w w' id u s i open_yet prepared quiet captured recovered forward
              verified in_place left
              (delete_checkpoint-Commits service driver r source w w' dropping)
      ]
    ]

    verify-Advances :
        is_some u.verified_at ≡ false
        → verify service driver r source w ≡ (ok tt, w')
        → Advances w.db w'.db id u s
    verify-Advances unverified h = elim (verify-Commits service driver r source w w' h) [
      | inl c ↦
          verified-Advances w w' id u s i open_yet prepared quiet captured recovered forward
            unverified c
      | inr (may, c) ↦
          rolled-Advances w w' id u s i _ open_yet prepared quiet captured (ground (arith, may))
            (ground (arith, unverified)) c
    ]

  module _ (nonce : Text) (source : Sandbox) (sourced : source.resource_id ≡ r.source_resource_id)
      (prepared : (r.previous_version == []) ≡ false) (quiet : is_some u.quiesced_at ≡ true)
      (captured : (r.checkpoint.reference == []) ≡ false) where
    restore-Advances :
        (is_some u.rollback_at && not (is_some u.restored_at)) ≡ true
        → restore service driver nonce r source w ≡ (ok tt, w')
        → Advances w.db w'.db id u s
    restore-Advances back h = elim (restore-Commits service driver nonce r source w w' h) [
      | inl (unbound, c) ↦
          reserved-Advances w w' id u s i driver.replaces_resource nonce open_yet prepared quiet
            captured (ground (arith, back)) (ground (arith, back)) unbound c
      | inr (bound, provider, c) ↦
          restored-Advances w w' id u s i provider open_yet prepared quiet captured
            (ground (arith, back)) (ground (arith, back)) bound c
    ]

    activate-Advances :
        (not (is_some u.activated_at) && not (is_some u.rollback_at)) ≡ true
        → activate service driver r source w ≡ (ok tt, w')
        → Advances w.db w'.db id u s
    activate-Advances still h = elim (activate-Commits service driver r source w w' h) [
      | inl c ↦
          activated-Advances w w' id u s i open_yet prepared quiet captured (ground (arith, still))
            (ground (arith, still)) c
      | inr c ↦
          rolled-Advances w w' id u s i _ open_yet prepared quiet captured (ground (arith, still))
            (ground (arith, still)) c
    ]

    -- The steps after the checkpoint.
    later-Advances :
        branch
            (is_some u.rollback_at && not (is_some u.restored_at))
            (restore service driver nonce r source)
            (branch
              (not (is_some u.activated_at) && not (is_some u.rollback_at))
              (activate service driver r source)
              (branch
                (not (is_some u.verified_at))
                (verify service driver r source)
                (finish service driver r source)))
            w
          ≡ (ok tt, w')
        → Advances w.db w'.db id u s
    later-Advances h = elim (branch-ok _ _ _ w w' h) [
      | inl (back, now) ↦ restore-Advances back now
      | inr (recovered, rest) ↦ elim (branch-ok _ _ _ w w' rest) [
        | inl (still, now) ↦ activate-Advances still now
        | inr (forward, rest2) ↦ elim (branch-ok _ _ _ w w' rest2) [
          | inl (unverified, now) ↦
              verify-Advances source sourced prepared quiet captured recovered forward
                (ground (arith, unverified)) now
          | inr (verified, now) ↦
              finish-Advances source sourced prepared quiet captured recovered forward
                (ground (arith, verified)) now
        ]
      ]
    ]

  dispatch-Advances :
      (nonce : Text) (source : Sandbox)
      → source.resource_id ≡ r.source_resource_id
      → dispatch service driver nonce r source w ≡ (ok tt, w')
      → Advances w.db w'.db id u s
  unfolding dispatch
  dispatch-Advances nonce source sourced h = elim (branch-ok _ _ _ w w' h) [
    | inl (unprepared, now) ↦
        let (version, said, c) = prepare-Commits service driver r source w w' now in
        prepared-Advances w w' id u s i version said open_yet unprepared c
    | inr (prepared, rest1) ↦ elim (branch-ok _ _ _ w w' rest1) [
      | inl (unquiet, now) ↦
          quiesced-Advances w w' id u s i open_yet prepared (ground (arith, unquiet))
            (quiesce-Commits service driver r source w w' now)
      | inr (quiet, rest2) ↦ elim (branch-ok _ _ _ w w' rest2) [
        | inl (uncaptured, now) ↦
            let (k, c) = capture-Commits service driver r source w w' now in
            captured-Advances w w' id u s i k open_yet prepared (ground (arith, quiet)) uncaptured c
        | inr (captured, rest3) ↦
            later-Advances nonce source sourced prepared (ground (arith, quiet)) captured rest3
      ]
    ]
  ]

  pub step-Advances :
      (nonce : Text) → step service driver nonce r w ≡ (ok tt, w') → Advances w.db w'.db id u s
  unfolding step
  step-Advances nonce h =
      let (source, there, rest) = look_up-ok _ _ _ w w' h in
      dispatch-Advances nonce source (found-source source there) rest

-- A failed attempt leaves the receipt as far from its end as it was.
Same-IsRead :
    (db db' : Db) (id : Text) (u : UpgradeRow) (s : SandboxRow)
    → Same db db'
    → IsRead db id u s
    → IsRead db' id u s
Same-IsRead db db' id u s k i = record {
  row = rw k.upgrades i.row;
  sandbox = rw k.sandboxes i.sandbox;
  owned = i.owned;
  named = i.named;
}

Same-rank :
    (db db' : Db) (id : Text) (u : UpgradeRow) (s : SandboxRow)
    → Same db db'
    → rank db' (receipt db' id u s) ≡ rank db (receipt db id u s)
Same-rank db db' id u s k = rw (k.resources, k.sandboxes) refl

-- The attempts at the steps of one upgrade, one for each nonce: each reads the receipt and makes a step
-- on it, whose failure is left to the next attempt. They end where the receipt is gone or finished.
-- This is the count of the steps that succeed.
unfoldable pub successes : Absurd → Driver → Text → List Text → World → ℕ
successes service driver id [] w = 0
successes service driver id (nonce ∷ nonces) w = elim (find_upgrade w.db id) [
  | none ↦ 0
  | some r ↦ elim (is_some r.finished_at) [
    | true ↦ 0
    | false ↦
        let (result, w') = step service driver nonce r w in
        let rest = successes service driver id nonces w' in
        elim result [ ok _ ↦ suc rest | err _ ↦ rest ]
  ]
]

module _ (service : Absurd) (driver : Driver) (id : Text) where
  successes-le :
      (nonces : List Text) (w : World) (u : UpgradeRow) (s : SandboxRow)
      → IsRead w.db id u s
      → successes service driver id nonces w ≤ rank w.db (receipt w.db id u s)
  unfolding successes
  successes-le [] w u s i = omega arith
  successes-le (nonce ∷ nonces) w u s i = elim (Option-cases (find_upgrade w.db id)) [
    | inl gone ↦ ground (arith, gone)
    | inr (found, there) ↦
        let r = receipt w.db id u s in
        let w' = (step service driver nonce r w).1 in
        let same = found-receipt w.db id u s found i there in
        let here : find_upgrade w.db id ≡ some r = ground (arith, there, same) in
        elim (Option-cases u.finished_at) [
          | inr (t, over) ↦ ground (arith, here, over)
          | inl open_yet ↦ elim (Result-cases (step service driver nonce r w).0) [
            | inl (_, good) ↦
                let a =
                  step-Advances service driver w w' id u s i open_yet nonce
                    (ground (arith, good)) in
                let rest = successes-le nonces w' a.row a.sandbox a.read in
                let near = a.nearer in
                let counted : successes service driver id (nonce ∷ nonces) w
                    ≡ suc (successes service driver id nonces w') =
                  ground (arith, here, open_yet, good) in
                omega (arith, counted, rest, near)
            | inr (x, bad) ↦
                let kept = step-Undoes service driver r i.owned nonce w x bad in
                let rest = successes-le nonces w' u s (Same-IsRead w.db w'.db id u s kept i) in
                let far = Same-rank w.db w'.db id u s kept in
                let counted : successes service driver id (nonce ∷ nonces) w
                    ≡ successes service driver id nonces w' =
                  ground (arith, here, open_yet, bad) in
                omega (arith, counted, rest, far)
          ]
        ]
  ]

  -- However often the receipt of an upgrade is read and a step made on it while it is unfinished, at
  -- most ten of these attempts succeed, whatever the driver answers and whichever attempts fail in
  -- between, where the row names its source, its destination if it has one, and its Session.
  pub steps_bounded :
      (nonces : List Text) (w : World) (u : UpgradeRow) (s : SandboxRow)
      → IsRead w.db id u s
      → successes service driver id nonces w ≤ 10
  steps_bounded nonces w u s i =
      let r : Receipt = receipt w.db id u s in
      omega (
        arith,
        successes-le nonces w u s i,
        grade-le (is_some r.finished_at) (r.previous_version == []) (is_some r.quiesced_at)
            (r.checkpoint.reference == []) (is_some r.rollback_at) (is_some r.restored_at)
            (r.destination_resource_id == []) (is_some r.activated_at) (is_some r.verified_at)
            (is_cleaned w.db r.session_id r),
      )
