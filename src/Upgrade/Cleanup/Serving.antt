-- ===== src/Upgrade/Cleanup/Serving.antt =====
-- What upgrade cleanup leaves alone.
use dorf.Base.{
  ℕ, suc, ◌≡◌, ◌≢◌, refl, sym, ◌∙◌, subst, inl, inr, Bool, true, false, ◌||◌, Option, some, List,
  [], ◌∷◌, String, Text, txt, ◌==◌, ==_iff, ==-false, arith, Option-cases,
}
use dorf.Base.Results.{Result, ok, err, Error, Done, Result-cases}
use dorf.Core.Domain.{Sandbox}
use dorf.Upgrade.Receipt.{Receipt, Checkpoint}
use dorf.Upgrade.Driver.{Driver}
use dorf.Store.Table.{get, get-put_ne, update}
use dorf.Store.Db.{SandboxRow, ResourceRow, Db, Tx, Absurd, or_now}
use dorf.Store.Sandboxes.{find_sandbox, find_sandbox_resource, record_sandbox_resource_deleted}
use dorf.Store.Attention.{set_execution_attention, clear_execution_attention}
use dorf.Store.Upgrades.{record_upgrade_checkpoint}
use dorf.Effects.{
  Call, deleted_resource, World, Eff, ◌>>=◌, ◌>>◌, pure, fail, branch, refuse_if, transact, look_up,
  call,
}
use dorf.Upgrade.Service.{
  resource_deleted, require_claim, save, after_failure, perform, delete_resource, source_text,
}
use dorf.Upgrade.Cleanup.{for_each, cleanup, resolve_capture, delete_inactive, prepare_cleanup}

abbrev pub is_deletion_of : Text → Call → Bool
is_deletion_of id (deleted_resource other) = other == id
is_deletion_of id _ = false

-- How often the driver was asked to delete a resource.
abbrev pub deletions : Text → List Call → ℕ
deletions id [] = 0
deletions id (c ∷ cs) =
    let rest = deletions id cs in elim (is_deletion_of id c) [ true ↦ suc rest | false ↦ rest ]

-- The Sandbox is bound to the resource, whose row is `v`, and the driver was asked `n` times to delete
-- that resource.
pub record Serves (sandbox resource : Text) (s : SandboxRow) (v : ResourceRow) (n : ℕ) (w : World)
    : Type 0 where
  pub bound : get sandbox w.db.sandboxes ≡ some s
  pub row : get resource w.db.resources ≡ some v
  pub asked : deletions resource w.calls ≡ n

or_false : (a b : Bool) → (a || b) ≡ false → b ≡ false
or_false a b h = ground (arith)

clash : (b : Bool) → b ≡ true → b ≡ false → ⊥
clash b t f = ground (arith)

not_skipped : (id active : Text) → (id == [] || id == active) ≡ false → id ≢ active
not_skipped id active h same =
    clash (id == active) ((==_iff id active).1 same) (or_false (id == []) (id == active) h)

module _ (sandbox : Text) (s : SandboxRow) (v : ResourceRow) (n : ℕ)
    (own : v.sandbox_id ≡ sandbox) where
  abbrev resource : Text
  resource = s.active_resource_id

  abbrev Q : World → Type 0
  Q = Serves sandbox resource s v n

  abbrev Keeps : {A : Type 0} → Eff A → Type 0
  Keeps m = (w : World) → Q w → Q (m w).1

  abbrev KeepsTx : Tx Done → Type 0
  KeepsTx m =
      (db db' : Db)
      → m db ≡ ok (tt, db')
      → get sandbox db.sandboxes ≡ some s
      → get resource db.resources ≡ some v
      → (get sandbox db'.sandboxes ≡ some s) × (get resource db'.resources ≡ some v)

  bind-Keeps :
      {A B : Type 0} (m : Eff A) (f : A → Eff B)
      → Keeps m
      → ((a : A) → Keeps (f a))
      → Keeps (m >>= f)
  unfolding ◌>>=◌
  bind-Keeps m f h k w q = elim (Result-cases (m w).0) [
    | inl (a, e) ↦ rw (◌>>=◌, e) (k a (m w).1 (h w q))
    | inr (x, e) ↦ rw (◌>>=◌, e) (h w q)
  ]

  then-Keeps : {B : Type 0} (m : Eff Done) (k : Eff B) → Keeps m → Keeps k → Keeps (m >> k)
  unfolding ◌>>◌
  then-Keeps m k h q = bind-Keeps m (λ _. k) h (λ _. q)

  -- What was looked up is known on the state that it was looked up in.
  look_up-Keeps :
      {A B : Type 0} (f : Db → Option A) (e : Error) (k : A → Eff B)
      → ((w : World) (a : A) → f w.db ≡ some a → Q w → Q (k a w).1)
      → Keeps (look_up f e >>= k)
  unfolding ◌>>=◌ look_up
  look_up-Keeps f e k h w q = elim (Option-cases (f w.db)) [
    | inl x ↦ let missed : (look_up f e >>= k) w ≡ (err e, w) = ground (arith, x) in rw missed q
    | inr (a, x) ↦
        let found : (look_up f e >>= k) w ≡ k a w = ground (arith, x) in rw found (h w a x q)
  ]

  branch-Keeps :
      {A : Type 0} (test : Bool) (m k : Eff A)
      → (test ≡ true → Keeps m)
      → (test ≡ false → Keeps k)
      → Keeps (branch test m k)
  unfolding branch
  branch-Keeps true m k h q = h refl
  branch-Keeps false m k h q = q refl

  transact-Keeps : (m : Tx Done) → KeepsTx m → Keeps (transact m)
  unfolding transact
  transact-Keeps m h w q = elim (Result-cases (m w.db)) [
    | inl ((_, db), e) ↦
        let (bound, row) = h w.db db e q.bound q.row in
        rw (transact, e) (record { bound = bound; row = row; asked = q.asked })
    | inr (x, e) ↦ rw (transact, e) q
  ]

  call-Keeps :
      {A : Type 0} (c : Call) (f : List Call → Result A)
      → is_deletion_of resource c ≡ false
      → Keeps (call c f)
  unfolding call
  call-Keeps c f h w q = record { bound = q.bound; row = q.row; asked = ground (arith, h, q.asked) }

  pure-Keeps : {A : Type 0} (a : A) → Keeps (pure a)
  unfolding pure
  pure-Keeps a w q = q

  fail-Keeps : (A : Type 0) (e : Error) → Keeps (fail {A = A} e)
  unfolding fail
  fail-Keeps A e w q = q

  refuse_if-Keeps : (test : Bool) (t : String) → Keeps (refuse_if test t)
  unfolding refuse_if
  refuse_if-Keeps true t w q = q
  refuse_if-Keeps false t w q = q

  set-KeepsTx : (id a d : Text) → KeepsTx (set_execution_attention id a d)
  unfolding set_execution_attention update
  set-KeepsTx id a d db db' h b r = ground arith

  clear-KeepsTx : (id a : Text) → KeepsTx (clear_execution_attention id a)
  unfolding clear_execution_attention update
  clear-KeepsTx id a db db' h b r = ground arith

  checkpoint-KeepsTx : (id : Text) (c : Checkpoint) → KeepsTx (record_upgrade_checkpoint id c)
  unfolding record_upgrade_checkpoint update
  checkpoint-KeepsTx id c db db' h b r = ground arith

  deleted-KeepsTx :
      (owned : Sandbox)
      → owned.resource_id ≢ resource
      → KeepsTx (record_sandbox_resource_deleted owned)
  unfolding update
  deleted-KeepsTx owned other db db' h b r =
      elim (Option-cases (get owned.resource_id db.resources)) [
        | inl x ↦ absurd (ground (arith, x))
        | inr (o, x) ↦
            let gone : ResourceRow = record o { deleted_at = or_now o.deleted_at db.clock } in
            ground (arith, b, r, x, get-put_ne owned.resource_id resource gone db.resources other)
      ]

  module _ (service : Absurd) (driver : Driver) where
    save-Keeps : (m : Tx Done) → KeepsTx m → Keeps (save service driver m)
    unfolding save require_claim
    save-Keeps m h = then-Keeps _ _ (call-Keeps _ _ refl) (transact-Keeps m h)

    after_failure-Keeps : (r : Receipt) (name : Text) → Keeps (after_failure service driver r name)
    unfolding require_claim
    after_failure-Keeps r name =
        then-Keeps _ _ (call-Keeps _ _ refl)
          (then-Keeps _ _ (transact-Keeps _ (set-KeepsTx _ _ _)) (fail-Keeps Done _))

    perform-Keeps :
        (r : Receipt) (name : Text) (fn : Eff Done)
        → Keeps fn
        → Keeps (perform service driver r name fn)
    unfolding perform
    perform-Keeps r name fn h w q = elim (Result-cases (fn w).0) [
      | inl (_, e) ↦
          let clear : Tx Done = clear_execution_attention r.session_id (source_text r) in
          rw (perform, e)
            (transact-Keeps clear (clear-KeepsTx r.session_id (source_text r)) (fn w).1 (h w q))
      | inr (x, e) ↦ rw (perform, e) (after_failure-Keeps r name (fn w).1 (h w q))
    ]

    resolve_capture-Keeps :
        (r : Receipt) (source : Sandbox) → Keeps (resolve_capture service driver r source)
    unfolding resolve_capture
    resolve_capture-Keeps r source =
        branch-Keeps _ _ _
          (λ _. perform-Keeps r (txt "checkpoint-reconcile") _ (
            bind-Keeps _ _ (call-Keeps _ _ refl)
              (λ checkpoint. save-Keeps _ (checkpoint-KeepsTx r.id checkpoint))))
          (λ _. pure-Keeps tt)

    delete_resource-Keeps :
        (r : Receipt) (owned : Sandbox)
        → owned.resource_id ≢ resource
        → Keeps (delete_resource service driver r owned)
    unfolding delete_resource
    delete_resource-Keeps r owned other = perform-Keeps r (txt "resource-cleanup") _ (
        then-Keeps _ _
          (call-Keeps (deleted_resource owned.resource_id) _
            (==-false owned.resource_id resource other))
          (save-Keeps _ (deleted-KeepsTx owned other)))

    -- A resource of a receipt is another one: that of the Sandbox is skipped as its active one, and a
    -- receipt of another Sandbox does not find it.
    found-other :
        (session id box : Text) (owned : Sandbox) (w : World)
        → (box ≡ sandbox → id ≢ resource)
        → Q w
        → find_sandbox_resource w.db session box id ≡ some owned
        → owned.resource_id ≢ resource
    unfolding find_sandbox_resource
    found-other session id box owned w skipped q h same =
        ground (arith, skipped, q.row, own, same, ==_iff v.sandbox_id box)

    delete_inactive-Keeps :
        (session : Text) (r : Receipt) (active id : Text)
        → (r.sandbox_id ≡ sandbox → active ≡ resource)
        → Keeps (delete_inactive service driver session r active id)
    unfolding delete_inactive resource_deleted
    delete_inactive-Keeps session r active id known =
        branch-Keeps _ _ _ (λ _. pure-Keeps tt)
          (λ kept. look_up-Keeps _ _ _ (λ w0 deleted _ q0.
            branch-Keeps _ _ _ (λ _. pure-Keeps tt)
              (λ _. look_up-Keeps _ _ _ (λ w owned found q.
                delete_resource-Keeps r owned
                  (found-other session id r.sandbox_id owned w
                    (λ mine same. not_skipped id active kept (same ∙ sym (known mine))) q found)
                  w q))
              w0 q0))

    for_each-Keeps :
        {A : Type 0} (f : A → Eff Done) (xs : List A)
        → ((x : A) → Keeps (f x))
        → Keeps (for_each f xs)
    unfolding for_each
    for_each-Keeps f [] h = pure-Keeps tt
    for_each-Keeps f (x ∷ xs) h = then-Keeps _ _ (h x) (for_each-Keeps f xs h)

    cleanup-Keeps :
        (task : Option Text) (session : Text) (fn : Receipt → Sandbox → Eff Done)
        → ((r : Receipt) (source : Sandbox) → Keeps (fn r source))
        → Keeps (cleanup service driver task session fn)
    unfolding cleanup require_claim
    cleanup-Keeps task session fn h = look_up-Keeps _ _ _ (λ w0 row _ q0.
        then-Keeps _ _ (refuse_if-Keeps _ _)
          (then-Keeps _ _ (refuse_if-Keeps _ _) (
            then-Keeps _ _ (call-Keeps _ _ refl) (
              look_up-Keeps _ _ _ (λ w1 receipts _ q1.
                for_each-Keeps _ receipts
                  (λ r. look_up-Keeps _ _ _ (λ w2 source _ q2. h r source w2 q2)) w1 q1))))
          w0 q0)

    found-active :
        (box : Text) (active : Sandbox) (w : World)
        → Q w
        → find_sandbox w.db box ≡ some active
        → box ≡ sandbox
        → active.resource_id ≡ resource
    unfolding find_sandbox
    found-active box active w q h same =
        let here : find_sandbox w.db sandbox ≡ some active =
          subst (λ x. find_sandbox w.db x ≡ some active) same h in
        ground (arith, here, q.bound, q.row)

    -- The first phase of upgrade cleanup, whatever the driver answers and whichever receipts the
    -- Session has, keeps a Sandbox in service: it stays bound to its active resource, the row of that
    -- resource stays as it is, and the driver is never asked to delete that resource.
    pub prepare_cleanup-Serves :
        (task : Option Text) (session : Text) (w : World)
        → Serves sandbox s.active_resource_id s v n w
        → Serves sandbox s.active_resource_id s v n
            (prepare_cleanup service driver task session w).1
    unfolding prepare_cleanup
    prepare_cleanup-Serves task session = cleanup-Keeps task session _ (λ r source.
        then-Keeps _ _ (resolve_capture-Keeps r source) (
          look_up-Keeps _ _ _ (λ w active found q.
            for_each-Keeps _ _
              (λ id.
                delete_inactive-Keeps session r active.resource_id id
                  (found-active r.sandbox_id active w q found))
              w q)))
