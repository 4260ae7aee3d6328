-- ===== src/Tests/ProgressTests.antt =====
-- The first steps of a small upgrade.
use dorf.Base.{◌≤◌, ◌≡◌, refl, List, [], ◌∷◌, Text, Text-discrete, ℕ_discrete}
use dorf.Base.Results.{err, message}
use dorf.Std.Strings.{trim_space}
use dorf.Upgrade.Driver.{Driver}
use dorf.Store.Table.{get, put, update}
use dorf.Store.Sandboxes.{find_sandbox_resource, find_session}
use dorf.Store.Tasks.{latest_task}
use dorf.Store.Attention.{clear_execution_attention, set_execution_attention}
use dorf.Store.Upgrades.{
  find_upgrade, record_upgrade_preparation, record_upgrade_quiesced, record_upgrade_checkpoint,
}
use dorf.Effects.{World, ◌>>=◌, ◌>>◌, branch, refuse_if, transact, look_up, call, fail}
use dorf.Upgrade.Service.{require_claim, save, perform, prepare, quiesce, capture, dispatch, step}
use dorf.Upgrade.Service.Termination.{successes, steps_bounded}
use dorf.Tests.Fixtures.{open_db, the_sandbox, willing}
use dorf.Tests.UpgradeTests.{uid, requested_row}
use dorf.Tests.ServiceTests.{broken_version}

abbrev w0 : World
w0 = record { db = record open_db { upgrades = (uid, requested_row) ∷ [] }; calls = [] }

abbrev nonces : List Text
nonces = [] ∷ [] ∷ [] ∷ []

-- Nothing can be quiesced.
abbrev busy : Driver
busy = record broken_version { quiesce = λ calls s thread. err (message "busy") }

-- Preparation succeeds, and then quiescence fails twice.
one_success : successes willing busy uid nonces w0 ≡ 1
unfolding successes find_upgrade step dispatch prepare quiesce perform save require_claim ◌>>=◌ ◌>>◌
    branch refuse_if transact look_up call clear_execution_attention set_execution_attention
    record_upgrade_preparation find_sandbox_resource find_session latest_task trim_space get put
    update Text-discrete ℕ_discrete fail
one_success = refl

-- Preparation, quiescence and checkpoint.
three_successes : successes willing broken_version uid nonces w0 ≡ 3
unfolding successes find_upgrade step dispatch prepare quiesce capture perform save require_claim
    ◌>>=◌ ◌>>◌ branch refuse_if transact look_up call clear_execution_attention
    record_upgrade_preparation record_upgrade_quiesced record_upgrade_checkpoint
    find_sandbox_resource find_session latest_task trim_space get put update Text-discrete
    ℕ_discrete
three_successes = refl

steps_bounded_example : successes willing busy uid nonces w0 ≤ 10
unfolding get Text-discrete ℕ_discrete
steps_bounded_example = steps_bounded willing busy uid nonces w0 requested_row the_sandbox (record {
  row = refl;
  sandbox = refl;
  owned = refl;
  named = record { source = λ e. cc; destination = λ e. cc };
})
