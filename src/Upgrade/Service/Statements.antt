-- ===== src/Upgrade/Service/Statements.antt =====
-- The statements of an upgrade before its end move neither its hold nor the binding of its Sandbox.
use dorf.Base.{Bool, Text, arith}
use dorf.Core.Domain.{Sandbox}
use dorf.Upgrade.Receipt.{Checkpoint, Receipt}
use dorf.Store.Table.{update}
use dorf.Store.Sandboxes.{reserve_sandbox_resource, record_sandbox_resource_deleted}
use dorf.Store.Attention.{set_execution_attention, clear_execution_attention}
use dorf.Store.Upgrades.{
  record_upgrade_preparation, record_upgrade_quiesced, record_upgrade_checkpoint,
  record_upgrade_activated, request_upgrade_rollback, reserve_upgrade_destination,
  bind_upgrade_destination, mark_restored, record_upgrade_restored, record_upgrade_verified,
  record_upgrade_checkpoint_deleted,
}
use dorf.Upgrade.Service.Custody.{KeepsTx}

pub set-KeepsTx : (s a d : Text) → KeepsTx (set_execution_attention s a d)
unfolding set_execution_attention update
set-KeepsTx s a d db db' u h = record { holds = ground arith; bindings = ground arith }

pub clear-KeepsTx : (s a : Text) → KeepsTx (clear_execution_attention s a)
unfolding clear_execution_attention update
clear-KeepsTx s a db db' u h = record { holds = ground arith; bindings = ground arith }

pub preparation-KeepsTx : (id version : Text) → KeepsTx (record_upgrade_preparation id version)
unfolding record_upgrade_preparation update
preparation-KeepsTx id version db db' u h = record { holds = ground arith; bindings = ground arith }

pub quiesced-KeepsTx : (id : Text) → KeepsTx (record_upgrade_quiesced id)
unfolding record_upgrade_quiesced update
quiesced-KeepsTx id db db' u h = record { holds = ground arith; bindings = ground arith }

pub checkpoint-KeepsTx : (id : Text) (c : Checkpoint) → KeepsTx (record_upgrade_checkpoint id c)
unfolding record_upgrade_checkpoint update
checkpoint-KeepsTx id c db db' u h = record { holds = ground arith; bindings = ground arith }

pub activated-KeepsTx : (id : Text) → KeepsTx (record_upgrade_activated id)
unfolding record_upgrade_activated update
activated-KeepsTx id db db' u h = record { holds = ground arith; bindings = ground arith }

pub rollback-KeepsTx : (id code : Text) → KeepsTx (request_upgrade_rollback id code)
unfolding request_upgrade_rollback update
rollback-KeepsTx id code db db' u h = record { holds = ground arith; bindings = ground arith }

pub reserve-KeepsTx :
    (r : Receipt) (replace : Bool) (nonce : Text)
    → KeepsTx (reserve_upgrade_destination r replace nonce)
unfolding reserve_upgrade_destination reserve_sandbox_resource bind_upgrade_destination update
reserve-KeepsTx r replace nonce db db' u h = record {
  holds = ground arith;
  bindings = ground arith;
}

pub restored-KeepsTx :
    (r : Receipt) (provider : Text) → KeepsTx (record_upgrade_restored r provider)
unfolding record_upgrade_restored mark_restored update
restored-KeepsTx r provider db db' u h = record { holds = ground arith; bindings = ground arith }

pub verified-KeepsTx : (id : Text) → KeepsTx (record_upgrade_verified id)
unfolding record_upgrade_verified update
verified-KeepsTx id db db' u h = record { holds = ground arith; bindings = ground arith }

pub dropped-KeepsTx : (id : Text) → KeepsTx (record_upgrade_checkpoint_deleted id)
unfolding record_upgrade_checkpoint_deleted update
dropped-KeepsTx id db db' u h = record { holds = ground arith; bindings = ground arith }

pub deleted-KeepsTx : (owned : Sandbox) → KeepsTx (record_sandbox_resource_deleted owned)
unfolding update
deleted-KeepsTx owned db db' u h = record { holds = ground arith; bindings = ground arith }
