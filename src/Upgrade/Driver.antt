-- ===== src/Upgrade/Driver.antt =====
-- The driver of internal/upgrade/upgrade.go, whose operations leave the program.
use dorf.Base.{Bool, List, Text}
use dorf.Base.Results.{Result, Done}
use dorf.Core.Domain.{Sandbox}
use dorf.Upgrade.Receipt.{Request, Checkpoint}
use dorf.Effects.{Call}

-- `Driver`, with the `Claim` of the service: whether the executor still owns the task.
pub record Driver : Type 0 where
  pub claim : List Call → Result Done
  pub inspect_package : List Call → Sandbox → Request → Result Text
  pub quiesce : List Call → Sandbox → Text → Result Done
  pub capture : List Call → Sandbox → Text → Result Checkpoint
  pub activate : List Call → Sandbox → Request → Result Done
  pub replaces_resource : Bool
  pub restore : List Call → Sandbox → Sandbox → Checkpoint → Result Text
  pub verify : List Call → Sandbox → Text → Text → Result Done
  pub delete_resource : List Call → Sandbox → Result Done
  pub delete_checkpoint : List Call → Sandbox → Checkpoint → Result Done
