-- ===== src/Store/Attention.antt =====
-- The attention statements of internal/postgres/store.go: what an operator has to look at, and which
-- part of the program said so.
pub mod Ownership
use dorf.Base.{◌≡◌, Bool, true, false, not, ◌||◌, Option, none, some, [], Text, ◌==◌, take, leb}
use dorf.Base.Results.{ok, err, Done}
use dorf.Std.Strings.{trim_space}
use dorf.Core.Domain.{Attention, is_complete}
use dorf.Store.Table.{update}
use dorf.Store.Db.{
  SessionRow, Db, Tx, ◌>>=◌, ◌>>◌, pure, refuse_if, branch, exec, expect_one_rows, null_if_empty,
}

abbrev pub may_set : Text → SessionRow → Bool
may_set source r = elim r.execution_attention [ none ↦ true | some a ↦ a.source == source ]

abbrev pub may_clear : Text → SessionRow → Bool
may_clear source r = elim r.execution_attention [ none ↦ false | some a ↦ a.source == source ]

abbrev pub attended : Attention → SessionRow → SessionRow
attended a r = record r { execution_attention = some a }

abbrev pub unattended : SessionRow → SessionRow
unattended r = record r { execution_attention = none }

-- The statement `SetExecutionAttention`.
abbrev pub set_attention_row : Text → Text → Text → Tx Done
set_attention_row session source detail = expect_one_rows (
    exec λ db.
      let (t, n) =
        update session (may_set source)
          (attended (record { detail = detail; source = source; at = db.clock })) db.sessions in
      (record db { sessions = t }, n))

-- `SetExecutionAttention`: a detail longer than 4096 bytes is cut.
unfoldable pub set_execution_attention : Text → Text → Text → Tx Done
set_execution_attention session source detail =
    branch (session == [] || (trim_space source == [] || trim_space detail == []))
      (refuse_if true "execution attention requires Session ID, exact source, and detail")
      (set_attention_row session (trim_space source) (take 4096 (trim_space detail)))

-- `ClearExecutionAttention`: a primary key lets it change one row at most.
unfoldable pub clear_execution_attention : Text → Text → Tx Done
clear_execution_attention session source =
    branch (session == [] || trim_space source == [])
      (refuse_if true "execution attention clearing requires Session ID and exact source")
      (λ db.
        let (t, n) = update session (may_clear (trim_space source)) unattended db.sessions in
        ok (tt, record db { sessions = t }))

-- `SetCleanupAttention`.
unfoldable pub set_cleanup_attention : Text → Text → Tx Done
set_cleanup_attention session detail = expect_one_rows (
    exec λ db.
      let (t, n) =
        update session (λ r. not (is_complete r.cleanup_state))
          (λ r. record r { cleanup_attention = null_if_empty (take 4096 (trim_space detail)) })
          db.sessions in
      (record db { sessions = t }, n))
