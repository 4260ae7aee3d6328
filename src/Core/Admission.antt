-- ===== src/Core/Admission.antt =====
-- internal/core/admission.go: what a client may ask for, and the configuration that is admitted.
use dorf.Base.{Bool, true, false, not, ◌&&◌, Option, none, some, Text, ◌==◌, any, eqb, leb, length}
use dorf.Std.Utf8.{rune_count}

pub record SessionAdmission : Type 0 where
  pub keep_running : Bool
  pub created_by_client_id : Text
  pub client_reference : Text
  pub admission_key : Text
  pub agents_md : Text
  pub sandbox_profile : Text
  pub provider_connection : Text
  pub model : Text
  pub reasoning_effort : Text

-- `strings.ContainsRune(value, 0)`.
abbrev pub has_zero : Text → Bool
has_zero t = any (λ c. eqb c 0) t

unfoldable pub is_valid_client_reference : Text → Bool
is_valid_client_reference t = elim (rune_count t) [
  | none ↦ false
  | some n ↦ leb n 255 && not (has_zero t)
]

-- An optional snapshot of an application's instructions.
unfoldable pub is_valid_developer_instructions : Option Text → Bool
is_valid_developer_instructions none = true
is_valid_developer_instructions (some t) = elim (rune_count t) [
  | none ↦ false
  | some n ↦ not (has_zero t) && leb (length t) 0x100000
]

unfoldable pub same_developer_instructions : Option Text → Option Text → Bool
same_developer_instructions none none = true
same_developer_instructions (some a) (some b) = a == b
same_developer_instructions _ _ = false
