-- ===== src/Core/Domain.antt =====
-- internal/core/domain.go: the durable records and the identities derived from them.
-- A `time.Time` whose zero value means "not yet" is an `Option ℕ`; Go's string enumerations are
-- data types of the constants that the code declares, which are the only values it passes.
use dorf.Std.Sha256.{sum256, hex}
use dorf.Base.{
  ℕ, ◌≡◌, refl, Bool, true, false, ◌&&◌, ◌||◌, Option, List, [], ◌∷◌, ◌++◌, Text, txt, ◌==◌, take,
}

pub data CleanupState : Type 0 where
  pending requested scheduled complete : CleanupState

pub data ActionKind : Type 0 where
  sandbox_create route_create route_revoke sandbox_delete : ActionKind

pub data ActionState : Type 0 where
  unsettled succeeded failed : ActionState

pub CleanupState-discrete : Discrete CleanupState
CleanupState-discrete = hlevel

abbrev pub is_pending : CleanupState → Bool
is_pending pending = true
is_pending _ = false

abbrev pub is_requested : CleanupState → Bool
is_requested requested = true
is_requested _ = false

abbrev pub is_scheduled : CleanupState → Bool
is_scheduled scheduled = true
is_scheduled _ = false

abbrev pub is_complete : CleanupState → Bool
is_complete complete = true
is_complete _ = false

abbrev pub is_succeeded : ActionState → Bool
is_succeeded succeeded = true
is_succeeded _ = false

abbrev pub kind_text : ActionKind → Text
kind_text sandbox_create = txt "sandbox-create"
kind_text route_create = txt "provider-route-create"
kind_text route_revoke = txt "provider-route-revoke"
kind_text sandbox_delete = txt "sandbox-delete"

abbrev pub same_kind : ActionKind → ActionKind → Bool
same_kind sandbox_create sandbox_create = true
same_kind route_create route_create = true
same_kind route_revoke route_revoke = true
same_kind sandbox_delete sandbox_delete = true
same_kind _ _ = false

pub same_kind-eq : (a b : ActionKind) → same_kind a b ≡ true → a ≡ b
same_kind-eq sandbox_create sandbox_create h = refl
same_kind-eq route_create route_create h = refl
same_kind-eq route_revoke route_revoke h = refl
same_kind-eq sandbox_delete sandbox_delete h = refl
same_kind-eq _ _ h = cc

abbrev pub is_route_revoke : ActionKind → Bool
is_route_revoke route_revoke = true
is_route_revoke _ = false

abbrev pub is_sandbox_delete : ActionKind → Bool
is_sandbox_delete sandbox_delete = true
is_sandbox_delete _ = false

pub record Action : Type 0 where
  pub id : Text
  pub session_id : Text
  pub kind : ActionKind
  pub state : ActionState
  pub scope : Text
  pub created_at : ℕ
  pub settled_at : Option ℕ

pub record Sandbox : Type 0 where
  pub id : Text
  pub session_id : Text
  pub name : Text
  pub ownership_nonce : Text
  pub resource_id : Text
  pub provider_id : Text

pub record SandboxResource : Type 0 where
  pub id : Text
  pub sandbox_id : Text
  pub ownership_nonce : Text
  pub provider_id : Text
  pub reserved_at : ℕ
  pub observed_at : Option ℕ
  pub deleted_at : Option ℕ

pub record Route : Type 0 where
  pub id : Text
  pub sandbox_id : Text

pub record Attention : Type 0 where
  pub detail : Text
  pub source : Text
  pub at : ℕ

-- `Harness` and `CreatedByClientName` are joined from other tables for display and left out.
-- The three execution attention fields are set and cleared together, as one optional record.
pub record Session : Type 0 where
  pub id : Text
  pub admission_key : Text
  pub agents_md : Text
  pub created_by_client_id : Text
  pub client_reference : Text
  pub thread_id : Text
  pub sandbox_profile : Text
  pub sandbox_profile_revision : Text
  pub provider_connection : Text
  pub model : Text
  pub reasoning_effort : Text
  pub keep_running : Bool
  pub admission_open : Bool
  pub cleanup_state : CleanupState
  pub current_task_id : Text
  pub current_task_name : Text
  pub execution_attention : Option Attention
  pub cleanup_attention : Text
  pub admitted_at : ℕ
  pub cleaned_at : Option ℕ

unfoldable pub has_succeeded_action : List Action → ActionKind → Text → Bool
has_succeeded_action [] kind scope = false
has_succeeded_action (a ∷ as') kind scope =
    (same_kind a.kind kind && (a.scope == scope && is_succeeded a.state))
    || has_succeeded_action as' kind scope

unfoldable pub digest : Text → ℕ → Text
digest value len = take len (hex (sum256 value))

unfoldable pub session_id : Text → Text
unfolding digest
session_id admission_key = txt "session-" ++ digest admission_key 20

unfoldable pub main_sandbox_name : Text → Text
unfolding digest
main_sandbox_name session = txt "dorf-" ++ digest session 20

unfoldable pub provider_route_id : Text → Text
unfolding digest
provider_route_id action_id = txt "route-" ++ digest action_id 16

unfoldable pub action_id : Text → ActionKind → Text
unfolding digest
action_id session kind = txt "action-" ++ digest (session ++ (0 ∷ kind_text kind)) 24

unfoldable pub scoped_action_id : Text → ActionKind → Text → Text
unfolding digest
scoped_action_id session kind scope =
    txt "action-" ++ digest (session ++ (0 ∷ kind_text kind ++ (0 ∷ scope))) 24

unfoldable pub route_for_sandbox : Sandbox → Route
route_for_sandbox s = record {
  id = provider_route_id (scoped_action_id s.session_id route_create s.id);
  sandbox_id = s.id;
}

abbrev pub default_sandbox : Text
default_sandbox = txt "default"

abbrev pub cleanup_task_name : Text
cleanup_task_name = txt "dorf-session-cleanup-v3"
