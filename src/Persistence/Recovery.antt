-- ===== src/Persistence/Recovery.antt =====
-- internal/persistence/recovery.go and types.go: the request of a recovery and its receipt.
use dorf.Base.{ℕ, Bool, ◌&&◌, ◌||◌, Option, Text, leb, eqb, length, all}
use dorf.Std.Strings.{is_bounded_identity}

-- A published checkpoint. `Eligible` is true for each of them, and is left out.
pub record Checkpoint : Type 0 where
  pub session_id : Text
  pub sandbox_id : Text
  pub resource_id : Text
  pub profile_name : Text
  pub profile_revision : Text
  pub effective_upgrade_id : Text
  pub last_activity_at : ℕ
  pub native_revision : ℕ
  pub delivery_hold_count : ℕ
  pub cleanup : Bool
  pub repository : Text
  pub snapshot_id : Text
  pub published_at : ℕ

pub record RecoveryRequest : Type 0 where
  pub id : Text
  pub session_id : Text
  pub sandbox_id : Text
  pub repository : Text
  pub snapshot_id : Text

pub record EffectivePackage : Type 0 where
  pub upgrade_id : Text
  pub package_path : Text
  pub version : Text

pub record RecoveryReceipt : Type 0 where
  pub request : RecoveryRequest
  pub checkpoint : Checkpoint
  pub source_resource_id : Text
  pub source_provider_id : Text
  pub destination_resource_id : Text
  pub destination_provider_id : Text
  pub effective_package : EffectivePackage
  pub requested_at : ℕ
  pub destination_deleted_at : Option ℕ
  pub verified_at : Option ℕ
  pub source_deleted_at : Option ℕ
  pub finished_at : Option ℕ

-- `^[0-9a-f]{64}$`.
unfoldable pub is_snapshot : Text → Bool
is_snapshot t =
    eqb (length t) 64 && all (λ c. (leb b'0' c && leb c b'9') || (leb b'a' c && leb c b'f')) t

-- The identities of a request, in `Validate`.
unfoldable pub are_exact_identities : RecoveryRequest → Bool
are_exact_identities r =
    is_bounded_identity 256 r.id
    && (is_bounded_identity 256 r.session_id
        && (is_bounded_identity 256 r.sandbox_id && is_bounded_identity 256 r.repository))
