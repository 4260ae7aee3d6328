-- ===== src/Core/Profiles.antt =====
-- The Sandbox profiles of internal/core/domain.go: an exact definition, the hash that names it, and
-- the receipt of its functional verification.
-- `E2BSandboxTimeout` is a count of nanoseconds, positive or not set.
pub mod Identity
use dorf.Base.{
  ℕ, Bool, true, false, not, ◌&&◌, Option, none, some, List, [], ◌∷◌, ◌++◌, Text, txt, ◌==◌, length,
  is_some,
}
use dorf.Std.Sha256.{sum256, hex}
use dorf.Std.Decimal.{decimal}

pub data SandboxProvider : Type 0 where
  incus e2b : SandboxProvider

abbrev pub provider_text : SandboxProvider → Text
provider_text incus = txt "incus"
provider_text e2b = txt "e2b"

abbrev pub base_profile_contract : Text
base_profile_contract = txt "base-2"

-- The fields of `SandboxProfile` that define what is run.
pub record Definition : Type 0 where
  pub provider : SandboxProvider
  pub harness : Text
  pub artifact : Text
  pub incus_endpoint_authority_hash : Text
  pub incus_project : Text
  pub incus_storage_pool : Text
  pub incus_network : Text
  pub incus_disk_size : Text
  pub incus_gateway_url : Text
  pub e2b_gateway_url : Text
  pub e2b_sandbox_timeout : ℕ
  pub e2b_allow_internet : Bool

pub record ProfileVerification : Type 0 where
  pub profile_name : Text
  pub contract_version : Text
  pub definition_hash : Text
  pub sandbox_id : Text
  pub ownership_nonce : Text
  pub harness_version : Text
  pub attempted_at : ℕ
  pub probe_completed_at : Option ℕ
  pub cleaned_at : Option ℕ
  pub last_error : Text

pub record SandboxProfile : Type 0 where
  pub active_revision : Text
  pub name : Text
  pub definition : Definition
  pub definition_hash : Text
  pub is_default : Bool
  pub created_at : ℕ
  pub verification : Option ProfileVerification

-- `strconv.FormatBool`.
abbrev pub bool_text : Bool → Text
bool_text true = txt "true"
bool_text false = txt "false"

abbrev pub hash_fields : Definition → List Text
hash_fields d =
    txt "dorf-sandbox-profile-v1"
    ∷ provider_text d.provider
    ∷ d.harness
    ∷ d.artifact
    ∷ d.incus_endpoint_authority_hash
    ∷ d.incus_project
    ∷ d.incus_storage_pool
    ∷ d.incus_network
    ∷ d.incus_disk_size
    ∷ d.incus_gateway_url
    ∷ d.e2b_gateway_url
    ∷ decimal d.e2b_sandbox_timeout
    ∷ bool_text d.e2b_allow_internet
    ∷ []

-- Each field after its length and a colon.
unfoldable pub write_fields : List Text → Text
write_fields [] = []
write_fields (f ∷ fs) = decimal (length f) ++ (58 ∷ (f ++ write_fields fs))

unfoldable pub canonical : Definition → Text
canonical d = write_fields (hash_fields d)

unfoldable pub current_definition_hash : Definition → Text
current_definition_hash d = hex (sum256 (canonical d))

unfoldable pub is_base_verified : SandboxProfile → Bool
is_base_verified p =
    let hash = current_definition_hash p.definition in
    elim p.verification [
      | none ↦ false
      | some v ↦
          not (p.definition_hash == [])
          && (p.definition_hash == hash
              && (v.definition_hash == hash
                  && (v.contract_version == base_profile_contract
                      && (is_some v.probe_completed_at
                          && (is_some v.cleaned_at && v.last_error == [])))))
    ]
