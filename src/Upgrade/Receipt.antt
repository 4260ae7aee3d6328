-- ===== src/Upgrade/Receipt.antt =====
-- internal/upgrade/upgrade.go: the request and its receipt, from which the state is derived.
use dorf.Base.{
  ℕ, zero, suc, Bool, true, false, not, ◌&&◌, ◌||◌, Option, none, some, [], ◌∷◌, Text, txt, ◌==◌,
  leb, eqb, length, all, is_some,
}

pub record Checkpoint : Type 0 where
  pub key : Text
  pub reference : Text
  pub source_id : Text

pub record Request : Type 0 where
  pub id : Text
  pub session_id : Text
  pub sandbox_id : Text
  pub package_path : Text
  pub version : Text

is_lower : ℕ → Bool
is_lower c = leb b'a' c && leb c b'z'

is_upper : ℕ → Bool
is_upper c = leb b'A' c && leb c b'Z'

is_digit : ℕ → Bool
is_digit c = leb b'0' c && leb c b'9'

-- `^[a-z][a-z0-9-]{0,62}$`, of internal/sandbox/checkpoint.go.
unfoldable pub valid_checkpoint_key : Text → Bool
unfolding is_lower is_digit
valid_checkpoint_key [] = false
valid_checkpoint_key (c ∷ cs) =
    is_lower c && (leb (length cs) 62 && all (λ d. is_lower d || (is_digit d || eqb d b'-')) cs)

is_package_byte : ℕ → Bool
unfolding is_lower is_upper is_digit
is_package_byte c =
    is_lower c
    || (is_upper c
        || (is_digit c
            || (eqb c b'+' || (eqb c b'.' || (eqb c b'_' || (eqb c b'?' || eqb c b'-'))))))

-- `[a-z0-9]{n}-[a-zA-Z0-9+._?-]+` at the end of the text.
valid_store_name : ℕ → Text → Bool
unfolding is_package_byte is_lower is_digit
valid_store_name n [] = false
valid_store_name zero (c ∷ cs) = eqb c b'-' && (leb 1 (length cs) && all is_package_byte cs)
valid_store_name (suc n) (c ∷ cs) = (is_lower c || is_digit c) && valid_store_name n cs

strip_prefix : Text → Text → Option Text
strip_prefix [] t = some t
strip_prefix (p ∷ ps) [] = none
strip_prefix (p ∷ ps) (c ∷ cs) =
    let rest = strip_prefix ps cs in elim (eqb p c) [ true ↦ rest | false ↦ none ]

-- `^/nix/store/[a-z0-9]{32}-[a-zA-Z0-9+._?-]+$`.
unfoldable pub valid_package_path : Text → Bool
unfolding strip_prefix valid_store_name
valid_package_path t = elim (strip_prefix (txt "/nix/store/") t) [
  | none ↦ false
  | some name ↦ valid_store_name 32 name
]

-- `[0-9]+` and `fields` more numbers, each after a point. `seen` says whether the current number
-- has a digit.
valid_numbers : ℕ → Bool → Text → Bool
unfolding is_digit
valid_numbers zero seen [] = seen
valid_numbers (suc fields) seen [] = false
valid_numbers zero seen (c ∷ cs) = is_digit c && valid_numbers zero true cs
valid_numbers (suc fields) seen (c ∷ cs) =
    let number = valid_numbers (suc fields) true cs in
    let next = valid_numbers fields false cs in
    elim (is_digit c) [ true ↦ number | false ↦ eqb c b'.' && (seen && next) ]

-- `^[0-9]+\.[0-9]+\.[0-9]+$`.
unfoldable pub valid_version : Text → Bool
unfolding valid_numbers
valid_version t = valid_numbers 2 false t

-- `Request.Validate`, whether it returns no error.
unfoldable pub is_valid_request : Request → Bool
is_valid_request r =
    valid_checkpoint_key r.id
    && (not (r.session_id == [])
        && (not (r.sandbox_id == [])
            && (valid_package_path r.package_path && valid_version r.version)))

pub record Receipt : Type 0 where
  pub request : Request
  pub open request use *
  pub source_resource_id : Text
  pub source_provider_id : Text
  pub destination_provider_id : Text
  pub destination_resource_id : Text
  pub requested_at : ℕ
  pub previous_version : Text
  pub quiesced_at : Option ℕ
  pub checkpoint : Checkpoint
  pub activated_at : Option ℕ
  pub rollback_at : Option ℕ
  pub failure_code : Text
  pub restored_at : Option ℕ
  pub verified_at : Option ℕ
  pub checkpoint_deleted_at : Option ℕ
  pub finished_at : Option ℕ

pub data Outcome : Type 0 where
  unfinished rolled_back upgraded : Outcome

unfoldable pub outcome : Receipt → Outcome
outcome r = elim (is_some r.finished_at) [
  | false ↦ unfinished
  | true ↦ elim (is_some r.rollback_at) [ true ↦ rolled_back | false ↦ upgraded ]
]

pub data Status : Type 0 where
  ready rolling_back verifying upgrading : Status

unfoldable pub status : Receipt → Status
status r = elim (is_some r.finished_at) [
  | true ↦ ready
  | false ↦ elim (is_some r.rollback_at && not (is_some r.restored_at)) [
    | true ↦ rolling_back
    | false ↦ elim (is_some r.activated_at || is_some r.restored_at) [
      | true ↦ verifying
      | false ↦ upgrading
    ]
  ]
]
