-- ===== src/Direct/Admission/Bounds.antt =====
-- What a new admission has been checked for when it reaches the store.
use dorf.Base.{ℕ, ◌≤◌, ◌≡◌, ◌≢◌, inl, inr, Bool, true, false, [], Text, ==_iff, length, arith}
use dorf.Base.Results.{ok, Result-cases}
use dorf.Std.Strings.{trim_space}
use dorf.Core.Admission.{SessionAdmission, has_zero}
use dorf.Store.Db.{Db}
use dorf.Store.Admission.{is_effort}
use dorf.Direct.Admission.{
  AdmissionRequest, AdmissionProvider, invalid_admission_text, normalized,
  normalize_admission_request, select_verified, resolve_model, complete,
}

abbrev pub IsText : ℕ → Text → Type 0
IsText limit t = (length t ≤ limit) × (has_zero t ≡ false)

text-IsText :
    (t : Text) (limit : ℕ) (required : Bool)
    → invalid_admission_text t limit required ≡ false
    → IsText limit t
unfolding invalid_admission_text
text-IsText t limit required h = ground (arith)

required-ne :
    (t : Text) (limit : ℕ) → invalid_admission_text t limit true ≡ false → trim_space t ≢ []
unfolding invalid_admission_text
required-ne t limit h = ground (arith, ==_iff (trim_space t) [])

normalize-ok :
    (r : AdmissionRequest) (a : SessionAdmission)
    → normalize_admission_request r ≡ ok a
    → (a ≡ normalized r)
      × IsText 0x100000 a.agents_md
      × IsText 1024 a.model
      × IsText 255 a.sandbox_profile
      × IsText 255 a.provider_connection
      × (is_effort a.reasoning_effort ≡ true)
unfolding normalize_admission_request
normalize-ok r a h =
    let n = normalized r in
    ground (
      arith,
      text-IsText n.agents_md 0x100000 false,
      text-IsText n.model 1024 false,
      text-IsText n.sandbox_profile 255 false,
      text-IsText n.provider_connection 255 false,
    )

-- The admission that the service hands to the store for a new Session has the request's key, agent
-- instructions of at most 2^20 bytes, a model of at most 1024 bytes that is not blank, neither with
-- a zero byte, and one of the four efforts.
pub complete-bounds :
    (provider : AdmissionProvider) (db : Db) (r : AdmissionRequest) (a : SessionAdmission)
    → complete provider db r ≡ ok a
    → (a.admission_key ≡ r.admission_key)
      × IsText 0x100000 a.agents_md
      × IsText 1024 a.model
      × (trim_space a.model ≢ [])
      × (is_effort a.reasoning_effort ≡ true)
unfolding complete
complete-bounds provider db r a h = elim (Result-cases (normalize_admission_request r)) [
  | inr (e, bad) ↦ absurd (ground (arith))
  | inl (n, good) ↦
      let (same, agents, m, p, c, effort) = normalize-ok r n good in
      elim (Result-cases (select_verified db n.sandbox_profile)) [
        | inr (e, bad) ↦ absurd (ground (arith))
        | inl (p, chosen) ↦
            elim (Result-cases (resolve_model provider n.provider_connection n.model)) [
              | inr (e, bad) ↦ absurd (ground (arith))
              | inl (pair, resolved) ↦ ground (
                arith,
                text-IsText (trim_space pair.1) 1024 true,
                required-ne (trim_space pair.1) 1024,
              )
            ]
      ]
]
