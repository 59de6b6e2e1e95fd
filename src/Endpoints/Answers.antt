-- ===== src/Endpoints/Answers.antt =====
-- internal/endpoints: every call with an answer gives one, or else an error.
use cxone_sdk_golang.Prelude.{◌≡◌, refl, ◌⊎◌, inl, inr, true, false, none, some, Bool-cases}
use cxone_sdk_golang.Errors.{is_nil}
use cxone_sdk_golang.Transport.Json.{JsonResult}
use cxone_sdk_golang.Endpoints.{Funnel, Codec, answer}

module _ {W B A : Type 0} (funnel : Funnel W) (codec : Codec B A) where
  pub answer-answers :
      (zero_answer : A) (r : JsonResult A × W)
      → (is_nil (answer funnel codec zero_answer r).0.1 ≡ true)
          × ((a : A) × ((answer funnel codec zero_answer r).0.0 ≡ some a))
        ⊎ (is_nil (answer funnel codec zero_answer r).0.1 ≡ false)
          × ((answer funnel codec zero_answer r).0.0 ≡ none)
  unfolding answer
  answer-answers zero_answer ((none, e), w) = elim (Bool-cases (is_nil e)) [
    | inl ok ↦ rw ok (inl (refl, (zero_answer, refl)))
    | inr bad ↦ rw bad (inr (refl, refl))
  ]
  answer-answers zero_answer ((some a, e), w) = elim (Bool-cases (is_nil e)) [
    | inl ok ↦ rw ok (inl (refl, (a, refl)))
    | inr bad ↦ rw bad (inr (refl, refl))
  ]
