-- ===== src/Scans/Invoker/Validation.antt =====
-- workflows/scans/invoker.go: what Start asks for before it sends anything.
use cxone_sdk_golang.Prelude.{
  ◌≡◌, refl, sym, ◌∙◌, ◌⊎◌, inl, inr, Bool, true, false, not, ◌&&◌, ◌||◌, String, Option, none,
  List, [], ◌∷◌, arith, Bool-cases,
}
use cxone_sdk_golang.Prelude.Int.{pos, leb_ℤ}
use cxone_sdk_golang.Prelude.Text.{str_eq}
use cxone_sdk_golang.Errors.{Error, nil, is_nil, configuration_error}
use cxone_sdk_golang.Scans.Invoker.{
  Invoker, Handler, valid_engines, has_upload, has_git, main_branch, check_upload, check_source,
  check_engines, validate, start_checked, start,
}

abbrev is_empty : List String → Bool
is_empty [] = true
is_empty (x ∷ xs) = false

abbrev pub is_configuration_error : Error → Bool
is_configuration_error (configuration_error f r) = true
is_configuration_error _ = false

-- what a check comes to: no error if it holds, and a ConfigurationError if not
abbrev Checks : Bool → Error → Type 0
Checks holds e =
    ((holds ≡ true) × (e ≡ nil)) ⊎ ((holds ≡ false) × (is_configuration_error e ≡ true))

Checks-and : (a b : Bool) (e : Error) → a ≡ true → Checks b e → Checks (a && b) e
Checks-and a b e holds h = rw holds h

-- what a start comes to that an error of a check has stopped
abbrev pub Refused : {W A S : Type 0} → W → (Option A × Error) × (S × W) → Type 0
Refused w ((o, e), (i, v)) = (o ≡ none) × (is_configuration_error e ≡ true) × (v ≡ w)

bad-is_nil : (e : Error) → is_configuration_error e ≡ true → is_nil e ≡ false
bad-is_nil nil bad = absurd (ground (arith, bad))
bad-is_nil (configuration_error f r) bad = refl
bad-is_nil _ bad = absurd (ground (arith, bad))

Checks-is_nil : (holds : Bool) (e : Error) → Checks holds e → is_nil e ≡ holds
Checks-is_nil holds e (inl (h, ok)) = rw (h, ok) refl
Checks-is_nil holds e (inr (h, bad)) = bad-is_nil e bad ∙ sym h

Checks-bad :
    (holds : Bool) (e : Error) → Checks holds e → holds ≡ false → is_configuration_error e ≡ true
Checks-bad holds e (inl (h, ok)) fails = absurd (ground (arith, h, fails))
Checks-bad holds e (inr (h, bad)) fails = bad

module _ {W C : Type 0} where
  -- an upload, if there is one, has a positive size and a client
  abbrev can_upload : Invoker W C → Bool
  can_upload i = not (has_upload i) || (not (leb_ℤ i.upload_size (pos 0)) && i.http_client)

  -- the source is a branch, a commit or a tag, or an upload, or else the project's main branch, and
  -- it is not both of the first two
  abbrev has_source : Invoker W C → Bool
  has_source i =
      not (has_git i && has_upload i)
      && ((has_git i || (has_upload i || not (str_eq (main_branch i) ""))) && can_upload i)

  -- there is an engine, every engine is known, and there is a source
  abbrev pub is_valid : Invoker W C → Bool
  is_valid i = (not (is_empty i.engines) && valid_engines i.engines) && has_source i

  check_upload-Checks : (i : Invoker W C) → Checks (can_upload i) (check_upload i)
  unfolding check_upload
  check_upload-Checks i = elim (Bool-cases (has_upload i)) [
    | inr no_upload ↦ rw no_upload (inl (refl, refl))
    | inl upload ↦ elim (Bool-cases (leb_ℤ i.upload_size (pos 0))) [
      | inl empty ↦ rw (upload, empty) (inr (refl, refl))
      | inr sized ↦ elim (Bool-cases i.http_client) [
        | inl client ↦ rw (upload, sized, client) (inl (refl, refl))
        | inr missing ↦ rw (upload, sized, missing) (inr (refl, refl))
      ]
    ]
  ]

  check_upload-none : (i : Invoker W C) → has_upload i ≡ false → check_upload i ≡ nil
  unfolding check_upload
  check_upload-none i no_upload = rw no_upload refl

  check_source-Checks : (i : Invoker W C) → Checks (has_source i) (check_source i).0
  unfolding check_source
  check_source-Checks i = elim (Bool-cases (has_git i)) [
    | inl git ↦ elim (Bool-cases (has_upload i)) [
      | inl upload ↦ rw (git, upload) (inr (refl, refl))
      | inr no_upload ↦ rw (git, no_upload) (inl (refl, check_upload-none i no_upload))
    ]
    | inr no_git ↦ elim (Bool-cases (has_upload i)) [
      | inl upload ↦ rw (no_git, upload) (rw upload at (check_upload-Checks i))
      | inr no_upload ↦ elim (Bool-cases (str_eq (main_branch i) "")) [
        | inl nowhere ↦ rw (no_git, no_upload, nowhere) (inr (refl, refl))
        | inr there ↦
            rw (no_git, no_upload, there)
              (inl (refl, check_upload-none (record i { branch = main_branch i }) no_upload))
      ]
    ]
  ]

  check_engines-Checks :
      (names : List String) (i : Invoker W C)
      → Checks
          ((not (is_empty names) && valid_engines names) && has_source i)
          (check_engines names i).0
  unfolding check_engines
  check_engines-Checks [] i = inr (refl, refl)
  check_engines-Checks (n ∷ names) i = elim (Bool-cases (valid_engines (n ∷ names))) [
    | inl known ↦ rw known (check_source-Checks i)
    | inr unknown ↦ rw unknown (inr (refl, refl))
  ]

  start_checked-Refused :
      (marshal : Handler → String × Error) (e : Error) (i : Invoker W C) (w : W)
      → is_configuration_error e ≡ true
      → Refused w (start_checked marshal (e, i) w)
  unfolding start_checked
  start_checked-Refused marshal (configuration_error f r) i w bad = (refl, refl, refl)
  start_checked-Refused marshal nil i w bad = absurd (ground (arith, bad))
  start_checked-Refused marshal _ i w bad = absurd (ground (arith, bad))

  -- Of an invoker that was made for a project: validate returns no error if and only if there is an
  -- engine, all are known, the source is a branch, a commit or a tag, or an upload of a positive
  -- size with a client for it, or the project's main branch, and not two of the first two kinds.
  -- If it does return an error, that is a ConfigurationError, and Start returns one and has sent
  -- nothing.
  pub start-validated :
      (marshal : Handler → String × Error) (i : Invoker W C) (w : W)
      → is_nil i.config_err ≡ true
      → (is_nil (validate i).0 ≡ is_valid i) × (is_valid i ≡ false → Refused w (start marshal i w))
  unfolding start validate
  start-validated marshal i w clean = (
    Checks-is_nil (is_valid i) (validate i).0 (check_engines-Checks i.engines i),
    λ fails. rw clean (
        start_checked-Refused marshal (check_engines i.engines i).0 (check_engines i.engines i).1 w
          (Checks-bad (is_valid i) (validate i).0 (check_engines-Checks i.engines i) fails)),
  )
