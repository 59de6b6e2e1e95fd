-- ===== src/Readers/Index.antt =====
-- workflows/users/reader.go, workflows/roles/reader.go and workflows/presets/reader.go: what a lookup
-- by name finds.
use cxone_sdk_golang.Prelude.{
  ℕ, suc, ◌≡◌, refl, ap, Bool, ◌&&◌, not, String, Option, none, some, List, [], ◌∷◌, ◌++◌, arith,
  Bool-cases, inl, inr, if◌then◌else◌, sym, ◌∙◌, length, length-append,
}
use mathlib.Core.List.{append_assoc}
use cxone_sdk_golang.Prelude.Text.{str_eq}
use cxone_sdk_golang.Prelude.Maps.{get, put, get-put}
use cxone_sdk_golang.Readers.{Places, index_from, index, last_named, element_at, pointed}

module _ {A : Type 0} where
  element_at-append :
      (xs : List A) (x : A) (ys : List A) → element_at (xs ++ x ∷ ys) (length xs) ≡ some x
  unfolding element_at
  element_at-append [] x ys = refl
  element_at-append (_ ∷ xs) x ys = element_at-append xs x ys

  or_before : Option A → Option A → Option A
  or_before o (some a) = some a
  or_before o none = o

  or_before_assoc : (o p q : Option A) → or_before (or_before o p) q ≡ or_before o (or_before p q)
  unfolding or_before
  or_before_assoc o p none = refl
  or_before_assoc o p (some a) = refl

  or_before-none : (o : Option A) → or_before none o ≡ o
  unfolding or_before
  or_before-none none = refl
  or_before-none (some a) = refl

module _ {A : Type 0} (key : A → String) (empty_too : Bool) (k : String) where
  -- the entry of one element
  entered :
      (x : A) (m : Places) (all : List A) (n : ℕ)
      → element_at all n ≡ some x
      → pointed all (get k (if not empty_too && str_eq (key x) "" then m else put (key x) n m))
        ≡ or_before
            (pointed all (get k m))
            (if not (not empty_too && str_eq (key x) "") && str_eq (key x) k then some x else none)
  unfolding or_before pointed
  entered x m all n here = elim (Bool-cases (not empty_too && str_eq (key x) "")) [
    | inl skipped ↦ rw skipped refl
    | inr kept ↦ elim (Bool-cases (str_eq (key x) k)) [
      | inl same ↦ rw (kept, get-put, same) here
      | inr other ↦ rw (kept, get-put, other) refl
    ]
  ]

  -- After the elements `before`, of which `m` is an index.
  index_from-get :
      (before xs : List A) (m : Places) (all : List A) (n : ℕ)
      → all ≡ before ++ xs
      → n ≡ length before
      → pointed all (get k (index_from key empty_too n xs m))
        ≡ or_before (pointed all (get k m)) (last_named key empty_too k xs)
  unfolding index_from or_before
  index_from-get before [] m all n whole at = refl
  index_from-get before (x ∷ xs) m all n whole at =
      index_from-get (before ++ x ∷ []) xs _ all (suc n)
        (whole ∙ sym (append_assoc before (x ∷ []) xs))
        (omega (arith, length-append before (x ∷ [])))
      ∙ ap (λ o. or_before o (last_named key empty_too k xs))
          (entered x m all n (rw (whole, at) (element_at-append before x xs)))
      ∙ or_before_assoc _ _ (last_named key empty_too k xs)

  -- A lookup in the index of a listing finds the last element of that name, or nothing if there is
  -- none.
  pub index-last :
      (xs : List A) → pointed xs (get k (index key empty_too xs)) ≡ last_named key empty_too k xs
  unfolding index or_before pointed get
  index-last xs = index_from-get [] xs [] xs 0 refl refl ∙ or_before-none _
