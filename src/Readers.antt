-- ===== src/Readers.antt =====
-- The indexes of the readers: workflows/users/reader.go, workflows/roles/reader.go and
-- workflows/presets/reader.go build maps from names to the elements of a listing in a loop, in which
-- a later element replaces an earlier one of the same name.
pub mod Index
pub mod Users
pub mod Roles
pub mod Presets
pub mod Project
mod Examples
use cxone_sdk_golang.Prelude.{
  ℕ, zero, suc, ◌+◌, ◌≡◌, refl, Bool, true, false, ◌&&◌, not, String, Option, none, some, List, [],
  ◌∷◌, arith, Bool-cases, ◌⊎◌, inl, inr, if◌then◌else◌, sym, ◌∙◌,
}
use cxone_sdk_golang.Prelude.Text.{str_eq}
use cxone_sdk_golang.Prelude.Maps.{get, put, get-put}

-- A pointer to an element of a listing is its place.
abbrev pub Places : Type 0
Places = List (String × ℕ)

module _ {A : Type 0} (key : A → String) where
  -- the loop over a listing; `empty_too` says whether an element without a name is entered
  unfoldable pub index_from : Bool → ℕ → List A → Places → Places
  index_from empty_too n [] m = m
  index_from empty_too n (x ∷ xs) m =
      index_from empty_too (suc n) xs
        (if not empty_too && str_eq (key x) "" then m else put (key x) n m)

  unfoldable pub index : Bool → List A → Places
  unfolding index_from
  index empty_too xs = index_from empty_too 0 xs []

  -- the last element of a listing with a name
  abbrev pub last_named : Bool → String → List A → Option A
  last_named empty_too k [] = none
  last_named empty_too k (x ∷ xs) = elim (last_named empty_too k xs) [
    | some y ↦ some y
    | none ↦ if not (not empty_too && str_eq (key x) "") && str_eq (key x) k then some x else none
  ]

-- the element at a place
unfoldable pub element_at : {A : Type 0} → List A → ℕ → Option A
element_at [] n = none
element_at (x ∷ xs) zero = some x
element_at (x ∷ xs) (suc n) = element_at xs n

-- what a pointer that may be nil points to
unfoldable pub pointed : {A : Type 0} → List A → Option ℕ → Option A
pointed xs none = none
pointed xs (some n) = element_at xs n
