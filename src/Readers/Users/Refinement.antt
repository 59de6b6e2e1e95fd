-- ===== src/Readers/Users/Refinement.antt =====
-- workflows/users/reader.go: the reader against a cache that holds the listing, or nothing.
use cxone_sdk_golang.Prelude.{
  ℕ, ◌≡◌, refl, ap, ◌∙◌, inl, inr, true, false, String, Option, none, some, List, [], ◌∷◌,
  Bool-cases, if◌then◌else◌,
}
use cxone_sdk_golang.Prelude.Maps.{get}
use cxone_sdk_golang.Errors.{Error, nil, is_nil}
use cxone_sdk_golang.Endpoints.Users.{User, UserApi, required}
use cxone_sdk_golang.Readers.{last_named, pointed}
use cxone_sdk_golang.Readers.Index.{index-last}
use cxone_sdk_golang.Readers.Users.{
  UserReader, new_reader, Listed, Loaded, Asked, fetch_all_users, with_users, loaded_with,
  ensure_loaded, after_loading, all_users, user_by_id, user_by_email, user_by_username,
}

-- a call of a method, and what it returns
pub data Ask : Type 0 where
  list : Ask
  by_id by_email by_username : String → Ask

pub data Answer : Type 0 where
  users : List User → Answer
  user : Option User → Answer

-- what a call returns of a listing: the last user of the name, where it asks for one
abbrev pub view : Ask → List User → Answer
view list us = users us
view (by_id k) us = user (last_named (λ u. u.id) true k us)
view (by_email k) us = user (last_named (λ u. u.email) false k us)
view (by_username k) us = user (last_named (λ u. u.username) false k us)

-- what it returns with an error
abbrev pub nothing : Ask → Answer
nothing list = users []
nothing _ = user none

abbrev pub Cache : Type 0
Cache = Option (List User)

abbrev pub Consulted : Type 0 → Type 0
Consulted W = Option ((Answer × Error) × (Cache × W))

module _ {W : Type 0} where
  abbrev answer_as : {A : Type 0} → (A → Answer) → Asked W A → Asked W Answer
  answer_as f none = none
  answer_as f (some ((a, e), s)) = some ((f a, e), s)

  -- a call of the reader
  unfoldable pub ask : ℕ → Ask → UserReader W → W → Asked W Answer
  ask fuel list r w = answer_as users (all_users fuel r w)
  ask fuel (by_id k) r w = answer_as user (user_by_id fuel k r w)
  ask fuel (by_email k) r w = answer_as user (user_by_email fuel k r w)
  ask fuel (by_username k) r w = answer_as user (user_by_username fuel k r w)

  -- A listing is kept if it came without an error, and asked for again if not.
  unfoldable pub kept : Ask → Option (Listed W) → Consulted W
  kept a none = none
  kept a (some ((us, e), w)) =
      if is_nil e then some ((view a us, nil), (some us, w)) else some ((nothing a, e), (none, w))

  -- a call of the cache
  unfoldable pub consult : ℕ → Option (UserApi W) → Ask → Cache → W → Consulted W
  consult fuel backend a (some us) w = some ((view a us, nil), (some us, w))
  consult fuel none a none w = some ((nothing a, required "backend"), (none, w))
  consult fuel (some api) a none w = kept a (fetch_all_users api fuel w)

  -- a sequence of calls
  abbrev followed :
      Answer × Error → Option (List (Answer × Error) × W) → Option (List (Answer × Error) × W)
  followed r none = none
  followed r (some (rs, w)) = some (r ∷ rs, w)

  -- the rest of a sequence after a call
  abbrev then_runs :
      {S : Type 0}
      → Option ((Answer × Error) × (S × W))
      → (S → W → Option (List (Answer × Error) × W))
      → Option (List (Answer × Error) × W)
  then_runs none rest = none
  then_runs (some (r, (s, w))) rest = followed r (rest s w)

  module _ {S : Type 0} (call : Ask → S → W → Option ((Answer × Error) × (S × W))) where
    abbrev pub runs : List Ask → S → W → Option (List (Answer × Error) × W)
    runs [] s w = some ([], w)
    runs (a ∷ asks) s w = then_runs (call a s w) (runs asks)

  -- the reader that holds what a cache holds
  abbrev holding : Option (UserApi W) → Cache → UserReader W
  holding backend none = new_reader backend
  holding backend (some us) = with_users us (new_reader backend)

  abbrev held : Option (UserApi W) → Consulted W → Asked W Answer
  held backend none = none
  held backend (some (r, (c, w))) = some (r, (holding backend c, w))

  -- what a method reads once the users are loaded
  abbrev reading : Ask → UserReader W → Answer
  reading list s = users s.users
  reading (by_id k) s = user (pointed s.users (get k s.by_id))
  reading (by_email k) s = user (pointed s.users (get k s.by_email))
  reading (by_username k) s = user (pointed s.users (get k s.by_username))

  answer_as-after_loading :
      {A : Type 0} (f : A → Answer) (z : A) (read : UserReader W → A) (l : Loaded W)
      → answer_as f (after_loading z read l) ≡ after_loading (f z) (λ s. f (read s)) l
  unfolding after_loading
  answer_as-after_loading f z read none = refl
  answer_as-after_loading f z read (some (e, (r, w))) = elim (Bool-cases (is_nil e)) [
    | inl ok ↦ rw ok refl
    | inr bad ↦ rw bad refl
  ]

  ask-reading :
      (fuel : ℕ) (a : Ask) (r : UserReader W) (w : W)
      → ask fuel a r w ≡ after_loading (nothing a) (reading a) (ensure_loaded fuel r w)
  unfolding ask all_users user_by_id user_by_email user_by_username
  ask-reading fuel list r w = answer_as-after_loading _ _ _ (ensure_loaded fuel r w)
  ask-reading fuel (by_id k) r w = answer_as-after_loading _ _ _ (ensure_loaded fuel r w)
  ask-reading fuel (by_email k) r w = answer_as-after_loading _ _ _ (ensure_loaded fuel r w)
  ask-reading fuel (by_username k) r w = answer_as-after_loading _ _ _ (ensure_loaded fuel r w)

  reading-with_users :
      (a : Ask) (us : List User) (r : UserReader W) → reading a (with_users us r) ≡ view a us
  unfolding with_users
  reading-with_users list us r = refl
  reading-with_users (by_id k) us r = ap user (index-last (λ u. u.id) true k us)
  reading-with_users (by_email k) us r = ap user (index-last (λ u. u.email) false k us)
  reading-with_users (by_username k) us r = ap user (index-last (λ u. u.username) false k us)

  module _ (fuel : ℕ) (backend : Option (UserApi W)) (a : Ask) where
    loaded_with-kept :
        (f : Option (Listed W))
        → after_loading (nothing a) (reading a) (loaded_with (new_reader backend) f)
          ≡ held backend (kept a f)
    unfolding loaded_with after_loading kept
    loaded_with-kept none = refl
    loaded_with-kept (some ((us, e), w)) = elim (Bool-cases (is_nil e)) [
      | inl ok ↦ rw ok (
          ap (λ v. some ((v, nil), (with_users us (new_reader backend), w)))
            (reading-with_users a us (new_reader backend)))
      | inr bad ↦ rw (bad, bad) refl
    ]

  ask-consult :
      (fuel : ℕ) (backend : Option (UserApi W)) (a : Ask) (c : Cache) (w : W)
      → ask fuel a (holding backend c) w ≡ held backend (consult fuel backend a c w)
  unfolding consult ensure_loaded after_loading with_users
  ask-consult fuel backend a (some us) w =
      ask-reading fuel a (holding backend (some us)) w
      ∙ ap (λ v. some ((v, nil), (holding backend (some us), w)))
          (reading-with_users a us (new_reader backend))
  ask-consult fuel none a none w = ask-reading fuel a (new_reader none) w
  ask-consult fuel (some api) a none w =
      ask-reading fuel a (new_reader (some api)) w
      ∙ loaded_with-kept fuel (some api) a (fetch_all_users api fuel w)

  then_runs-held :
      (fuel : ℕ) (backend : Option (UserApi W)) (asks : List Ask)
      → ((d : Cache) (v : W)
          → runs (ask fuel) asks (holding backend d) v ≡ runs (consult fuel backend) asks d v)
      → (o : Consulted W)
      → then_runs (held backend o) (runs (ask fuel) asks)
        ≡ then_runs o (runs (consult fuel backend) asks)
  then_runs-held fuel backend asks below none = refl
  then_runs-held fuel backend asks below (some (r, (d, v))) = ap (followed r) (below d v)

  runs-from :
      (fuel : ℕ) (backend : Option (UserApi W)) (asks : List Ask) (c : Cache) (w : W)
      → runs (ask fuel) asks (holding backend c) w ≡ runs (consult fuel backend) asks c w
  runs-from fuel backend [] c w = refl
  runs-from fuel backend (a ∷ asks) c w =
      ap (λ o. then_runs o (runs (ask fuel) asks)) (ask-consult fuel backend a c w)
      ∙ then_runs-held fuel backend asks (λ d v. runs-from fuel backend asks d v)
          (consult fuel backend a c w)

-- Any sequence of calls of List, ByID, ByEmail and ByUsername on a new reader returns what the same
-- calls return of a cache that asks for the users while it holds none, keeps the first listing that
-- comes without an error, and looks the last user of the name up in it; and it leaves the world as
-- those calls do.
pub runs-refinement :
    {W : Type 0} (fuel : ℕ) (backend : Option (UserApi W)) (asks : List Ask) (w : W)
    → runs (ask fuel) asks (new_reader backend) w ≡ runs (consult fuel backend) asks none w
runs-refinement fuel backend asks w = runs-from fuel backend asks none w
