-- ===== src/Readers/Users.antt =====
-- workflows/users/reader.go: the cached list of the users.
pub mod Pages
pub mod Refinement
use cxone_sdk_golang.Prelude.{
  ℕ, zero, suc, Bool, true, false, String, Option, none, some, List, [], ◌∷◌, ◌++◌, length, ltb,
  if◌then◌else◌,
}
use cxone_sdk_golang.Prelude.Int.{ℤ, pos, ◌+ℤ◌, wrap_int}
use cxone_sdk_golang.Prelude.Maps.{get}
use cxone_sdk_golang.Errors.{Error, nil, is_nil}
use cxone_sdk_golang.Endpoints.Filters.{UserFilter, any_user}
use cxone_sdk_golang.Endpoints.Users.{User, UserApi, list_users, required}
use cxone_sdk_golang.Endpoints.Users.Bindings.{count_users}
use cxone_sdk_golang.Readers.{Places, index, pointed}

-- The backend is set when the reader is made and never changes; the mutex makes each method a step
-- of its own.
pub record UserReader (W : Type 0) : Type 0 where
  pub backend : Option (UserApi W)
  pub loaded : Bool
  pub users : List User
  pub by_id : Places
  pub by_email : Places
  pub by_username : Places

-- NewReader
abbrev pub new_reader : {W : Type 0} → Option (UserApi W) → UserReader W
new_reader backend = record {
  backend = backend;
  loaded = false;
  users = [];
  by_id = [];
  by_email = [];
  by_username = [];
}

abbrev pub page_size : ℕ
page_size = 100

abbrev pub page_filter : ℤ → UserFilter
page_filter offset = record (any_user) { first = offset; max = pos page_size }

abbrev pub Listed : Type 0 → Type 0
Listed W = (List User × Error) × W

module _ {W : Type 0} (api : UserApi W) where
  -- what is made of a page, after the users `all`; `rest` is the next round
  unfoldable pub page_added :
      List User → (List User → W → Option (Listed W)) → Listed W → Option (Listed W)
  page_added all rest ((page, e), w) =
      if is_nil e
      then (let more = rest (all ++ page) w in
          if ltb (length page) page_size then some ((all ++ page, nil), w) else more)
      else some (([], e), w)

  -- the loop of fetchAllUsers, on fuel: one unit for each page
  unfoldable pub fetch_pages : ℕ → ℤ → List User → W → Option (Listed W)
  fetch_pages zero offset all w = none
  fetch_pages (suc fuel) offset all w =
      page_added all (fetch_pages fuel (wrap_int (offset +ℤ pos page_size)))
        (list_users api (page_filter offset) w)

  -- fetchAllUsers
  unfoldable pub fetch_all_users : ℕ → W → Option (Listed W)
  fetch_all_users fuel w = fetch_pages fuel (pos 0) [] w

abbrev pub Loaded : Type 0 → Type 0
Loaded W = Option (Error × (UserReader W × W))

-- what a method returns, with the reader and the world after it
abbrev pub Asked : Type 0 → Type 0 → Type 0
Asked W A = Option ((A × Error) × (UserReader W × W))

module _ {W : Type 0} where
  -- the reader with the users and their indexes
  unfoldable pub with_users : List User → UserReader W → UserReader W
  with_users us r = record r {
    loaded = true;
    users = us;
    by_id = index (λ u. u.id) true us;
    by_email = index (λ u. u.email) false us;
    by_username = index (λ u. u.username) false us;
  }

  unfoldable pub loaded_with : UserReader W → Option (Listed W) → Loaded W
  loaded_with r none = none
  loaded_with r (some ((us, e), w)) =
      if is_nil e then some (nil, (with_users us r, w)) else some (e, (r, w))

  -- ensureLoaded
  unfoldable pub ensure_loaded : ℕ → UserReader W → W → Loaded W
  ensure_loaded fuel r w = if r.loaded then some (nil, (r, w)) else elim r.backend [
    | none ↦ some (required "backend", (r, w))
    | some api ↦ loaded_with r (fetch_all_users api fuel w)
  ]

  -- the answer of a method that has loaded the users
  unfoldable pub after_loading : {A : Type 0} → A → (UserReader W → A) → Loaded W → Asked W A
  after_loading zero_answer read none = none
  after_loading zero_answer read (some (e, (r, w))) =
      if is_nil e then some ((read r, nil), (r, w)) else some ((zero_answer, e), (r, w))

  -- List
  unfoldable pub all_users : ℕ → UserReader W → W → Asked W (List User)
  all_users fuel r w = after_loading [] (λ s. s.users) (ensure_loaded fuel r w)

  -- ByID
  unfoldable pub user_by_id : ℕ → String → UserReader W → W → Asked W (Option User)
  user_by_id fuel id r w =
      after_loading none (λ s. pointed s.users (get id s.by_id)) (ensure_loaded fuel r w)

  -- ByEmail
  unfoldable pub user_by_email : ℕ → String → UserReader W → W → Asked W (Option User)
  user_by_email fuel email r w =
      after_loading none (λ s. pointed s.users (get email s.by_email)) (ensure_loaded fuel r w)

  -- ByUsername
  unfoldable pub user_by_username : ℕ → String → UserReader W → W → Asked W (Option User)
  user_by_username fuel name r w =
      after_loading none (λ s. pointed s.users (get name s.by_username)) (ensure_loaded fuel r w)

  -- Count
  unfoldable pub count : UserReader W → W → (ℕ × Error) × W
  count r w = elim r.backend [
    | none ↦ ((0, required "backend"), w)
    | some api ↦ count_users api any_user w
  ]
