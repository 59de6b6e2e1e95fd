-- ===== src/Readers/Roles.antt =====
-- workflows/roles/reader.go: the cached list of the roles, with the sub-roles of each.
pub mod Twice
use mathlib.Core.List.{map}
use cxone_sdk_golang.Prelude.{
  ℕ, zero, suc, ◌≡◌, refl, sym, ap, ◌∙◌, subst, ◌⊎◌, inl, inr, Bool, true, false, String, Option,
  none, some, List, [], ◌∷◌, arith, Bool-cases, Option-cases, if◌then◌else◌,
}
use cxone_sdk_golang.Prelude.Maps.{get}
use cxone_sdk_golang.Errors.{Error, nil, is_nil}
use cxone_sdk_golang.Endpoints.Users.{Role, required}
use cxone_sdk_golang.Endpoints.Roles.{RoleApi, list_realm, get_composites, list_client}
use cxone_sdk_golang.Readers.{Places, index, element_at, pointed}

-- roleEntry
pub record RoleEntry : Type 0 where
  pub role : Role
  pub composites : List Role
  pub composites_err : Error
  pub composites_load : Bool

abbrev pub new_entry : Role → RoleEntry
new_entry role = record {
  role = role;
  composites = [];
  composites_err = nil;
  composites_load = false;
}

-- The maps point to entries of `all`, which Composites changes in place.
pub record RoleReader (W : Type 0) : Type 0 where
  pub backend : Option (RoleApi W)
  pub loaded : Bool
  pub all : List RoleEntry
  pub by_id : Places
  pub by_name : Places

-- a change of the entry at a place
unfoldable pub change_at : {A : Type 0} → ℕ → (A → A) → List A → List A
change_at n f [] = []
change_at zero f (x ∷ xs) = f x ∷ xs
change_at (suc n) f (x ∷ xs) = x ∷ change_at n f xs

abbrev pub entry_of : ℕ → Option RoleEntry → Option (ℕ × RoleEntry)
entry_of n none = none
entry_of n (some e) = some (n, e)

-- the entry that a pointer of a map points to, with its place
abbrev pub entry_at : List RoleEntry → Option ℕ → Option (ℕ × RoleEntry)
entry_at all none = none
entry_at all (some n) = entry_of n (element_at all n)

abbrev role_of : Option (ℕ × RoleEntry) → Option Role
role_of none = none
role_of (some (n, e)) = some e.role

module _ {W : Type 0} where
  unfoldable pub with_roles : List Role → RoleReader W → RoleReader W
  with_roles roles r = record r {
    loaded = true;
    all = map new_entry roles;
    by_id = index (λ s. s.id) true roles;
    by_name = index (λ s. s.name) true roles;
  }

  unfoldable pub roles_loaded : RoleReader W → (List Role × Error) × W → Error × (RoleReader W × W)
  roles_loaded r ((roles, e), w) = if is_nil e then (nil, (with_roles roles r, w)) else (e, (r, w))

  -- ensureLoaded
  unfoldable pub ensure_roles : RoleReader W → W → Error × (RoleReader W × W)
  ensure_roles r w = if r.loaded then (nil, (r, w)) else elim r.backend [
    | none ↦ (required "backend", (r, w))
    | some api ↦ roles_loaded r (list_realm api w)
  ]

  -- List
  unfoldable pub list_roles : RoleReader W → W → (List Role × Error) × (RoleReader W × W)
  list_roles r w =
      let (e, (s, v)) = ensure_roles r w in
      if is_nil e then ((map (λ x. x.role) s.all, nil), (s, v)) else (([], e), (s, v))

  -- ByID
  unfoldable pub role_by_id : String → RoleReader W → W → (Option Role × Error) × (RoleReader W × W)
  role_by_id id r w =
      let (e, (s, v)) = ensure_roles r w in
      if is_nil e
      then ((role_of (entry_at s.all (get id s.by_id)), nil), (s, v))
      else ((none, e), (s, v))

  -- ByName
  unfoldable pub role_by_name :
      String → RoleReader W → W → (Option Role × Error) × (RoleReader W × W)
  role_by_name name r w =
      let (e, (s, v)) = ensure_roles r w in
      if is_nil e
      then ((role_of (entry_at s.all (get name s.by_name)), nil), (s, v))
      else ((none, e), (s, v))

  -- the fetch of Composites, kept with its error
  unfoldable pub composites_kept :
      ℕ → RoleReader W → (List Role × Error) × W → (List Role × Error) × (RoleReader W × W)
  composites_kept n r ((subs, e), w) = (
    (subs, e),
    (
      record r {
        all =
            change_at n
              (λ x. record x { composites = subs; composites_err = e; composites_load = true })
              r.all;
      },
      w,
    ),
  )

  unfoldable pub composites_fetched :
      String → ℕ → RoleReader W → Option (RoleApi W) → W → (List Role × Error) × (RoleReader W × W)
  composites_fetched id n r none w = (([], required "backend"), (r, w))
  composites_fetched id n r (some api) w = composites_kept n r (get_composites api id w)

  -- Composites, of the entry that the id points to
  unfoldable pub composites_of :
      String → RoleReader W → Option (ℕ × RoleEntry) → W → (List Role × Error) × (RoleReader W × W)
  composites_of id r none w = (([], nil), (r, w))
  composites_of id r (some (n, x)) w =
      if x.role.composite
      then (if x.composites_load
          then ((x.composites, x.composites_err), (r, w))
          else composites_fetched id n r r.backend w)
      else (([], nil), (r, w))

  -- Composites
  unfoldable pub composites : String → RoleReader W → W → (List Role × Error) × (RoleReader W × W)
  composites id r w =
      let (e, (s, v)) = ensure_roles r w in
      if is_nil e then composites_of id s (entry_at s.all (get id s.by_id)) v else (([], e), (s, v))

  -- ListClientRoles
  unfoldable pub list_client_roles : String → RoleReader W → W → (List Role × Error) × W
  list_client_roles client r w = elim r.backend [
    | none ↦ (([], required "backend"), w)
    | some api ↦ list_client api client w
  ]
