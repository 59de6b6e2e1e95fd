-- ===== src/Readers/Roles/Twice.antt =====
-- workflows/roles/reader.go: what a second call of Composites returns.
use cxone_sdk_golang.Prelude.{
  ℕ, zero, suc, ◌≡◌, refl, sym, ap, ◌∙◌, subst, inl, inr, true, false, String, Option, none, some,
  List, [], ◌∷◌, arith, Bool-cases,
}
use cxone_sdk_golang.Prelude.Maps.{get}
use cxone_sdk_golang.Errors.{Error, nil, is_nil}
use cxone_sdk_golang.Endpoints.Users.{Role, required}
use cxone_sdk_golang.Endpoints.Roles.{RoleApi, list_realm, get_composites}
use cxone_sdk_golang.Readers.{element_at}
use cxone_sdk_golang.Readers.Roles.{
  RoleEntry, RoleReader, change_at, entry_of, entry_at, with_roles, roles_loaded, ensure_roles,
  composites_kept, composites_fetched, composites_of, composites,
}

module _ {A : Type 0} (f : A → A) where
  abbrev changed : Option A → Option A
  changed none = none
  changed (some x) = some (f x)

  element_at-change_at :
      (xs : List A) (n : ℕ) → element_at (change_at n f xs) n ≡ changed (element_at xs n)
  unfolding element_at change_at
  element_at-change_at [] n = refl
  element_at-change_at (y ∷ ys) zero = refl
  element_at-change_at (y ∷ ys) (suc n) = element_at-change_at ys n

-- what Composites keeps in an entry
abbrev keep : List Role → Error → RoleEntry → RoleEntry
keep subs e x = record x { composites = subs; composites_err = e; composites_load = true }

entry_of-some :
    (m n : ℕ) (x : RoleEntry) (o : Option RoleEntry)
    → entry_of m o ≡ some (n, x)
    → (o ≡ some x) × (m ≡ n)
entry_of-some m n x none e = absurd (ground (arith, e))
entry_of-some m n x (some y) e = (ground (arith, e), ground (arith, e))

entry_at-change_at :
    (f : RoleEntry → RoleEntry) (all : List RoleEntry) (p : Option ℕ) (n : ℕ) (x : RoleEntry)
    → entry_at all p ≡ some (n, x)
    → entry_at (change_at n f all) p ≡ some (n, f x)
entry_at-change_at f all none n x there = absurd (ground (arith, there))
entry_at-change_at f all (some m) n x there =
    let (found, same) = entry_of-some m n x (element_at all m) there in
    ap (λ q. entry_of m (element_at (change_at q f all) m)) (sym same)
    ∙ ap (entry_of m) (element_at-change_at f all m ∙ ap (changed f) found)
    ∙ ap (λ q. some (q, f x)) same

module _ {W : Type 0} where
  roles_loaded-loaded :
      (r : RoleReader W) (o : (List Role × Error) × W)
      → is_nil (roles_loaded r o).0 ≡ true
      → (roles_loaded r o).1.0.loaded ≡ true
  unfolding roles_loaded with_roles
  roles_loaded-loaded r ((roles, e), w) ok = elim (Bool-cases (is_nil e)) [
    | inl fine ↦ rw fine refl
    | inr bad ↦ absurd (ground (arith, ok))
  ]

  backend-loaded :
      (r : RoleReader W) (w : W) (b : Option (RoleApi W))
      → is_nil
          (elim b as (λ x. Error × (RoleReader W × W)) [
            | none ↦ (required "backend", (r, w))
            | some api ↦ roles_loaded r (list_realm api w)
          ]).0
        ≡ true
      → (elim b as (λ x. Error × (RoleReader W × W)) [
        | none ↦ (required "backend", (r, w))
        | some api ↦ roles_loaded r (list_realm api w)
      ]).1.0.loaded
        ≡ true
  backend-loaded r w none ok = absurd (ground (arith, ok))
  backend-loaded r w (some api) ok = roles_loaded-loaded r (list_realm api w) ok

  ensure_roles-loaded :
      (r : RoleReader W) (w : W)
      → is_nil (ensure_roles r w).0 ≡ true
      → (ensure_roles r w).1.0.loaded ≡ true
  unfolding ensure_roles
  ensure_roles-loaded r w ok = elim (Bool-cases r.loaded) [
    | inl there ↦ rw there refl
    | inr unloaded ↦ rw unloaded (backend-loaded r w r.backend (rw unloaded at ok))
  ]

  ensure_roles-again :
      (r : RoleReader W) (w : W) → r.loaded ≡ true → ensure_roles r w ≡ (nil, (r, w))
  unfolding ensure_roles
  ensure_roles-again r w there = rw there refl

  -- the call again, in what a call has left
  abbrev Repeats : String → Option ℕ → (List Role × Error) × (RoleReader W × W) → Type 0
  Repeats id p (result, (s, v)) = composites_of id s (entry_at s.all p) v ≡ (result, (s, v))

  composites_kept-Repeats :
      (id : String) (p : Option ℕ) (r : RoleReader W) (n : ℕ) (x : RoleEntry)
      (o : (List Role × Error) × W)
      → entry_at r.all p ≡ some (n, x)
      → x.role.composite ≡ true
      → Repeats id p (composites_kept n r o)
  unfolding composites_kept composites_of
  composites_kept-Repeats id p r n x ((subs, e), w) there bundles =
      rw (entry_at-change_at (keep subs e) r.all p n x there, bundles) refl

  -- a call that changes nothing
  stays-Repeats :
      (id : String) (p : Option ℕ) (r : RoleReader W) (w : W) (o : Option (ℕ × RoleEntry))
      (result : List Role × Error)
      → entry_at r.all p ≡ o
      → composites_of id r o w ≡ (result, (r, w))
      → Repeats id p (composites_of id r o w)
  stays-Repeats id p r w o result there same =
      subst (Repeats id p) (sym same)
        (subst (λ q. composites_of id r q w ≡ (result, (r, w))) (sym there) same)

  fetched-Repeats :
      (id : String) (p : Option ℕ) (r : RoleReader W) (w : W) (n : ℕ) (x : RoleEntry)
      → entry_at r.all p ≡ some (n, x)
      → x.role.composite ≡ true
      → x.composites_load ≡ false
      → (b : Option (RoleApi W)) → r.backend ≡ b
      → Repeats id p (composites_fetched id n r b w)
  unfolding composites_fetched composites_of
  fetched-Repeats id p r w n x there bundles unknown none missing =
      subst (λ q. composites_of id r q w ≡ (([], required "backend"), (r, w))) (sym there)
        (rw (bundles, unknown) (ap (λ b. composites_fetched id n r b w) missing))
  fetched-Repeats id p r w n x there bundles unknown (some api) is =
      composites_kept-Repeats id p r n x (get_composites api id w) there bundles

  composites_of-Repeats :
      (id : String) (p : Option ℕ) (r : RoleReader W) (w : W) (o : Option (ℕ × RoleEntry))
      → entry_at r.all p ≡ o
      → Repeats id p (composites_of id r o w)
  unfolding composites_of
  composites_of-Repeats id p r w none there = rw there refl
  composites_of-Repeats id p r w (some (n, x)) there = elim (Bool-cases x.role.composite) [
    | inr plain ↦ stays-Repeats id p r w (some (n, x)) ([], nil) there (rw plain refl)
    | inl bundles ↦ elim (Bool-cases x.composites_load) [
      | inl kept ↦
          stays-Repeats id p r w (some (n, x)) (x.composites, x.composites_err) there
            (rw (bundles, kept) refl)
      | inr unknown ↦
          subst (Repeats id p) (sym (fetches bundles unknown))
            (fetched-Repeats id p r w n x there bundles unknown r.backend refl)
    ]
  ]
    where
      fetches :
          x.role.composite ≡ true
          → x.composites_load ≡ false
          → composites_of id r (some (n, x)) w ≡ composites_fetched id n r r.backend w
      fetches bundles unknown = rw (bundles, unknown) refl

  -- Composites of a reader that is loaded
  composites-of :
      (id : String) (r : RoleReader W) (w : W)
      → r.loaded ≡ true
      → composites id r w ≡ composites_of id r (entry_at r.all (get id r.by_id)) w
  unfolding composites
  composites-of id r w there = rw (ensure_roles-again r w there) refl

  -- Composites leaves the reader loaded, and its map as it was
  abbrev Keeps : RoleReader W → (List Role × Error) × (RoleReader W × W) → Type 0
  Keeps r (result, (s, v)) = (s.loaded ≡ r.loaded) × (s.by_id ≡ r.by_id)

  composites_fetched-Keeps :
      (id : String) (n : ℕ) (r : RoleReader W) (b : Option (RoleApi W)) (w : W)
      → Keeps r (composites_fetched id n r b w)
  unfolding composites_fetched composites_kept
  composites_fetched-Keeps id n r none w = (refl, refl)
  composites_fetched-Keeps id n r (some api) w = (refl, refl)

  composites_of-Keeps :
      (id : String) (r : RoleReader W) (o : Option (ℕ × RoleEntry)) (w : W)
      → Keeps r (composites_of id r o w)
  unfolding composites_of
  composites_of-Keeps id r none w = (refl, refl)
  composites_of-Keeps id r (some (n, x)) w = elim (Bool-cases x.role.composite) [
    | inr plain ↦ rw plain (refl, refl)
    | inl bundles ↦ elim (Bool-cases x.composites_load) [
      | inl kept ↦ rw (bundles, kept) (refl, refl)
      | inr unknown ↦ rw (bundles, unknown) (composites_fetched-Keeps id n r r.backend w)
    ]
  ]

  composites_loaded-twice :
      (id : String) (r : RoleReader W) (w : W) (x : (List Role × Error) × (RoleReader W × W))
      → r.loaded ≡ true
      → x ≡ composites_of id r (entry_at r.all (get id r.by_id)) w
      → composites id x.1.0 x.1.1 ≡ x
  composites_loaded-twice id r w x there is =
      let keeps =
        subst (Keeps r) (sym is) (composites_of-Keeps id r (entry_at r.all (get id r.by_id)) w) in
      composites-of id x.1.0 x.1.1 (keeps.0 ∙ there)
      ∙ ap (λ m. composites_of id x.1.0 (entry_at x.1.0.all (get id m)) x.1.1) keeps.1
      ∙ subst (Repeats id (get id r.by_id)) (sym is)
          (composites_of-Repeats id (get id r.by_id) r w (entry_at r.all (get id r.by_id)) refl)

  composites-started :
      (id : String) (r : RoleReader W) (w : W)
      → is_nil (ensure_roles r w).0 ≡ true
      → composites id r w
        ≡ composites_of id
            (ensure_roles r w).1.0
            (entry_at (ensure_roles r w).1.0.all (get id (ensure_roles r w).1.0.by_id))
            (ensure_roles r w).1.1
  unfolding composites
  composites-started id r w ok = rw ok refl

  -- Once the roles are loaded, a second call of Composites with the same id returns what the first
  -- returned, an error included, and sends nothing and changes nothing: a failed fetch of sub-roles
  -- is kept for good.
  pub composites-twice :
      (id : String) (r : RoleReader W) (w : W)
      → is_nil (ensure_roles r w).0 ≡ true
      → composites id (composites id r w).1.0 (composites id r w).1.1 ≡ composites id r w
  composites-twice id r w ok =
      composites_loaded-twice id (ensure_roles r w).1.0 (ensure_roles r w).1.1 (composites id r w)
        (ensure_roles-loaded r w ok) (composites-started id r w ok)
