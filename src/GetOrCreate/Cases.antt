-- ===== src/GetOrCreate/Cases.antt =====
-- workflows/users/helpers.go and workflows/clients/helpers.go: what is returned, and when something
-- is created.
use cxone_sdk_golang.Prelude.{
  ◌≡◌, refl, ap, subst, eq_iff, ◌⊎◌, inl, inr, Bool, true, false, String, Option, none, some, List,
  [], ◌∷◌, ◌++◌, arith, All, Bool-cases,
}
use cxone_sdk_golang.Prelude.Text.{str_eq}
use cxone_sdk_golang.Errors.{Error, nil, is_nil, unwrap}
use cxone_sdk_golang.Endpoints.Users.{User, UserApi, list_users, create_user}
use cxone_sdk_golang.Endpoints.Clients.{OidcClient, ClientApi, list_clients, create_client}
use cxone_sdk_golang.GetOrCreate.{
  Found, first_match, found_in, or_created, username_filter, find_by_username,
  get_or_create_by_username, has_username, has_client_id, client_filter, client_to_create,
  find_client, found_created, get_or_create_client,
}

module _ {A : Type 0} (p : A → Bool) where
  -- the first element of a list that passes the test, or that none does
  abbrev pub First : List A → Option A → Type 0
  First xs none = All (λ x. p x ≡ false) xs
  First xs (some a) =
      (before : List A) × (after : List A) × (xs ≡ before ++ a ∷ after)
      × All (λ x. p x ≡ false) before
      × (p a ≡ true)

  First-cons : (x : A) (xs : List A) (o : Option A) → p x ≡ false → First xs o → First (x ∷ xs) o
  First-cons x xs none fails h = (fails, h)
  First-cons x xs (some a) fails (before, after, e, h, t) =
      (x ∷ before, after, ap (◌∷◌ x) e, (fails, h), t)

  pub first_match-First : (xs : List A) → First xs (first_match p xs)
  unfolding first_match
  first_match-First [] = tt
  first_match-First (x ∷ xs) = elim (Bool-cases (p x)) [
    | inl passes ↦ rw passes ([], xs, refl, tt, passes)
    | inr fails ↦ rw fails (First-cons x xs (first_match p xs) fails (first_match-First xs))
  ]

-- What a call comes to that lists, and creates if the listing has no match: the listing's error
-- inside another and nothing created; the first match and nothing created; or, there being none,
-- what creating comes to.
abbrev pub Provides :
    {W A : Type 0} → (A → Bool) → (List A × Error) × W → (W → Found W A) → Found W A → Type 0
Provides {W} {A} p ((xs, e), v) create r =
    ((is_nil e ≡ false) × (r.0.0 ≡ none) × (unwrap r.0.1 ≡ e) × (r.1 ≡ v))
    ⊎ ((is_nil e ≡ true) × ((a : A) × First p xs (some a) × (r ≡ ((some a, nil), v))))
    ⊎ ((is_nil e ≡ true) × First p xs none × (r ≡ create v))

module _ {W A : Type 0} (p : A → Bool) (what name : String) (create : W → Found W A) where
  matched-Provides :
      (xs : List A) (e : Error) (v : W) (o : Option A)
      → is_nil e ≡ true
      → First p xs o
      → Provides p ((xs, e), v) create (or_created what name create ((o, nil), v))
  unfolding or_created
  matched-Provides xs e v none ok h = inr (inr (ok, h, refl))
  matched-Provides xs e v (some a) ok h = inr (inl (ok, (a, h, refl)))

  failed-Provides :
      (xs : List A) (e : Error) (v : W)
      → is_nil e ≡ false
      → Provides p ((xs, e), v) create (or_created what name create ((none, e), v))
  unfolding or_created unwrap
  failed-Provides xs e v bad = inl (bad, rw bad refl, rw bad refl, rw bad refl)

  pub or_created-Provides :
      (l : (List A × Error) × W) → Provides p l create (or_created what name create (found_in p l))
  unfolding found_in
  or_created-Provides ((xs, e), v) = elim (Bool-cases (is_nil e)) [
    | inl ok ↦
        subst (λ r. Provides p ((xs, e), v) create (or_created what name create r)) (rw ok refl)
          (matched-Provides xs e v (first_match p xs) ok (first_match-First p xs))
    | inr bad ↦
        subst (λ r. Provides p ((xs, e), v) create (or_created what name create r)) (rw bad refl)
          (failed-Provides xs e v bad)
  ]

-- For a template with a username: GetOrCreateByUsername lists the users of that name once. If that
-- fails, it returns an error that wraps the listing's; if a user on the page has exactly that
-- username, it returns the first such user and creates nothing; and else it does what Create of the
-- template does.
pub get_or_create_by_username-Provides :
    {W : Type 0} (api : UserApi W) (template : User) (w : W)
    → str_eq template.username "" ≡ false
    → Provides
        (has_username template.username)
        (list_users api (username_filter template.username) w)
        (create_user api (some template))
        (get_or_create_by_username (some api) (some template) w)
unfolding get_or_create_by_username find_by_username
get_or_create_by_username-Provides api template w named = rw named (
    or_created-Provides (has_username template.username) "user" template.username
      (create_user api (some template)) (list_users api (username_filter template.username) w))

-- what is found passes the test
abbrev Passing : {W A : Type 0} → (A → Bool) → Found W A → Type 0
Passing {W} {A} p r = (a : A) → r.0.0 ≡ some a → p a ≡ true

First-passes :
    {A : Type 0} (p : A → Bool) (xs : List A) (o : Option A) (a : A)
    → First p xs o
    → o ≡ some a
    → p a ≡ true
First-passes p xs none a h e = absurd (ground (arith, e))
First-passes p xs (some b) a (before, after, split, misses, hit) e =
    subst (λ c. p c ≡ true) (ground (arith, e)) hit

module _ {W A : Type 0} (p : A → Bool) where
  found_in-Passing : (l : (List A × Error) × W) → Passing p (found_in p l)
  unfolding found_in
  found_in-Passing ((xs, e), v) a found = elim (Bool-cases (is_nil e)) [
    | inl ok ↦ First-passes p xs (first_match p xs) a (first_match-First p xs) (rw ok at found)
    | inr bad ↦ absurd (ground (arith, found))
  ]

  or_created-Passing :
      (what name : String) (create : W → Found W A) (r : Found W A)
      → Passing p r
      → ((v : W) → Passing p (create v))
      → Passing p (or_created what name create r)
  unfolding or_created
  or_created-Passing what name create ((none, e), v) found made a is =
      elim (Bool-cases (is_nil e)) [
        | inl ok ↦ made v a (rw ok at is)
        | inr bad ↦ absurd (ground (arith, is))
      ]
  or_created-Passing what name create ((some b, e), v) found made a is =
      found a (ground (arith, is))

found_created-Passing :
    {W : Type 0} (api : ClientApi W) (name : String) (r : Error × W)
    → Passing (has_client_id name) (found_created api name r)
unfolding found_created find_client
found_created-Passing api name (e, v) a is = elim (Bool-cases (is_nil e)) [
  | inl ok ↦
      found_in-Passing (has_client_id name) (list_clients api (client_filter name) v) a
        (rw ok at is)
  | inr bad ↦ absurd (ground (arith, is))
]

-- Whatever client the clients' GetOrCreateByName returns has the name that was asked for as its
-- clientId, whether it was there or has just been created.
pub get_or_create_client-name :
    {W : Type 0} (backend : Option (ClientApi W)) (name : String) (defaults : Option OidcClient)
    (w : W) (c : OidcClient)
    → (get_or_create_client backend name defaults w).0.0 ≡ some c
    → c.client_id ≡ name
unfolding get_or_create_client find_client
get_or_create_client-name none name defaults w c e = absurd (ground (arith, e))
get_or_create_client-name (some api) name defaults w c e = elim (Bool-cases (str_eq name "")) [
  | inl unnamed ↦ absurd (ground (arith, e))
  | inr named ↦ (eq_iff c.client_id name).0 (
      or_created-Passing (has_client_id name) "client" name
        (λ v. found_created api name (create_client api (some (client_to_create name defaults)) v))
        (find_client api name w)
        (found_in-Passing (has_client_id name) (list_clients api (client_filter name) w))
        (λ v.
          found_created-Passing api name
            (create_client api (some (client_to_create name defaults)) v))
        c (rw named at e))
]
