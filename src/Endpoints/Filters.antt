-- ===== src/Endpoints/Filters.antt =====
-- The query parameters of the user and group listings: models/users.go, models/groups.go and
-- buildQuery of internal/endpoints/users/users.go and internal/endpoints/groups/groups.go.
use cxone_sdk_golang.Prelude.{
  ◌≡◌, refl, sym, subst, ◌∙◌, eq_iff, All, inl, inr, Bool, true, false, String, Option, none, some,
  List, [], ◌∷◌, arith, Bool-cases, any, if◌then◌else◌,
}
use cxone_sdk_golang.Prelude.Int.{ℤ, pos, pos_part, ltb_ℤ}
use cxone_sdk_golang.Prelude.Text.{str_eq, decimal}
use cxone_sdk_golang.Prelude.Maps.{get, put, get-put}
use cxone_sdk_golang.Transport.Json.{Query}

pub record UserFilter : Type 0 where
  pub first : ℤ
  pub max : ℤ
  pub brief_representation : Option Bool
  pub email : String
  pub email_verified : Option Bool
  pub enabled : Option Bool
  pub exact : Option Bool
  pub first_name : String
  pub idp_alias : String
  pub idp_user_id : String
  pub q : String
  pub search : String
  pub username : String

-- UserFilter{}
abbrev pub any_user : UserFilter
any_user = record {
  first = pos 0;
  max = pos 0;
  brief_representation = none;
  email = "";
  email_verified = none;
  enabled = none;
  exact = none;
  first_name = "";
  idp_alias = "";
  idp_user_id = "";
  q = "";
  search = "";
  username = "";
}

-- q.Set(k, v)
abbrev pub set : String → String → Query → Query
set k v q = put k (v ∷ []) q

-- the parameter of a text that is not empty, of a number above zero, and of a flag that is there
unfoldable pub set_text : String → String → Query → Query
set_text k v q = if str_eq v "" then q else set k v q

unfoldable pub set_number : String → ℤ → Query → Query
set_number k n q = if ltb_ℤ (pos 0) n then set k (decimal (pos_part n)) q else q

-- strconv.FormatBool
abbrev pub format_bool : Bool → String
format_bool b = if b then "true" else "false"

unfoldable pub set_flag : String → Option Bool → Query → Query
set_flag k none q = q
set_flag k (some b) q = set k (format_bool b) q

-- the parameters that the count has as well
unfoldable pub shared_user_query : UserFilter → Query
unfolding set_text set_number set_flag
shared_user_query f = set_flag "enabled" f.enabled (
    set_flag "emailVerified" f.email_verified (
      set_text "search" f.search (
        set_text "q" f.q (
          set_text "username" f.username (
            set_text "firstName" f.first_name (
              set_text "email" f.email
                (set_number "max" f.max (set_number "first" f.first []))))))))

-- buildQuery of the users
unfoldable pub user_query : UserFilter → Bool → Query
unfolding shared_user_query set_text set_flag
user_query f for_count =
    if for_count
    then shared_user_query f
    else set_text "idpUserId" f.idp_user_id (
        set_text "idpAlias" f.idp_alias (
          set_flag "exact" f.exact
            (set_flag "briefRepresentation" f.brief_representation (shared_user_query f))))

pub record GroupFilter : Type 0 where
  pub first : ℤ
  pub max : ℤ
  pub brief_representation : Option Bool
  pub populate_hierarchy : Option Bool
  pub search : String
  pub exact : Option Bool
  pub top_level : Bool

abbrev pub any_group : GroupFilter
any_group = record {
  first = pos 0;
  max = pos 0;
  brief_representation = none;
  populate_hierarchy = none;
  search = "";
  exact = none;
  top_level = false;
}

-- buildQuery of the groups
unfoldable pub group_query : GroupFilter → Bool → Query
unfolding set_text set_number set_flag
group_query f for_count =
    if for_count
    then (if f.top_level
        then set "top" "true" (set_text "search" f.search [])
        else set_text "search" f.search [])
    else set_flag "exact" f.exact (
        set_flag "populateHierarchy" f.populate_hierarchy (
          set_flag "briefRepresentation" f.brief_representation
            (set_number "max" f.max (set_number "first" f.first (set_text "search" f.search [])))))

-- The parameters that a listing of users has and a count does not.
abbrev pub refused_by_count : List String
refused_by_count = "briefRepresentation" ∷ "exact" ∷ "idpAlias" ∷ "idpUserId" ∷ []

abbrev shared_keys : List String
shared_keys =
    "enabled" ∷ "emailVerified" ∷ "search" ∷ "q" ∷ "username" ∷ "firstName" ∷ "email" ∷ "max"
    ∷ "first" ∷ []

module _ (k j : String) (other : str_eq k j ≡ false) where
  get-set : (v : String) (q : Query) → get j (set k v q) ≡ get j q
  get-set v q = get-put k j (v ∷ []) q ∙ rw other refl

  get-set_text : (v : String) (q : Query) → get j (set_text k v q) ≡ get j q
  unfolding set_text
  get-set_text v q = elim (Bool-cases (str_eq v "")) [
    | inl unset ↦ rw unset refl
    | inr there ↦ rw there (get-set v q)
  ]

  get-set_number : (n : ℤ) (q : Query) → get j (set_number k n q) ≡ get j q
  unfolding set_number
  get-set_number n q = elim (Bool-cases (ltb_ℤ (pos 0) n)) [
    | inl there ↦ rw there (get-set _ q)
    | inr unset ↦ rw unset refl
  ]

  get-set_flag : (b : Option Bool) (q : Query) → get j (set_flag k b q) ≡ get j q
  unfolding set_flag
  get-set_flag none q = refl
  get-set_flag (some b) q = get-set _ q

shared_user_query-lacks :
    (f : UserFilter) (j : String)
    → any (λ k. str_eq k j) shared_keys ≡ false
    → get j (shared_user_query f) ≡ none
unfolding shared_user_query get
shared_user_query-lacks f j other =
    rw
      (
        get-set_flag "enabled" j (ground (arith, other)),
        get-set_flag "emailVerified" j (ground (arith, other)),
        get-set_text "search" j (ground (arith, other)),
        get-set_text "q" j (ground (arith, other)),
        get-set_text "username" j (ground (arith, other)),
        get-set_text "firstName" j (ground (arith, other)),
        get-set_text "email" j (ground (arith, other)),
        get-set_number "max" j (ground (arith, other)),
        get-set_number "first" j (ground (arith, other)),
      )
      refl

user_query-keeps :
    (f : UserFilter) (j : String)
    → any (λ k. str_eq k j) refused_by_count ≡ false
    → get j (user_query f false) ≡ get j (shared_user_query f)
unfolding user_query
user_query-keeps f j other =
    rw
      (
        get-set_text "idpUserId" j (ground (arith, other)),
        get-set_text "idpAlias" j (ground (arith, other)),
        get-set_flag "exact" j (ground (arith, other)),
        get-set_flag "briefRepresentation" j (ground (arith, other)),
      )
      refl

any-All :
    (P : String → Type 0) (j : String) (ks : List String)
    → All P ks
    → any (λ k. str_eq k j) ks ≡ true
    → P j
any-All P j [] ps found = absurd (ground (arith, found))
any-All P j (k ∷ ks) (p, ps) found = elim (Bool-cases (str_eq k j)) [
  | inl same ↦ subst P ((eq_iff k j).0 same) p
  | inr other ↦ any-All P j ks ps (ground (arith, found))
]

shared_user_query-lacks_refused :
    (f : UserFilter) (j : String)
    → any (λ k. str_eq k j) refused_by_count ≡ true
    → get j (shared_user_query f) ≡ none
shared_user_query-lacks_refused f j refused =
    any-All (λ k. get k (shared_user_query f) ≡ none) j refused_by_count
      (
        shared_user_query-lacks f _ refl,
        (
          shared_user_query-lacks f _ refl,
          (shared_user_query-lacks f _ refl, (shared_user_query-lacks f _ refl, tt)),
        ),
      )
      refused

-- For any filter, the query of a count has of every parameter what the query of a listing has, save
-- briefRepresentation, exact, idpAlias and idpUserId, which it never has.
pub user_query-count :
    (f : UserFilter) (j : String)
    → get j (user_query f true)
      ≡ (if any (λ k. str_eq k j) refused_by_count then none else get j (user_query f false))
unfolding user_query
user_query-count f j = elim (Bool-cases (any (λ k. str_eq k j) refused_by_count)) [
  | inl refused ↦ rw refused (shared_user_query-lacks_refused f j refused)
  | inr kept ↦ rw kept (sym (user_query-keeps f j kept))
]
