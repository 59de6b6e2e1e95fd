-- ===== src/Pagination/Graphql.antt =====
-- pagination/graphql_iterator.go: the fetcher of a paginated GraphQL query.
use cxone_sdk_golang.Prelude.{
  ◌≡◌, ◌∙◌, refl, inl, inr, subst, true, false, String, Option, none, some, List, [], ◌∷◌,
  Bool-cases, eq_iff, eq_refl, if◌then◌else◌,
}
use cxone_sdk_golang.Prelude.Int.{ℤ, pos, is_zero}
use cxone_sdk_golang.Prelude.Text.{str_eq, concat}
use cxone_sdk_golang.Prelude.Maps.{get, put, get-put, Distinct}
use cxone_sdk_golang.Errors.{Error, nil, is_nil, wrapped}
use cxone_sdk_golang.Errors.Message.{message}
use cxone_sdk_golang.Pagination.{PageFetcher, Config}

-- a value of a variable: a number of the iterator's, or one of the caller's
pub data Value (V : Type 0) : Type 0 where
  int : ℤ → Value V
  given : V → Value V

abbrev pub Variables : Type 0 → Type 0
Variables V = List (String × Value V)

-- Execute, which yields the raw data
abbrev pub GraphqlExecutor : (W V : Type 0) → Type 0
GraphqlExecutor W V = String → Variables V → W → (String × Error) × W

pub record SkipTakeNames : Type 0 where
  pub skip : String
  pub take : String

abbrev pub skip_name : SkipTakeNames → String
skip_name n = if str_eq n.skip "" then "skip" else n.skip

abbrev pub take_name : SkipTakeNames → String
take_name n = if str_eq n.take "" then "take" else n.take

-- the copy of the caller's variables, one by one
unfoldable pub copy_all : {V : Type 0} → Variables V → Variables V → Variables V
copy_all [] merged = merged
copy_all ((k, v) ∷ vs) merged = copy_all vs (put k v merged)

-- merged
unfoldable pub merge : {V : Type 0} → SkipTakeNames → Variables V → ℤ → ℤ → Variables V
unfolding copy_all
merge names extra offset limit =
    put (take_name names) (int limit) (put (skip_name names) (int offset) (copy_all extra []))

-- the configuration that NewGraphQL hands to New
unfoldable pub graphql_config : Config → Config
graphql_config cfg = record cfg {
  offset_is_by_count = true;
  page_size = if is_zero cfg.page_size then pos 100 else cfg.page_size;
}

module _ {W V A : Type 0} (execute : GraphqlExecutor W V) (query : String) (extra : Variables V)
    (decode : String → List A × Error) (names : SkipTakeNames) where
  -- with what the callback made of the data
  unfoldable pub decoded : List A × Error → W → (List A × Error) × W
  decoded (items, e) w =
      if is_nil e
      then ((items, nil), w)
      else (([], wrapped (concat "graphql decode: " (message e)) e), w)

  unfoldable pub executed : (String × Error) × W → (List A × Error) × W
  unfolding decoded
  executed ((raw, e), w) =
      if is_nil e
      then if str_eq raw "" then (([], nil), w) else decoded (decode raw) w
      else (([], e), w)

  -- the fetcher of NewGraphQL
  unfoldable pub graphql_fetch : PageFetcher W A
  unfolding executed merge
  graphql_fetch offset limit w = executed (execute query (merge names extra offset limit) w)

abbrev pub or_else : {V : Type 0} → Option V → Option V → Option V
or_else none d = d
or_else (some v) d = some v

or_else-none : {V : Type 0} (o : Option V) → or_else o none ≡ o
or_else-none none = refl
or_else-none (some v) = refl

get-copy_all :
    {V : Type 0} (k : String) (extra merged : Variables V)
    → Distinct extra
    → get k (copy_all extra merged) ≡ or_else (get k extra) (get k merged)
unfolding copy_all get
get-copy_all k [] merged h = refl
get-copy_all k ((j, v) ∷ vs) merged (fresh, h) = elim (Bool-cases (str_eq j k)) [
  | inl same ↦
      let absent : get k vs ≡ none = subst (λ i. get i vs ≡ none) ((eq_iff j k).0 same) fresh in
      rw (get-copy_all k vs (put j v merged) h, get-put j k v merged, absent, same) refl
  | inr other ↦ rw (get-copy_all k vs (put j v merged) h, get-put j k v merged, other) refl
]

-- the variables have the iterator's offset and page size under the two names, and the caller's value
-- of every other one
abbrev pub Pages : {V : Type 0} → SkipTakeNames → Variables V → ℤ → ℤ → Variables V → Type 0
Pages names extra offset limit vars =
    (get (skip_name names) vars ≡ some (int offset))
    × (get (take_name names) vars ≡ some (int limit))
    × ((k : String)
        → str_eq (skip_name names) k ≡ false
        → str_eq (take_name names) k ≡ false
        → get k vars ≡ get k extra)

merge-Pages :
    {V : Type 0} (names : SkipTakeNames) (extra : Variables V) (offset limit : ℤ)
    → Distinct extra
    → str_eq (take_name names) (skip_name names) ≡ false
    → Pages names extra offset limit (merge names extra offset limit)
unfolding merge get
merge-Pages names extra offset limit h differ =
    let copied = copy_all extra [] in
    let inner = put (skip_name names) (int offset) copied in
    (
      get-put (take_name names) (skip_name names) (int limit) inner
          ∙ rw differ (
              get-put (skip_name names) (skip_name names) (int offset) copied
              ∙ rw (eq_refl (skip_name names)) refl),
      get-put (take_name names) (take_name names) (int limit) inner
          ∙ rw (eq_refl (take_name names)) refl,
      λ k skip take.
          get-put (take_name names) k (int limit) inner
          ∙ rw take (
              get-put (skip_name names) k (int offset) copied
              ∙ rw skip (get-copy_all k extra [] h ∙ or_else-none (get k extra))),
    )

-- the executor, with a log of the queries and the variables that it is called with
abbrev pub noting :
    {W V : Type 0} → GraphqlExecutor W V → GraphqlExecutor (W × List (String × Variables V)) V
noting execute query vars (w, log) =
    ((execute query vars w).0, ((execute query vars w).1, (query, vars) ∷ log))

module _ {W V A : Type 0} (execute : GraphqlExecutor W V) (query : String) (extra : Variables V)
    (decode : String → List A × Error) (names : SkipTakeNames) where
  executed-world :
      (r : (String × Error) × W) → (executed execute query extra decode names r).1 ≡ r.1
  unfolding executed decoded
  executed-world ((raw, e), w) = elim (Bool-cases (is_nil e)) [
    | inr bad ↦ rw bad refl
    | inl ok ↦ elim (Bool-cases (str_eq raw "")) [
      | inl empty ↦ rw (ok, empty) refl
      | inr full ↦ elim (Bool-cases (is_nil (decode raw).1)) [
        | inl read ↦ rw (ok, full, read) refl
        | inr unread ↦ rw (ok, full, unread) refl
      ]
    ]
  ]

-- Where the two paging variables have different names, the fetcher of NewGraphQL asks for a page by
-- one call of Execute with the query, and with variables that have the iterator's offset and page
-- size under those names, whatever the caller put there, and the caller's value of every other one.
pub graphql_fetch-Pages :
    {W V A : Type 0} (execute : GraphqlExecutor W V) (query : String) (extra : Variables V)
    (decode : String → List A × Error) (names : SkipTakeNames) (offset limit : ℤ) (w : W)
    (log : List (String × Variables V))
    → Distinct extra
    → str_eq (take_name names) (skip_name names) ≡ false
    → (vars : Variables V) × Pages names extra offset limit vars
      × ((graphql_fetch (noting execute) query extra decode names offset limit (w, log)).1
          ≡ ((execute query vars w).1, (query, vars) ∷ log))
unfolding graphql_fetch
graphql_fetch-Pages execute query extra decode names offset limit w log distinct differ = (
  merge names extra offset limit,
  merge-Pages names extra offset limit distinct differ,
  executed-world (noting execute) query extra decode names
      (noting execute query (merge names extra offset limit) (w, log)),
)
