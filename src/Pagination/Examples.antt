-- ===== src/Pagination/Examples.antt =====
-- pagination: the theorems at concrete inputs.
use cxone_sdk_golang.Prelude.{
  ℕ, suc, ◌+◌, ◌≤◌, ◌≡◌, ◌==◌, refl, true, String, none, some, List, [], ◌∷◌, arith, if◌then◌else◌,
  length, Bool-cases, inl, inr,
}
use cxone_sdk_golang.Prelude.Int.{ℤ, pos, negsuc, wrap_int, ◌+ℤ◌}
use cxone_sdk_golang.Prelude.Maps.{get}
use cxone_sdk_golang.Scripted.{quiet}
use cxone_sdk_golang.Context.{sleep}
use cxone_sdk_golang.Errors.{Error, errors_is, chain_has, nil, is_nil, opaque}
use cxone_sdk_golang.Pagination.{
  PageFetcher, Config, Collected, with_defaults, new_iterator, advance_offset, collect,
}
use cxone_sdk_golang.Pagination.Log.{Logged, logged, logged_context, offset_at}
use cxone_sdk_golang.Pagination.Walk.{Explained, collect-items}
use cxone_sdk_golang.Pagination.Finite.{Bounded, Done, collect-ends}
use cxone_sdk_golang.Pagination.Graphql.{
  GraphqlExecutor, Variables, given, SkipTakeNames, graphql_fetch, noting, Pages,
  graphql_fetch-Pages,
}

abbrev page : ℤ → List ℕ
page (pos n) = if n == 0 then 1 ∷ 2 ∷ [] else if n == 2 then 3 ∷ [] else []
page (negsuc n) = []

-- busy at the first call
abbrev two_pages : PageFetcher ℕ ℕ
two_pages offset limit w = if w == 0 then (([], opaque "busy"), 1) else ((page offset, nil), w + 1)

abbrev pairs : Config
pairs = record {
  page_size = pos 2;
  offset_init_value = pos 0;
  offset_is_by_count = true;
  page_retries_max = pos 0;
  page_retry_delay = negsuc 0;
  retryable = none;
}

abbrev collected : ℕ → Collected (Logged ℕ ℕ) ℕ
collected fuel =
    collect (logged_context quiet) (with_defaults pairs) (logged two_pages) fuel
      (new_iterator pairs) (record { world = 0; log = [] })

abbrev items_of : Collected (Logged ℕ ℕ) ℕ → List ℕ
items_of none = []
items_of (some ((out, e), (it, s))) = out

items_collected : items_of (collected 5) ≡ 1 ∷ 2 ∷ 3 ∷ []
unfolding collect new_iterator with_defaults advance_offset errors_is chain_has sleep
items_collected = refl

collect-items_example : Explained (with_defaults pairs) (collected 5)
unfolding with_defaults wrap_int ◌+ℤ◌
collect-items_example = collect-items quiet pairs two_pages 5 0 (omega arith)

short : (o : ℤ) → length (page o) ≤ 2
short (pos n) = ground arith
short (negsuc n) = omega arith

last_empty : (m : ℕ) → m ≡ 2 → page (offset_at (with_defaults pairs) m) ≡ []
unfolding offset_at with_defaults wrap_int ◌+ℤ◌
last_empty m q = rw q refl

two_pages-Bounded :
    (m : ℕ) (w : ℕ)
    → is_nil (two_pages (offset_at (with_defaults pairs) m) (with_defaults pairs).page_size w).0.1
      ≡ true
    → Bounded 2 2 m
        (two_pages (offset_at (with_defaults pairs) m) (with_defaults pairs).page_size w).0.0
two_pages-Bounded m w h = elim (Bool-cases (w == 0)) [
  | inl early ↦ rw early (omega arith, λ q. refl)
  | inr late ↦ rw late (short (offset_at (with_defaults pairs) m), last_empty m)
]

collect-ends_example : Done (collected 5) × Explained (with_defaults pairs) (collected 5)
unfolding with_defaults wrap_int ◌+ℤ◌
collect-ends_example =
    collect-ends quiet pairs two_pages 2 2 5 0 two_pages-Bounded (omega arith) (omega arith)

abbrev filters : Variables String
filters = ("tenant", given "t-1") ∷ ("skip", given "7") ∷ []

abbrev usual : SkipTakeNames
usual = record { skip = ""; take = "first" }

-- an executor that counts its calls and answers with no data
abbrev counting : GraphqlExecutor ℕ String
counting query vars w = (("", nil), suc w)

abbrev no_items : String → List ℕ × Error
no_items s = ([], nil)

graphql_fetch-Pages_example :
    (vars : Variables String) × Pages usual filters (pos 200) (pos 100) vars
    × ((graphql_fetch
          (noting counting)
          "{ x }"
          filters
          no_items
          usual
          (pos 200)
          (pos 100)
          (3, [])).1
        ≡ (4, ("{ x }", vars) ∷ []))
unfolding get
graphql_fetch-Pages_example =
    graphql_fetch-Pages counting "{ x }" filters no_items usual (pos 200) (pos 100) 3 []
      (refl, (refl, tt)) refl
