-- ===== src/Scans/Compare.antt =====
-- workflows/scans/compare.go: what is new, resolved and recurrent between two scans.
pub mod Totals
pub mod Groups
use cxone_sdk_golang.Prelude.{
  ℕ, zero, suc, ◌+◌, ltb, Bool, true, false, not, ◌&&◌, ◌||◌, String, Option, none, some, List, [],
  ◌∷◌, ◌==◌, any, if◌then◌else◌,
}
use cxone_sdk_golang.Prelude.Text.{str_eq, text_less}
use cxone_sdk_golang.Prelude.Maps.{get, put}

-- the fields of models.ScanResult that the comparison reads
pub record ScanResult : Type 0 where
  pub similarity_id : String
  pub result_hash : String
  pub severity : String
  pub kind : String
  pub state : String
  pub query_name : String

pub data IdentityKey : Type 0 where
  by_similarity_id by_result_hash : IdentityKey

-- compareOptions, without the progress callback; a set that is missing admits all
pub record CompareOptions : Type 0 where
  pub identity_key : IdentityKey
  pub severities : Option (List String)
  pub engines : Option (List String)

pub record ScanComparisonBucket : Type 0 where
  pub new : ℕ
  pub resolved : ℕ
  pub recurrent : ℕ

-- the part of models.ScanComparison that diffResults computes
pub record ScanComparison : Type 0 where
  pub by_severity : List (String × ScanComparisonBucket)
  pub totals : ScanComparisonBucket

-- identityFn
abbrev pub identity_of : IdentityKey → ScanResult → String
identity_of by_similarity_id r = r.similarity_id
identity_of by_result_hash r = r.result_hash

-- wantSeverity and wantEngine
abbrev pub is_wanted : Option (List String) → String → Bool
is_wanted none s = true
is_wanted (some set) s = any (str_eq s) set

abbrev pub is_compared : CompareOptions → ScanResult → Bool
is_compared o r = is_wanted o.severities r.severity && is_wanted o.engines r.kind

-- oldByID and newByID: the last result of each identity
unfoldable pub index :
    CompareOptions → List ScanResult → List (String × ScanResult) → List (String × ScanResult)
index o [] m = m
index o (r ∷ rs) m =
    if not (is_wanted o.severities r.severity) || not (is_wanted o.engines r.kind)
    then index o rs m
    else index o rs (put (identity_of o.identity_key r) r m)

-- a comma-ok lookup's second value
abbrev pub is_present : {V : Type 0} → Option V → Bool
is_present none = false
is_present (some v) = true

abbrev pub empty_bucket : ScanComparisonBucket
empty_bucket = record { new = 0; resolved = 0; recurrent = 0 }

abbrev pub or_empty : Option ScanComparisonBucket → ScanComparisonBucket
or_empty none = empty_bucket
or_empty (some b) = b

abbrev pub Buckets : Type 0
Buckets = List (String × ScanComparisonBucket)

-- the walk over newByID
unfoldable pub count_new :
    List (String × ScanResult) → List (String × ScanResult) → Buckets → Buckets
count_new [] old m = m
count_new ((id, r) ∷ rs) old m =
    let b = or_empty (get r.severity m) in
    count_new rs old (
      put r.severity
        (if is_present (get id old)
          then record b { recurrent = b.recurrent + 1 }
          else record b { new = b.new + 1 })
        m)

-- the walk over oldByID
unfoldable pub count_resolved :
    List (String × ScanResult) → List (String × ScanResult) → Buckets → Buckets
count_resolved [] newer m = m
count_resolved ((id, r) ∷ rs) newer m =
    if is_present (get id newer)
    then count_resolved rs newer m
    else let b = or_empty (get r.severity m) in
      count_resolved rs newer (put r.severity (record b { resolved = b.resolved + 1 }) m)

-- the loop that sums the buckets
unfoldable pub sum_buckets : Buckets → ScanComparisonBucket → ScanComparisonBucket
sum_buckets [] t = t
sum_buckets ((s, b) ∷ bs) t = sum_buckets bs (record {
  new = t.new + b.new;
  resolved = t.resolved + b.resolved;
  recurrent = t.recurrent + b.recurrent;
})

-- diffResults
unfoldable pub diff_results : List ScanResult → List ScanResult → CompareOptions → ScanComparison
unfolding index count_new count_resolved sum_buckets
diff_results old newer o =
    let old_by_id = index o old [] in
    let new_by_id = index o newer [] in
    let by_severity = count_resolved old_by_id new_by_id (count_new new_by_id old_by_id []) in
    record { by_severity = by_severity; totals = sum_buckets by_severity empty_bucket }

-- models.NotExploitableGroup
pub record NotExploitableGroup : Type 0 where
  pub query_name : String
  pub severity : String
  pub count : ℕ

abbrev pub is_not_exploitable : ScanResult → Bool
is_not_exploitable r = str_eq r.state "NOT_EXPLOITABLE" || str_eq r.state "PROPOSED_NOT_EXPLOITABLE"

abbrev pub group_name : ScanResult → String
group_name r = if str_eq r.query_name "" then "(unnamed)" else r.query_name

-- counts[name], made on the first result of its name
abbrev pub or_new_group : ScanResult → Option NotExploitableGroup → NotExploitableGroup
or_new_group r none = record { query_name = group_name r; severity = r.severity; count = 0 }
or_new_group r (some g) = g

-- the loop that counts the groups
unfoldable pub count_groups :
    CompareOptions
    → List ScanResult
    → List (String × NotExploitableGroup)
    → List (String × NotExploitableGroup)
count_groups o [] m = m
count_groups o (r ∷ rs) m =
    if not (is_not_exploitable r)
    then count_groups o rs m
    else if not (is_compared o r)
    then count_groups o rs m
    else let g = or_new_group r (get (group_name r) m) in
      count_groups o rs (put (group_name r) (record g { count = g.count + 1 }) m)

-- the `less` of sort.Slice
unfoldable pub is_less : NotExploitableGroup → NotExploitableGroup → Bool
is_less g h =
    if not (g.count == h.count) then ltb h.count g.count else text_less g.query_name h.query_name

-- sort.Slice
unfoldable pub insert_group :
    NotExploitableGroup → List NotExploitableGroup → List NotExploitableGroup
unfolding is_less
insert_group g [] = g ∷ []
insert_group g (h ∷ hs) = if is_less g h then g ∷ h ∷ hs else h ∷ insert_group g hs

unfoldable pub sort_groups : List (String × NotExploitableGroup) → List NotExploitableGroup
unfolding insert_group
sort_groups [] = []
sort_groups ((k, g) ∷ m) = insert_group g (sort_groups m)

-- groupNotExploitable
unfoldable pub group_not_exploitable : List ScanResult → CompareOptions → List NotExploitableGroup
unfolding count_groups sort_groups
group_not_exploitable rs o = sort_groups (count_groups o rs [])
