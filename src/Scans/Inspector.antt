-- ===== src/Scans/Inspector.antt =====
-- workflows/scans/inspector.go: the state of a scan.
pub mod States
use cxone_sdk_golang.Prelude.{
  ℕ, suc, ◌+◌, ◌≡◌, ◌≢◌, ◌↔◌, refl, Bool, true, false, not, ◌&&◌, ◌||◌, String, List, [], ◌∷◌, ◌==◌,
  arith, any, length, if◌then◌else◌,
}
use cxone_sdk_golang.Prelude.Text.{str_eq, concat, to_lower}

-- StatusInfo, without its error code
pub record StatusInfo : Type 0 where
  pub name : String
  pub status : String
  pub details : String

-- the fields of ScanResponseModel that the inspector reads
pub record ScanResponseModel : Type 0 where
  pub id : String
  pub status : String
  pub engines : List String
  pub status_details : List StatusInfo

pub data Bucket : Type 0 where
  executing successful failed : Bucket

abbrev pub is_queued_or_running : String → Bool
is_queued_or_running s = str_eq s "Queued" || str_eq s "Running"

abbrev pub is_failed_or_canceled : String → Bool
is_failed_or_canceled s = str_eq s "Failed" || str_eq s "Canceled"

abbrev pub is_completed : String → Bool
is_completed s = str_eq s "Completed"

-- requested[strings.ToLower(name)]
abbrev pub is_requested : List String → String → Bool
is_requested engines name = any (λ e. str_eq (to_lower e) (to_lower name)) engines

-- the variables of the loop of partialBucket
pub record Tally : Type 0 where
  pub any_executing : Bool
  pub any_failed : Bool
  pub all_completed : Bool
  pub matched : ℕ

-- the `switch` on an engine's status
unfoldable pub tally_status : String → Tally → Tally
tally_status s t =
    if is_queued_or_running s
    then record t { any_executing = true; all_completed = false }
    else if is_failed_or_canceled s
    then record t { any_failed = true; all_completed = false }
    else if is_completed s
    then t
    else record t { any_failed = true; all_completed = false }

-- the loop over the engines' states
unfoldable pub tally : Bool → List String → List StatusInfo → Tally → Tally
unfolding tally_status
tally all engines [] t = t
tally all engines (d ∷ ds) t =
    if not all && not (is_requested engines d.name)
    then tally all engines ds t
    else tally all engines ds (tally_status d.status (record t { matched = t.matched + 1 }))

-- what the loop's variables come to
abbrev pub bucket_of : Tally → Bucket
bucket_of t =
    if t.matched == 0
    then failed
    else if t.any_executing
    then executing
    else if t.all_completed
    then successful
    else failed

-- partialBucket
unfoldable pub partial_bucket : ScanResponseModel → Bucket
unfolding tally
partial_bucket scan = bucket_of (
    tally (length scan.engines == 0) scan.engines scan.status_details
      (record { any_executing = false; any_failed = false; all_completed = true; matched = 0 }))

abbrev pub is_executing_bucket : Bucket → Bool
is_executing_bucket executing = true
is_executing_bucket _ = false

abbrev pub is_successful_bucket : Bucket → Bool
is_successful_bucket successful = true
is_successful_bucket _ = false

abbrev pub is_failed_bucket : Bucket → Bool
is_failed_bucket failed = true
is_failed_bucket _ = false

-- Executing
unfoldable pub is_executing : ScanResponseModel → Bool
is_executing scan =
    if is_queued_or_running scan.status
    then true
    else if str_eq scan.status "Partial"
    then is_executing_bucket (partial_bucket scan)
    else false

-- Successful
unfoldable pub is_successful : ScanResponseModel → Bool
is_successful scan =
    if is_completed scan.status
    then true
    else if str_eq scan.status "Partial"
    then is_successful_bucket (partial_bucket scan)
    else false

-- Failed
unfoldable pub is_failed : ScanResponseModel → Bool
is_failed scan =
    if is_failed_or_canceled scan.status
    then true
    else if str_eq scan.status "Partial"
    then is_failed_bucket (partial_bucket scan)
    else false

-- an entry of the message for a partial scan
abbrev state_entry : StatusInfo → String
state_entry d =
    let entry = concat d.name (concat "=" d.status) in
    if str_eq d.details "" then entry else concat entry (concat " (" (concat d.details ")"))

-- strings.Join
unfoldable pub join_entries : List StatusInfo → String
join_entries [] = ""
join_entries (d ∷ ds) = elim ds [
  | [] ↦ state_entry d
  | e ∷ es ↦ concat (state_entry d) (concat ", " (join_entries ds))
]

-- StateMessage
unfoldable pub state_message : ScanResponseModel → String
unfolding join_entries
state_message scan =
    if str_eq scan.status "Partial"
    then concat "Partial: " (join_entries scan.status_details)
    else scan.status
