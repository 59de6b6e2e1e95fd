-- ===== src/Scans/Inspector/States.antt =====
-- workflows/scans/inspector.go: which state a scan is in.
use cxone_sdk_golang.Prelude.{
  ℕ, ◌+◌, ◌≡◌, refl, ◌∙◌, inl, inr, Bool, true, false, not, ◌&&◌, ◌||◌, String, List, [], ◌∷◌, ◌==◌,
  arith, any, length, eq_iff, Bool-cases, if◌then◌else◌,
}
use cxone_sdk_golang.Prelude.Text.{str_eq}
use cxone_sdk_golang.Scans.Inspector.{
  StatusInfo, ScanResponseModel, Bucket, executing, successful, failed, is_queued_or_running,
  is_failed_or_canceled, is_completed, is_requested, Tally, tally_status, tally, bucket_of,
  partial_bucket, is_executing, is_successful, is_failed, is_executing_bucket, is_successful_bucket,
  is_failed_bucket,
}

-- An engine's state counts if no engine is listed, or if the engine is.
abbrev pub is_relevant : Bool → List String → StatusInfo → Bool
is_relevant all engines d = all || is_requested engines d.name

abbrev pub relevant : Bool → List String → List StatusInfo → List StatusInfo
relevant all engines [] = []
relevant all engines (d ∷ ds) =
    if is_relevant all engines d then d ∷ relevant all engines ds else relevant all engines ds

-- the state of a scan by the engines that count
abbrev pub summary : List StatusInfo → Bucket
summary [] = failed
summary (d ∷ ds) =
    if any (λ x. is_queued_or_running x.status) (d ∷ ds)
    then executing
    else if any (λ x. not (is_completed x.status)) (d ∷ ds)
    then failed
    else successful

-- what the loop's variables hold after `ds`
record Counted (ds : List StatusInfo) (t u : Tally) : Type 0 where
  executing_or : u.any_executing ≡ (t.any_executing || any (λ x. is_queued_or_running x.status) ds)
  completed_and :
      u.all_completed ≡ (t.all_completed && not (any (λ x. not (is_completed x.status)) ds))
  matched_sum : u.matched ≡ t.matched + length ds

completed_apart :
    (s : String)
    → is_completed s ≡ true
    → (is_queued_or_running s ≡ false) × (is_failed_or_canceled s ≡ false)
completed_apart s h = rw ((eq_iff s "Completed").0 h) (refl, refl)

tally_status-Counted :
    (d : StatusInfo) (t : Tally)
    → ((tally_status d.status t).any_executing ≡ (t.any_executing || is_queued_or_running d.status))
      × ((tally_status d.status t).all_completed ≡ (t.all_completed && is_completed d.status))
      × ((tally_status d.status t).matched ≡ t.matched)
unfolding tally_status
tally_status-Counted d t = elim (Bool-cases (is_completed d.status)) [
  | inl done ↦
      let apart = completed_apart d.status done in rw (apart.0, apart.1, done) (ground arith)
  | inr undone ↦ elim (Bool-cases (is_queued_or_running d.status)) [
    | inl going ↦ rw (going, undone) (ground arith)
    | inr still ↦
        rw (still, undone)
          (elim (Bool-cases (is_failed_or_canceled d.status)) [
            | inl ended ↦ rw ended (ground arith)
            | inr unknown ↦ rw unknown (ground arith)
          ])
  ]
]

tally-Counted :
    (all : Bool) (engines : List String) (ds : List StatusInfo) (t : Tally)
    → Counted (relevant all engines ds) t (tally all engines ds t)
unfolding tally
tally-Counted all engines [] t = ground arith
tally-Counted all engines (d ∷ ds) t = elim (Bool-cases (is_relevant all engines d)) [
  | inr skipped ↦
      let skip : (not all && not (is_requested engines d.name)) ≡ true = ground arith in
      rw (skipped, skip) (tally-Counted all engines ds t)
  | inl counted ↦
      let keep : (not all && not (is_requested engines d.name)) ≡ false = ground arith in
      let step = tally_status-Counted d (record t { matched = t.matched + 1 }) in
      let rest =
        tally-Counted all engines ds
          (tally_status d.status (record t { matched = t.matched + 1 })) in
      rw (counted, keep)
        (record {
          executing_or = rest.executing_or ∙ rw step.0 (ground arith);
          completed_and = rest.completed_and ∙ rw step.1 (ground arith);
          matched_sum = ground (arith, rest.matched_sum, step.2);
        })
]

bucket_of-summary :
    (ds : List StatusInfo) (t : Tally)
    → Counted ds
        (record { any_executing = false; any_failed = false; all_completed = true; matched = 0 })
        t
    → bucket_of t ≡ summary ds
bucket_of-summary [] t h = ground arith
bucket_of-summary (d ∷ ds) t h = ground arith

-- The bucket of a partial scan is that of the entries of its details that are for a requested
-- engine, or of all entries if no engine is requested: executing if one of them is queued or
-- running, else successful if there is one and all of them are completed, else failed. A requested
-- engine that has no entry plays no part.
pub partial_bucket-summary :
    (scan : ScanResponseModel)
    → partial_bucket scan
      ≡ summary (relevant (length scan.engines == 0) scan.engines scan.status_details)
unfolding partial_bucket
partial_bucket-summary scan = bucket_of-summary _ _ (
    tally-Counted (length scan.engines == 0) scan.engines scan.status_details
      (record { any_executing = false; any_failed = false; all_completed = true; matched = 0 }))

abbrev pub one_if : Bool → ℕ
one_if b = if b then 1 else 0

-- the statuses that the service documents
abbrev pub is_known : String → Bool
is_known s =
    is_queued_or_running s || is_failed_or_canceled s || is_completed s || str_eq s "Partial"

one_bucket :
    (b : Bucket)
    → one_if (is_executing_bucket b) + one_if (is_successful_bucket b) + one_if (is_failed_bucket b)
      ≡ 1
one_bucket executing = refl
one_bucket successful = refl
one_bucket failed = refl

-- A scan of a documented status is in exactly one of the states executing, successful and failed,
-- and a scan of any other status is in none of them.
pub states_exclusive :
    (scan : ScanResponseModel)
    → one_if (is_executing scan) + one_if (is_successful scan) + one_if (is_failed scan)
      ≡ one_if (is_known scan.status)
unfolding is_executing is_successful is_failed
states_exclusive scan = elim (Bool-cases (str_eq scan.status "Queued")) [
  | inl at ↦ rw ((eq_iff scan.status "Queued").0 at) refl
  | inr not_queued ↦ elim (Bool-cases (str_eq scan.status "Running")) [
    | inl at ↦ rw ((eq_iff scan.status "Running").0 at) refl
    | inr not_running ↦ elim (Bool-cases (str_eq scan.status "Failed")) [
      | inl at ↦ rw ((eq_iff scan.status "Failed").0 at) refl
      | inr not_failed ↦ elim (Bool-cases (str_eq scan.status "Canceled")) [
        | inl at ↦ rw ((eq_iff scan.status "Canceled").0 at) refl
        | inr not_canceled ↦ elim (Bool-cases (is_completed scan.status)) [
          | inl at ↦ rw ((eq_iff scan.status "Completed").0 at) refl
          | inr not_completed ↦ elim (Bool-cases (str_eq scan.status "Partial")) [
            | inl at ↦
                rw (not_queued, not_running, not_failed, not_canceled, not_completed, at)
                  (one_bucket (partial_bucket scan))
            | inr unknown ↦
                rw (not_queued, not_running, not_failed, not_canceled, not_completed, unknown) refl
          ]
        ]
      ]
    ]
  ]
]
