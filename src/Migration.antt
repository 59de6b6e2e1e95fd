-- ===== src/Migration.antt =====
-- workflows/migration/inspector.go and waiter.go: an import, and waiting for it.
pub mod Ends
mod Examples
use cxone_sdk_golang.Prelude.{
  ℕ, zero, suc, Bool, ◌||◌, String, Option, none, some, ◌∷◌, [], if◌then◌else◌,
}
use cxone_sdk_golang.Prelude.Int.{ℤ, pos, leb_ℤ}
use cxone_sdk_golang.Prelude.Text.{str_eq, concat_all}
use cxone_sdk_golang.Errors.{Error, nil, is_nil, opaque}
use cxone_sdk_golang.Waiting.{Clock, compute_deadline, sleep_until}
use cxone_sdk_golang.Endpoints.Users.{required}
use cxone_sdk_golang.Endpoints.Migration.{MigrationApi, DataImport, get_import}

pub record ImportInspector (W : Type 0) : Type 0 where
  pub backend : MigrationApi W
  pub import_id : String
  pub snapshot : Option DataImport

pub record ImportWaitOptions : Type 0 where
  pub poll_interval : ℤ
  pub max_duration : ℤ

-- the error, and the inspector as it is left
abbrev pub ImportWaited : Type 0 → Type 0
ImportWaited W = (ImportInspector W × Error) × W

module _ {W : Type 0} where
  unfoldable pub import_fetched :
      MigrationApi W
      → String
      → (Option DataImport × Error) × W
      → (Option (ImportInspector W) × Error) × W
  import_fetched api id ((d, e), w) =
      if is_nil e
      then ((some (record { backend = api; import_id = id; snapshot = d }), nil), w)
      else ((none, e), w)

  -- FromImportID
  unfoldable pub from_import_id :
      Option (MigrationApi W) → String → W → (Option (ImportInspector W) × Error) × W
  from_import_id none id w = ((none, required "backend"), w)
  from_import_id (some api) id w =
      if str_eq id ""
      then ((none, required "importID"), w)
      else import_fetched api id (get_import api id w)

  -- Status
  unfoldable pub import_status : ImportInspector W → String
  import_status i = elim i.snapshot [ none ↦ "" | some d ↦ d.status ]

  -- Completed
  unfoldable pub is_import_completed : ImportInspector W → Bool
  is_import_completed i = str_eq (import_status i) "completed" || str_eq (import_status i) "partial"

  -- Failed
  unfoldable pub is_import_failed : ImportInspector W → Bool
  is_import_failed i = str_eq (import_status i) "failed" || str_eq (import_status i) "blank"

  -- Terminal
  unfoldable pub is_import_terminal : ImportInspector W → Bool
  is_import_terminal i = is_import_completed i || is_import_failed i

  unfoldable pub import_seen :
      ImportInspector W → (Option DataImport × Error) × W → Error × (ImportInspector W × W)
  import_seen i ((d, e), w) =
      if is_nil e then (nil, (record i { snapshot = d }, w)) else (e, (i, w))

  -- Refresh
  unfoldable pub refresh_import : ImportInspector W → W → Error × (ImportInspector W × W)
  refresh_import i w = import_seen i (get_import i.backend i.import_id w)

  abbrev pub import_error : ImportInspector W → Error
  import_error i = opaque (concat_all ("import " ∷ i.import_id ∷ " " ∷ import_status i ∷ []))

module _ {W : Type 0} (clock : Clock W) where
  -- the next round, with what Refresh left
  unfoldable pub import_refreshed :
      (ImportInspector W → W → Option (ImportWaited W))
      → Error × (ImportInspector W × W)
      → Option (ImportWaited W)
  import_refreshed rest (e, (i, w)) = if is_nil e then rest i w else some ((i, e), w)

  -- after the sleep: Refresh
  unfoldable pub import_slept :
      ImportInspector W
      → (ImportInspector W → W → Option (ImportWaited W))
      → Error × W
      → Option (ImportWaited W)
  import_slept i rest (e, w) =
      if is_nil e then import_refreshed rest (refresh_import i w) else some ((i, e), w)

  -- one round of the loop
  unfoldable pub import_round :
      ℤ
      → Option ℤ
      → ImportInspector W
      → (ImportInspector W → W → Option (ImportWaited W))
      → W
      → Option (ImportWaited W)
  import_round interval deadline i rest w =
      if is_import_completed i
      then some ((i, nil), w)
      else if is_import_failed i
      then some ((i, import_error i), w)
      else import_slept i rest (sleep_until clock interval deadline w)

  -- the loop, on fuel: one unit for each round
  unfoldable pub import_rounds : ℕ → ℤ → Option ℤ → ImportInspector W → W → Option (ImportWaited W)
  import_rounds zero interval deadline i w = none
  import_rounds (suc fuel) interval deadline i w =
      import_round interval deadline i (import_rounds fuel interval deadline) w

  -- the interval with its default, fifteen seconds
  abbrev pub import_interval : ImportWaitOptions → ℤ
  import_interval opts =
      if leb_ℤ opts.poll_interval (pos 0) then pos 15_000_000_000 else opts.poll_interval

  -- WaitUntilComplete, of an inspector that is there
  unfoldable pub wait_for_import :
      ℕ → ImportWaitOptions → ImportInspector W → W → Option (ImportWaited W)
  wait_for_import fuel opts i w =
      let (deadline, w') = compute_deadline clock opts.max_duration w in
      import_rounds fuel (import_interval opts) deadline i w'
