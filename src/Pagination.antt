-- ===== src/Pagination.antt =====
-- pagination/iterator.go: the iterator over the items of a paginated endpoint.
pub mod Log
pub mod Page
pub mod Walk
pub mod Finite
pub mod Graphql
mod Examples
use cxone_sdk_golang.Prelude.{
  ℕ, zero, suc, Bool, true, false, not, Option, none, some, List, [], ◌∷◌, ◌++◌, ◌==◌,
  if◌then◌else◌,
}
use cxone_sdk_golang.Prelude.Int.{ℤ, pos, pos_part, ltb_ℤ, ◌+ℤ◌, wrap_int, is_zero}
use cxone_sdk_golang.Context.{Context, sleep}
use cxone_sdk_golang.Errors.{Error, nil, is_nil, is_cancellation}

-- PageFetcher, from an offset and a limit
abbrev pub PageFetcher : Type 0 → Type 0 → Type 0
PageFetcher W A = ℤ → ℤ → W → (List A × Error) × W

pub record Config : Type 0 where
  pub page_size : ℤ
  pub offset_init_value : ℤ
  pub offset_is_by_count : Bool
  pub page_retries_max : ℤ
  pub page_retry_delay : ℤ
  pub retryable : Option (Error → Bool)

abbrev pub default_page_retry_delay : ℤ
default_page_retry_delay = pos 3_000_000_000

-- withDefaults
unfoldable pub with_defaults : Config → Config
with_defaults c = record c {
  page_size = if is_zero c.page_size then pos 100 else c.page_size;
  page_retries_max = if is_zero c.page_retries_max then pos 5 else c.page_retries_max;
  page_retry_delay =
      if is_zero c.page_retry_delay
      then default_page_retry_delay
      else if ltb_ℤ c.page_retry_delay (pos 0)
      then pos 0
      else c.page_retry_delay;
}

-- The iterator's own state; its `cfg` and `fetch`, which do not change, are arguments.
pub record Iterator (A : Type 0) : Type 0 where
  pub offset : ℤ
  pub exhausted : Bool
  pub buffer : List A

-- New; the iterator goes on with `with_defaults cfg`
unfoldable pub new_iterator : {A : Type 0} → Config → Iterator A
unfolding with_defaults
new_iterator cfg = record {
  offset = (with_defaults cfg).offset_init_value;
  exhausted = false;
  buffer = [];
}

-- advanceOffset; the length of the page plays no part in it
unfoldable pub advance_offset : Config → ℤ → ℤ
unfolding wrap_int ◌+ℤ◌
advance_offset cfg offset =
    if cfg.offset_is_by_count
    then wrap_int (offset +ℤ cfg.page_size)
    else wrap_int (offset +ℤ pos 1)

-- maxAttempts
abbrev pub max_attempts : Config → ℤ
max_attempts cfg = wrap_int (cfg.page_retries_max +ℤ pos 1)

-- cfg.Retryable != nil && !cfg.Retryable(err)
abbrev pub is_refused : Option (Error → Bool) → Error → Bool
is_refused none e = false
is_refused (some retryable) e = not (retryable e)

-- what fetchNextPage returns
abbrev pub Tried : Type 0 → Type 0 → Type 0
Tried W A = (Error × Iterator A) × W

-- what Next returns: an item, or no item and an error that may be nil
abbrev pub Stepped : Type 0 → Type 0 → Type 0
Stepped W A = (Option A × Error) × (Iterator A × W)

-- what Collect returns: nothing when the fuel ends
abbrev pub Collected : Type 0 → Type 0 → Type 0
Collected W A = Option ((List A × Error) × (Iterator A × W))

module _ {W A : Type 0} (ctx : Context W) (cfg : Config) (fetch : PageFetcher W A) where
  -- after a failed fetch: the sleep, and the next round unless it was cut short
  unfoldable pub rest_if_awake : Iterator A → (W → Tried W A) → Error × W → Tried W A
  rest_if_awake it rest (e, w) = if is_nil e then rest w else ((e, it), w)

  -- what fetchNextPage makes of an answer; `is_last` says that this is the last attempt
  unfoldable pub answered :
      Bool → Iterator A → (Error → W → Tried W A) → (List A × Error) × W → Tried W A
  unfolding rest_if_awake
  answered is_last it rest ((items, e), w) =
      if is_nil e
      then ((nil, record it { buffer = items; offset = advance_offset cfg it.offset }), w)
      else if is_cancellation e
      then ((e, it), w)
      else if is_refused cfg.retryable e
      then ((e, it), w)
      else if is_last
      then ((e, it), w)
      else rest_if_awake it (rest e) (sleep ctx cfg.page_retry_delay w)

  -- one round of the loop
  unfoldable pub try_once : Bool → Iterator A → (Error → W → Tried W A) → Error × W → Tried W A
  unfolding answered
  try_once is_last it rest (e, w) =
      if is_nil e then answered is_last it rest (fetch it.offset cfg.page_size w) else ((e, it), w)

  -- `left` more rounds of the loop
  unfoldable pub tries : ℕ → Iterator A → Error → W → Tried W A
  unfolding try_once
  tries zero it last w = ((last, it), w)
  tries (suc left) it last w = try_once (left == 0) it (tries left it) (ctx.err w)

  unfoldable pub fetch_next_page : Iterator A → W → Tried W A
  unfolding tries
  fetch_next_page it w =
      if it.exhausted then ((nil, it), w) else tries (pos_part (max_attempts cfg)) it nil w

  -- the item at the front of the buffer
  unfoldable pub take_item : Iterator A → List A → W → Stepped W A
  take_item it [] w = ((none, nil), (record it { exhausted = true }, w))
  take_item it (x ∷ xs) w = ((some x, nil), (record it { buffer = xs }, w))

  unfoldable pub after_fetch : Tried W A → Stepped W A
  unfolding take_item
  after_fetch ((e, it), w) = if is_nil e then take_item it it.buffer w else ((none, e), (it, w))

  unfoldable pub next_from : Iterator A → List A → W → Stepped W A
  unfolding take_item after_fetch fetch_next_page
  next_from it [] w =
      if it.exhausted then ((none, nil), (it, w)) else after_fetch (fetch_next_page it w)
  next_from it (x ∷ xs) w = take_item it (x ∷ xs) w

  -- Next
  unfoldable pub next : Iterator A → W → Stepped W A
  unfolding next_from
  next it w = next_from it it.buffer w

  -- the loop of Collect, with `out` so far
  unfoldable pub collect_step :
      List A → (List A → Iterator A → W → Collected W A) → Stepped W A → Collected W A
  collect_step out rest ((some x, e), (it, w)) =
      if is_nil e then rest (out ++ x ∷ []) it w else some ((out, e), (it, w))
  collect_step out rest ((none, e), (it, w)) = some ((out, e), (it, w))

  -- Collect, on fuel: one unit for each call of Next
  unfoldable pub collect_from : ℕ → List A → Iterator A → W → Collected W A
  unfolding collect_step next
  collect_from zero out it w = none
  collect_from (suc fuel) out it w = collect_step out (collect_from fuel) (next it w)

  unfoldable pub collect : ℕ → Iterator A → W → Collected W A
  unfolding collect_from
  collect fuel it w = collect_from fuel [] it w
