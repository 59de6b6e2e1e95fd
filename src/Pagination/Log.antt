-- ===== src/Pagination/Log.antt =====
-- pagination/iterator.go: the log of the fetches that an iterator makes, the newest first, kept
-- beside the world.
use cxone_sdk_golang.Prelude.{
  ℕ, zero, suc, ◌≡◌, refl, inl, inr, Bool-cases, true, false, List, [], ◌∷◌, ◌++◌, if◌then◌else◌,
}
use cxone_sdk_golang.Prelude.Int.{ℤ, pos, wrap_int, ◌+ℤ◌}
use cxone_sdk_golang.Context.{Context}
use cxone_sdk_golang.Errors.{Error, nil, is_nil}
use cxone_sdk_golang.Pagination.{PageFetcher, Config, Iterator, advance_offset, Tried}

-- a call of the fetcher, and what it returned
pub record Fetch (A : Type 0) : Type 0 where
  pub offset : ℤ
  pub limit : ℤ
  pub items : List A
  pub error : Error

pub record Logged (W A : Type 0) : Type 0 where
  pub world : W
  pub log : List (Fetch A)

module _ {W A : Type 0} where
  abbrev beside : {B : Type 0} → List (Fetch A) → B × W → B × Logged W A
  beside log (b, w) = (b, record { world = w; log = log })

  abbrev pub logged_context : Context W → Context (Logged W A)
  logged_context ctx = record {
    err = λ s. beside s.log (ctx.err s.world);
    wait = λ d s. beside s.log (ctx.wait d s.world);
  }

  abbrev noted : ℤ → ℤ → List (Fetch A) → (List A × Error) × W → (List A × Error) × Logged W A
  noted offset limit log ((items, e), w) = (
    (items, e),
    record {
      world = w;
      log = record { offset = offset; limit = limit; items = items; error = e } ∷ log;
    },
  )

  abbrev pub logged : PageFetcher W A → PageFetcher (Logged W A) A
  logged fetch offset limit s = noted offset limit s.log (fetch offset limit s.world)

module _ {A : Type 0} where
  -- the items of the fetches that succeeded, in the order of time
  abbrev pub served : List (Fetch A) → List A
  served [] = []
  served (f ∷ fs) = if is_nil f.error then served fs ++ f.items else served fs

  abbrev pub pages : List (Fetch A) → ℕ
  pages [] = 0
  pages (f ∷ fs) = if is_nil f.error then suc (pages fs) else pages fs

  -- the log ends with an empty page
  abbrev pub EndsEmpty : List (Fetch A) → Type 0
  EndsEmpty [] = ⊥
  EndsEmpty (f ∷ fs) = (f.error ≡ nil) × (f.items ≡ [])

-- what lies between the offsets of two pages: the size of a page, or one page
abbrev pub stride : Config → ℤ
stride cfg = if cfg.offset_is_by_count then cfg.page_size else pos 1

-- the offset of page `n`: the first, moved on `n` times by the stride, as Go's `int` adds
unfoldable pub offset_at : Config → ℕ → ℤ
offset_at cfg zero = cfg.offset_init_value
offset_at cfg (suc n) = wrap_int (offset_at cfg n +ℤ stride cfg)

advance_offset-stride : (cfg : Config) (o : ℤ) → advance_offset cfg o ≡ wrap_int (o +ℤ stride cfg)
unfolding advance_offset
advance_offset-stride cfg o = elim (Bool-cases cfg.offset_is_by_count) [
  | inl counted ↦ rw counted refl
  | inr numbered ↦ rw numbered refl
]

-- Moving the offset of a page on gives the offset of the next one.
pub advance_offset-offset_at :
    (cfg : Config) (n : ℕ) → advance_offset cfg (offset_at cfg n) ≡ offset_at cfg (suc n)
unfolding offset_at
advance_offset-offset_at cfg n = advance_offset-stride cfg (offset_at cfg n)

-- Each fetch asks for one page, and for the one after the pages that were served before it.
abbrev pub InOrder : {A : Type 0} → Config → List (Fetch A) → Type 0
InOrder cfg [] = Unit
InOrder cfg (f ∷ fs) =
    (f.offset ≡ offset_at cfg (pages fs)) × (f.limit ≡ cfg.page_size) × InOrder cfg fs

-- `G m items` holds for page `m` whenever it was served.
abbrev pub Pages : {A : Type 0} → (ℕ → List A → Type 0) → List (Fetch A) → Type 0
Pages G [] = Unit
Pages G (f ∷ fs) = (is_nil f.error ≡ true → G (pages fs) f.items) × Pages G fs

-- The last fetch succeeded, with these items.
abbrev pub Newest : {A : Type 0} → List A → List (Fetch A) → Type 0
Newest items [] = ⊥
Newest items (f ∷ fs) = (is_nil f.error ≡ true) × (f.items ≡ items)

module _ {A : Type 0} (cfg : Config) (G : ℕ → List A → Type 0) where
  -- the iterator between two steps, when `out` was handed out
  pub record Tracked (out : List A) (it : Iterator A) (log : List (Fetch A)) : Type 0 where
    pub items : out ++ it.buffer ≡ served log
    pub offset : it.offset ≡ offset_at cfg (pages log)
    pub in_order : InOrder cfg log
    pub good : Pages G log
    pub unended : it.exhausted ≡ false

  -- what a fetch of a page leaves when `out` was handed out
  pub record Fetched {W : Type 0} (p : ℕ) (out : List A) (r : Tried (Logged W A) A) : Type 0 where
    pub tracked : Tracked out r.0.1 r.1.log
    pub newest : is_nil r.0.0 ≡ true → Newest r.0.1.buffer r.1.log
    pub counted : is_nil r.0.0 ≡ true → pages r.1.log ≡ suc p
    pub unread : is_nil r.0.0 ≡ false → r.0.1.buffer ≡ []
