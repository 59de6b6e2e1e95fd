-- ===== src/Pagination/Finite.antt =====
-- pagination/iterator.go: Collect comes to an end when the pages do.
use cxone_sdk_golang.Prelude.{
  if_false, sym, ap, subst, ℕ, zero, suc, ◌+◌, ◌*◌, ◌<◌, ◌≤◌, ◌≡◌, refl, inl, inr, true, none, some,
  List, [], ◌∷◌, ◌++◌, arith, length, Bool-cases,
}
use cxone_sdk_golang.Prelude.Int.{pos_part}
use cxone_sdk_golang.Context.{Context}
use cxone_sdk_golang.Errors.{is_nil}
use cxone_sdk_golang.Pagination.{
  PageFetcher, Config, Iterator, new_iterator, with_defaults, max_attempts, Tried, Stepped,
  Collected, take_item, after_fetch, next_from, next, collect_step, collect_from, collect,
}
use cxone_sdk_golang.Pagination.Log.{
  Fetch, Logged, logged, logged_context, pages, offset_at, Pages, Newest, Tracked, Fetched,
}
use cxone_sdk_golang.Pagination.Page.{fetch_next_page-Fetched}
use cxone_sdk_golang.Pagination.Walk.{
  Went, next-Went, Explained, collect_from-Explained, new_iterator-Tracked,
}

-- A page has at most `most` items, and page `n` none.
abbrev pub Bounded : {A : Type 0} → ℕ → ℕ → ℕ → List A → Type 0
Bounded n most m items = (length items ≤ most) × (m ≡ n → items ≡ [])

-- Collect came to a result.
abbrev pub Done : {W A : Type 0} → Collected W A → Type 0
Done none = ⊥
Done (some r) = Unit

module _ {W A : Type 0} (ctx : Context W) (cfg : Config) (fetch : PageFetcher W A) (n most : ℕ)
    (serves : (m : ℕ) (w : W)
      → is_nil (fetch (offset_at cfg m) cfg.page_size w).0.1 ≡ true
      → Bounded n most m (fetch (offset_at cfg m) cfg.page_size w).0.0)
    (some_left : 1 ≤ pos_part (max_attempts cfg)) where
  -- `b` bounds the calls of Next that give an item from here on
  abbrev Left : ℕ → Iterator A → List (Fetch A) → Type 0
  Left b it log = (k : ℕ) × (n ≡ k + pages log) × (length it.buffer + k * most ≤ b)

  -- an item was taken off the bound
  abbrev Sunk : ℕ → Stepped (Logged W A) A → Type 0
  Sunk b ((some x, e), (it, s)) = (c : ℕ) × (c < b) × Left c it s.log
  Sunk b ((none, e), (it, s)) = Unit

  take_item-Sunk :
      (b : ℕ) (it : Iterator A) (xs : List A) (s : Logged W A)
      → it.buffer ≡ xs
      → Left b it s.log
      → Sunk b (take_item (logged_context ctx) cfg (logged fetch) it xs s)
  unfolding take_item
  take_item-Sunk b it [] s q h = tt
  take_item-Sunk b it (x ∷ xs) s q (k, le, fits) =
      (length xs + k * most, omega (arith, ap length q), (k, le, omega arith))

  Newest-Bounded :
      (p : ℕ) (items : List A) (log : List (Fetch A))
      → Newest items log
      → pages log ≡ suc p
      → Pages (Bounded n most) log
      → Bounded n most p items
  Newest-Bounded p items [] h q g = absurd h
  Newest-Bounded p items (f ∷ log) (ok, same) q g =
      let count : pages log ≡ p = omega (arith, rw ok at q) in rw (← same, ← count) (g.0 ok)

  served_page-Sunk :
      (b p : ℕ) (it : Iterator A) (xs : List A) (s : Logged W A)
      → it.buffer ≡ xs
      → (k : ℕ) × (n ≡ k + p) × (k * most ≤ b)
      → pages s.log ≡ suc p
      → Bounded n most p xs
      → Sunk b (take_item (logged_context ctx) cfg (logged fetch) it xs s)
  unfolding take_item
  served_page-Sunk b p it [] s q h c g = tt
  served_page-Sunk b p it (x ∷ xs) s q (zero, le, fits) c (small, end) = absurd (grind (arith, end))
  served_page-Sunk b p it (x ∷ xs) s q (suc k, le, fits) c (small, end) =
      take_item-Sunk b it (x ∷ xs) s q (k, omega arith, rw q (omega arith))

  after_fetch-Sunk :
      (b p : ℕ) (out : List A) (r : Tried (Logged W A) A)
      → (k : ℕ) × (n ≡ k + p) × (k * most ≤ b)
      → Fetched cfg (Bounded n most) p out r
      → Sunk b (after_fetch (logged_context ctx) cfg (logged fetch) r)
  unfolding after_fetch
  after_fetch-Sunk b p out ((e, it), s) h f = elim (Bool-cases (is_nil e)) [
    | inr bad ↦ rw bad tt
    | inl ok ↦ rw ok (
        served_page-Sunk b p it it.buffer s refl h (f.counted ok)
          (Newest-Bounded p it.buffer s.log (f.newest ok) (f.counted ok) f.tracked.good))
  ]

  next_from-Sunk :
      (b : ℕ) (out : List A) (it : Iterator A) (xs : List A) (s : Logged W A)
      → it.buffer ≡ xs
      → Tracked cfg (Bounded n most) out it s.log
      → Left b it s.log
      → Sunk b (next_from (logged_context ctx) cfg (logged fetch) it xs s)
  unfolding next_from
  next_from-Sunk b out it [] s q t (k, le, fits) =
      subst {A = Stepped (Logged W A) A} (λ r. Sunk b r) (sym (if_false it.exhausted _ _ t.unended))
        (after_fetch-Sunk b (pages s.log) out _ (k, le, omega arith)
          (fetch_next_page-Fetched ctx cfg fetch (Bounded n most) serves (pages s.log) out it s
            some_left (t, q, refl)))
  next_from-Sunk b out it (x ∷ xs) s q t h = take_item-Sunk b it (x ∷ xs) s q h

  collect_step-Done :
      (b : ℕ) (out : List A) (rest : List A → Iterator A → Logged W A → Collected (Logged W A) A)
      (r : Stepped (Logged W A) A)
      → ((c : ℕ) (out : List A) (it : Iterator A) (s : Logged W A)
          → c < b
          → Tracked cfg (Bounded n most) out it s.log
          → Left c it s.log
          → Done (rest out it s))
      → Went cfg (Bounded n most) out r
      → Sunk b r
      → Done (collect_step (logged_context ctx) cfg (logged fetch) out rest r)
  unfolding collect_step
  collect_step-Done b out rest ((some x, e), (it, s)) goes_on h (c, lt, l) =
      rw h.0 (goes_on c (out ++ x ∷ []) it s lt h.1 l)
  collect_step-Done b out rest ((none, e), (it, s)) goes_on h l = tt

  collect_from-Done :
      (fuel b : ℕ) (out : List A) (it : Iterator A) (s : Logged W A)
      → b < fuel
      → Tracked cfg (Bounded n most) out it s.log
      → Left b it s.log
      → Done (collect_from (logged_context ctx) cfg (logged fetch) fuel out it s)
  unfolding collect_from next
  collect_from-Done zero b out it s lt t l = absurd (omega arith)
  collect_from-Done (suc fuel) b out it s lt t l =
      collect_step-Done b out (collect_from (logged_context ctx) cfg (logged fetch) fuel) _
        (λ c out' it' s' less t' l'. collect_from-Done fuel c out' it' s' (omega arith) t' l')
        (next-Went ctx cfg fetch (Bounded n most) serves some_left out it s t)
        (next_from-Sunk b out it it.buffer s refl t l)

-- If each page has at most `most` items whenever it is served, and page `n` none, and the number of
-- retries allows an attempt, then Collect ends within `n * most + 1` calls of Next. What it returns
-- are the items that the fetches served, in their order, and without an error the last page was
-- empty. Each fetch asked for as many items as a page has, at the first offset moved on, once for
-- each page served before, by the size of a page where offsets count items, and else by one.
pub collect-ends :
    {W A : Type 0} (ctx : Context W) (c : Config) (fetch : PageFetcher W A) (n most fuel : ℕ)
    (w : W)
    → ((m : ℕ) (w : W)
        → is_nil (fetch (offset_at (with_defaults c) m) (with_defaults c).page_size w).0.1 ≡ true
        → Bounded n most m
            (fetch (offset_at (with_defaults c) m) (with_defaults c).page_size w).0.0)
    → 1 ≤ pos_part (max_attempts (with_defaults c))
    → n * most < fuel
    → Done (
        collect
          (logged_context ctx)
          (with_defaults c)
          (logged fetch)
          fuel
          (new_iterator c)
          (record { world = w; log = [] }))
      × Explained (with_defaults c) (
          collect
            (logged_context ctx)
            (with_defaults c)
            (logged fetch)
            fuel
            (new_iterator c)
            (record { world = w; log = [] }))
unfolding collect new_iterator
collect-ends ctx c fetch n most fuel w serves some_left enough =
    let start = new_iterator-Tracked c (Bounded n most) in
    (
      collect_from-Done ctx (with_defaults c) fetch n most serves some_left fuel (n * most) []
          (new_iterator c) (record { world = w; log = [] }) enough start
          (n, omega arith, omega arith),
      collect_from-Explained ctx (with_defaults c) fetch (Bounded n most) serves some_left fuel []
          (new_iterator c) (record { world = w; log = [] }) start,
    )
