-- ===== src/Pagination/Walk.antt =====
-- pagination/iterator.go: what Collect hands out, told from the log of the fetches.
use mathlib.Core.List.{append-nil, append_assoc}
use cxone_sdk_golang.Prelude.{
  if_false, sym, ap, subst, ◌∙◌, ℕ, zero, suc, ◌≤◌, ◌≡◌, refl, inl, inr, true, none, some, List, [],
  ◌∷◌, ◌++◌, arith, Bool-cases,
}
use cxone_sdk_golang.Prelude.Int.{pos_part}
use cxone_sdk_golang.Context.{Context}
use cxone_sdk_golang.Errors.{Error, nil, is_nil}
use cxone_sdk_golang.Pagination.{
  PageFetcher, Config, Iterator, new_iterator, with_defaults, max_attempts, Tried, Stepped,
  Collected, take_item, after_fetch, next_from, next, collect_step, collect_from, collect,
}
use cxone_sdk_golang.Pagination.Log.{
  Fetch, Logged, logged, logged_context, served, pages, offset_at, InOrder, Newest, Tracked,
  Fetched,
}
use cxone_sdk_golang.Pagination.Page.{fetch_next_page-Fetched}

-- What was handed out is what was served, and without an error the last page was empty.
pub record Walked {A : Type 0} (cfg : Config) (out : List A) (e : Error) (log : List (Fetch A))
    : Type 0 where
  pub items : out ≡ served log
  pub in_order : InOrder cfg log
  pub at_end : is_nil e ≡ true → Newest [] log

-- no result, or one that is explained
abbrev pub Explained : {W A : Type 0} → Config → Collected (Logged W A) A → Type 0
Explained cfg none = Unit
Explained cfg (some ((out, e), (it, s))) = Walked cfg out e s.log

module _ {W A : Type 0} (cfg : Config) (G : ℕ → List A → Type 0) where
  -- after a call of Next that began with `out` handed out
  abbrev pub Went : List A → Stepped (Logged W A) A → Type 0
  Went out ((some x, e), (it, s)) = (e ≡ nil) × Tracked cfg G (out ++ x ∷ []) it s.log
  Went out ((none, e), (it, s)) = Walked cfg out e s.log

module _ {W A : Type 0} (ctx : Context W) (cfg : Config) (fetch : PageFetcher W A)
    (G : ℕ → List A → Type 0)
    (serves : (m : ℕ) (w : W)
      → is_nil (fetch (offset_at cfg m) cfg.page_size w).0.1 ≡ true
      → G m (fetch (offset_at cfg m) cfg.page_size w).0.0)
    (some_left : 1 ≤ pos_part (max_attempts cfg)) where
  take_item-Went :
      (out : List A) (it : Iterator A) (xs : List A) (s : Logged W A)
      → it.buffer ≡ xs
      → (xs ≡ [] → Newest [] s.log)
      → Tracked cfg G out it s.log
      → Went cfg G out (take_item (logged_context ctx) cfg (logged fetch) it xs s)
  unfolding take_item
  take_item-Went out it [] s b at_end h = record {
    items = sym (append-nil out) ∙ ap (λ r. out ++ r) (sym b) ∙ h.items;
    in_order = h.in_order;
    at_end = λ q. at_end refl;
  }
  take_item-Went out it (x ∷ xs) s b at_end h = (
    refl,
    record {
      items = append_assoc out (x ∷ []) xs ∙ ap (λ r. out ++ r) (sym b) ∙ h.items;
      offset = h.offset;
      in_order = h.in_order;
      good = h.good;
      unended = h.unended;
    },
  )

  after_fetch-Went :
      (out : List A) (r : Tried (Logged W A) A)
      → {p : ℕ} → Fetched cfg G p out r
      → Went cfg G out (after_fetch (logged_context ctx) cfg (logged fetch) r)
  unfolding after_fetch
  after_fetch-Went out ((e, it), s) h = elim (Bool-cases (is_nil e)) [
    | inl ok ↦ rw ok (
        take_item-Went out it it.buffer s refl (λ q. subst (λ b. Newest b s.log) q (h.newest ok))
          h.tracked)
    | inr bad ↦ rw bad (record {
      items = sym (append-nil out) ∙ ap (λ r. out ++ r) (sym (h.unread bad)) ∙ h.tracked.items;
      in_order = h.tracked.in_order;
      at_end = λ q. absurd (cc);
    })
  ]

  next_from-Went :
      (out : List A) (it : Iterator A) (xs : List A) (s : Logged W A)
      → it.buffer ≡ xs
      → Tracked cfg G out it s.log
      → Went cfg G out (next_from (logged_context ctx) cfg (logged fetch) it xs s)
  unfolding next_from
  next_from-Went out it [] s b h =
      subst {A = Stepped (Logged W A) A} (λ r. Went cfg G out r)
        (sym (if_false it.exhausted _ _ h.unended))
        (after_fetch-Went out _ (
          fetch_next_page-Fetched ctx cfg fetch G serves (pages s.log) out it s some_left
            (h, b, refl)))
  next_from-Went out it (x ∷ xs) s b h =
      take_item-Went out it (x ∷ xs) s b (λ q. absurd (ground arith)) h

  pub next-Went :
      (out : List A) (it : Iterator A) (s : Logged W A)
      → Tracked cfg G out it s.log
      → Went cfg G out (next (logged_context ctx) cfg (logged fetch) it s)
  unfolding next
  next-Went out it s h = next_from-Went out it it.buffer s refl h

  collect_step-Explained :
      (out : List A) (rest : List A → Iterator A → Logged W A → Collected (Logged W A) A)
      (r : Stepped (Logged W A) A)
      → ((out : List A) (it : Iterator A) (s : Logged W A)
          → Tracked cfg G out it s.log
          → Explained cfg (rest out it s))
      → Went cfg G out r
      → Explained cfg (collect_step (logged_context ctx) cfg (logged fetch) out rest r)
  unfolding collect_step
  collect_step-Explained out rest ((some x, e), (it, s)) goes_on h =
      rw h.0 (goes_on (out ++ x ∷ []) it s h.1)
  collect_step-Explained out rest ((none, e), (it, s)) goes_on h = h

  pub collect_from-Explained :
      (fuel : ℕ) (out : List A) (it : Iterator A) (s : Logged W A)
      → Tracked cfg G out it s.log
      → Explained cfg (collect_from (logged_context ctx) cfg (logged fetch) fuel out it s)
  unfolding collect_from
  collect_from-Explained zero out it s h = tt
  collect_from-Explained (suc fuel) out it s h =
      collect_step-Explained out (collect_from (logged_context ctx) cfg (logged fetch) fuel) _
        (collect_from-Explained fuel) (next-Went out it s h)

pub new_iterator-Tracked :
    {A : Type 0} (c : Config) (G : ℕ → List A → Type 0)
    → Tracked (with_defaults c) G [] (new_iterator c) []
unfolding new_iterator offset_at
new_iterator-Tracked c G = record {
  items = refl;
  offset = refl;
  in_order = tt;
  good = tt;
  unended = refl;
}

-- For every context and fetcher, and a number of retries that allows an attempt: whenever Collect
-- returns, what it returns are the items that the fetches served, in their order, and without an
-- error the last page was empty. Each fetch asked for as many items as a page has, at the first
-- offset moved on, once for each page served before, by the size of a page where offsets count
-- items, and else by one.
pub collect-items :
    {W A : Type 0} (ctx : Context W) (c : Config) (fetch : PageFetcher W A) (fuel : ℕ) (w : W)
    → 1 ≤ pos_part (max_attempts (with_defaults c))
    → Explained (with_defaults c) (
        collect
          (logged_context ctx)
          (with_defaults c)
          (logged fetch)
          fuel
          (new_iterator c)
          (record { world = w; log = [] }))
unfolding collect
collect-items ctx c fetch fuel w some_left =
    collect_from-Explained ctx (with_defaults c) fetch (λ m items. Unit) (λ m w q. tt) some_left
      fuel [] (new_iterator c) (record { world = w; log = [] })
      (new_iterator-Tracked c (λ m items. Unit))
