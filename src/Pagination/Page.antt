-- ===== src/Pagination/Page.antt =====
-- pagination/iterator.go: what fetchNextPage leaves, told from the log of the fetches.
use cxone_sdk_golang.Prelude.{
  if_false, ℕ, zero, suc, ◌≤◌, ◌≡◌, refl, ap, sym, subst, ◌∙◌, ◌⊎◌, inl, inr, Bool, true, false,
  List, [], ◌∷◌, ◌++◌, ◌==◌, arith, Bool-cases,
}
use mathlib.Core.List.{append-nil}
use cxone_sdk_golang.Prelude.Int.{pos_part}
use cxone_sdk_golang.Context.{Context, sleep, sleep-keeps}
use cxone_sdk_golang.Errors.{Error, nil, is_nil, is_cancellation}
use cxone_sdk_golang.Pagination.{
  PageFetcher, Config, Iterator, advance_offset, max_attempts, is_refused, Tried, rest_if_awake,
  answered, try_once, tries, fetch_next_page,
}
use cxone_sdk_golang.Pagination.Log.{
  Fetch, Logged, logged, logged_context, pages, offset_at, advance_offset-offset_at, Tracked,
  Fetched,
}

module _ {W A : Type 0} (ctx : Context W) (cfg : Config) (fetch : PageFetcher W A)
    (G : ℕ → List A → Type 0)
    (serves : (m : ℕ) (w : W)
      → is_nil (fetch (offset_at cfg m) cfg.page_size w).0.1 ≡ true
      → G m (fetch (offset_at cfg m) cfg.page_size w).0.0) where
  -- the buffer is empty
  abbrev pub Drained : ℕ → List A → Iterator A → List (Fetch A) → Type 0
  Drained p out it log = Tracked cfg G out it log × (it.buffer ≡ []) × (pages log ≡ p)

  stopped-Fetched :
      (p : ℕ) (out : List A) (it : Iterator A) (e : Error) (s : Logged W A)
      → is_nil e ≡ false
      → Drained p out it s.log
      → Fetched cfg G p out ((e, it), s)
  stopped-Fetched p out it e s bad h = record {
    tracked = h.0;
    newest = λ q. absurd (cc);
    counted = λ q. absurd (cc);
    unread = λ q. h.1;
  }

  rest_if_awake-Fetched :
      (p : ℕ) (out : List A) (it : Iterator A) (rest : Logged W A → Tried (Logged W A) A)
      (r : Error × Logged W A)
      → ((s : Logged W A) → Drained p out it s.log → Fetched cfg G p out (rest s))
      → Drained p out it r.1.log
      → Fetched cfg G p out (rest_if_awake (logged_context ctx) cfg (logged fetch) it rest r)
  unfolding rest_if_awake
  rest_if_awake-Fetched p out it rest (e, s) goes_on h = elim (Bool-cases (is_nil e)) [
    | inl woke ↦ rw woke (goes_on s h)
    | inr cut ↦ rw cut (stopped-Fetched p out it e s cut h)
  ]

  -- the log after a fetch of the iterator's page
  abbrev grown : Iterator A → List (Fetch A) → List A → Error → List (Fetch A)
  grown it log items e =
      record { offset = it.offset; limit = cfg.page_size; items = items; error = e } ∷ log

  failed-Drained :
      (p : ℕ) (out : List A) (it : Iterator A) (items : List A) (e : Error) (w : W) (s : Logged W A)
      → is_nil e ≡ false
      → Drained p out it s.log
      → Drained p out it (grown it s.log items e)
  failed-Drained p out it items e w s bad (h, empty, same) = (
    record {
      items = rw bad h.items;
      offset = rw bad h.offset;
      in_order = (h.offset, refl, h.in_order);
      good = ((λ q. absurd (cc)), h.good);
      unended = h.unended;
    },
    empty,
    rw bad same,
  )

  served-Fetched :
      (p : ℕ) (out : List A) (it : Iterator A) (items : List A) (e : Error) (w : W) (s : Logged W A)
      → is_nil e ≡ true
      → G (pages s.log) items
      → Drained p out it s.log
      → Fetched cfg G p out (
        (nil, record it { buffer = items; offset = advance_offset cfg it.offset }),
        record { world = w; log = grown it s.log items e },
      )
  served-Fetched p out it items e w s ok g (h, empty, same) = record {
    tracked = record {
      items = rw ok (ap (λ xs. xs ++ items) (sym (append-nil out) ∙ rw empty at h.items));
      offset =
          rw ok (ap (advance_offset cfg) h.offset ∙ advance_offset-offset_at cfg (pages s.log));
      in_order = (h.offset, refl, h.in_order);
      good = (λ q. g, h.good);
      unended = h.unended;
    };
    newest = λ q. (ok, refl);
    unread = λ q. absurd (cc);
    counted = λ q. rw ok (ap suc same);
  }

  answered-Fetched :
      (is_last : Bool) (p : ℕ) (out : List A) (it : Iterator A)
      (rest : Error → Logged W A → Tried (Logged W A) A) (items : List A) (e : Error) (w : W)
      (s : Logged W A)
      → (is_nil e ≡ true → G (pages s.log) items)
      → ((t : Logged W A)
          → is_nil e ≡ false
          → Drained p out it t.log
          → Fetched cfg G p out (rest e t))
      → Drained p out it s.log
      → Fetched cfg G p out (
          answered
            (logged_context ctx)
            cfg
            (logged fetch)
            is_last
            it
            rest
            ((items, e), record { world = w; log = grown it s.log items e }))
  unfolding answered
  answered-Fetched is_last p out it rest items e w s g goes_on h = elim (Bool-cases (is_nil e)) [
    | inl ok ↦ rw ok (served-Fetched p out it items e w s ok (g ok) h)
    | inr bad ↦
        let t : Logged W A = record { world = w; log = grown it s.log items e } in
        let kept = failed-Drained p out it items e w s bad h in
        let stop = stopped-Fetched p out it e t bad kept in
        elim (Bool-cases (is_cancellation e)) [
          | inl over ↦ rw (bad, over) stop
          | inr going ↦ elim (Bool-cases (is_refused cfg.retryable e)) [
            | inl refused ↦ rw (bad, going, refused) stop
            | inr retried ↦ elim (Bool-cases is_last) [
              | inl last ↦ rw (bad, going, retried, last) stop
              | inr more ↦
                  rw (bad, going, retried, more)
                    (rest_if_awake-Fetched p out it (rest e)
                      (sleep (logged_context ctx) cfg.page_retry_delay t) (λ t' k. goes_on t' bad k)
                      (sleep-keeps (logged_context ctx) (λ u. Drained p out it u.log) (λ u k. k)
                        (λ d u k. k) cfg.page_retry_delay t kept))
            ]
          ]
        ]
  ]

  serves_at :
      {p : ℕ} {out : List A} {it : Iterator A} (s : Logged W A)
      → Drained p out it s.log
      → is_nil (fetch it.offset cfg.page_size s.world).0.1 ≡ true
      → G (pages s.log) (fetch it.offset cfg.page_size s.world).0.0
  serves_at {p} {out} {it} s (h, empty, same) =
      subst
        (λ o.
          is_nil (fetch o cfg.page_size s.world).0.1 ≡ true
          → G (pages s.log) (fetch o cfg.page_size s.world).0.0)
        (sym h.offset) (serves (pages s.log) s.world)

  tries-Fetched :
      (left : ℕ) (p : ℕ) (out : List A) (it : Iterator A) (last : Error) (s : Logged W A)
      → (1 ≤ left) ⊎ (is_nil last ≡ false)
      → Drained p out it s.log
      → Fetched cfg G p out (tries (logged_context ctx) cfg (logged fetch) left it last s)
  unfolding tries try_once
  tries-Fetched zero p out it last s (inl few) h = absurd (omega arith)
  tries-Fetched zero p out it last s (inr bad) h = stopped-Fetched p out it last s bad h
  tries-Fetched (suc left) p out it last s enough h =
      elim (Bool-cases (is_nil (ctx.err s.world).0)) [
        | inr cut ↦ rw cut (stopped-Fetched p out it _ _ cut h)
        | inl live ↦ rw live (
            answered-Fetched (left == 0) p out it
              (tries (logged_context ctx) cfg (logged fetch) left it) _ _ _
              (record { world = (ctx.err s.world).1; log = s.log })
              (serves_at (record { world = (ctx.err s.world).1; log = s.log }) h)
              (λ t bad k. tries-Fetched left p out it _ t (inr bad) k) h)
      ]

  -- at least one attempt is made
  pub fetch_next_page-Fetched :
      (p : ℕ) (out : List A) (it : Iterator A) (s : Logged W A)
      → 1 ≤ pos_part (max_attempts cfg)
      → Drained p out it s.log
      → Fetched cfg G p out (fetch_next_page (logged_context ctx) cfg (logged fetch) it s)
  unfolding fetch_next_page
  fetch_next_page-Fetched p out it s some_left h =
      subst {A = Tried (Logged W A) A} (λ r. Fetched cfg G p out r)
        (sym (if_false it.exhausted _ _ h.0.unended))
        (tries-Fetched (pos_part (max_attempts cfg)) p out it nil s (inl some_left) h)
