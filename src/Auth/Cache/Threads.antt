-- ===== src/Auth/Cache/Threads.antt =====
-- auth/token_cache.go: goroutines that call Token and Refresh, and the mutex `mu`. A caller holds
-- the mutex across the fetch; where it needs no fetch it takes and releases it in one step.
use cxone_sdk_golang.Prelude.{
  ℕ, ◌≡◌, Bool, true, false, Option, none, some, arith, if◌then◌else◌, ◌==◌, ==_iff, Bool-cases,
  inl, inr,
}
use cxone_sdk_golang.Auth.Cache.{
  Fetcher, Cached, Grant, new_cached, cached_grant, has_token, is_fresh, store,
}

pub data Op : Type 0 where
  token : Op
  refresh : ℕ → Op

-- where a goroutine stands
pub data Pc : Type 0 where
  idle : Pc
  waiting fetching : Op → Pc
  finished : Grant → Pc

-- the test that an operation makes under the mutex
abbrev pub is_hit : Op → Cached → Bool
is_hit token c = has_token c
is_hit (refresh stale_gen) c = is_fresh c stale_gen

pub record System (W : Type 0) : Type 0 where
  pub cache : Cached
  pub world : W
  pub owner : Option ℕ  -- who holds the mutex
  pub pc : ℕ → Pc

abbrev pub update : (ℕ → Pc) → ℕ → Pc → ℕ → Pc
update pc i p j = if i == j then p else pc j

module _ {W : Type 0} (f : Fetcher W) where
  pub data Step (s t : System W) : Type 0 where
    call :
        (i : ℕ) (op : Op)
        → s.pc i ≡ idle
        → t ≡ record s { pc = update s.pc i (waiting op) }
        → Step s t
    serve :
        (i : ℕ) (op : Op)
        → s.owner ≡ none
        → s.pc i ≡ waiting op
        → is_hit op s.cache ≡ true
        → t ≡ record s { pc = update s.pc i (finished (cached_grant s.cache)) }
        → Step s t
    enter :
        (i : ℕ) (op : Op)
        → s.owner ≡ none
        → s.pc i ≡ waiting op
        → is_hit op s.cache ≡ false
        → t ≡ record s { owner = some i; pc = update s.pc i (fetching op) }
        → Step s t
    leave :
        (i : ℕ) (op : Op)
        → s.pc i ≡ fetching op
        → t ≡ record {
          cache = (store s.cache (f.fetch s.world).0).1;
          world = (f.fetch s.world).1;
          owner = none;
          pc = update s.pc i (finished (store s.cache (f.fetch s.world).0).0);
        }
        → Step s t
    elsewhere : (w : W) → t ≡ record s { world = w } → Step s t

  abbrev pub start : W → System W
  start w = record { cache = new_cached; world = w; owner = none; pc = λ i. idle }

  pub data Reach (w : W) : System W → Type 0 where
    here : Reach w (start w)
    next : {s t : System W} → Reach w s → Step s t → Reach w t

  -- Whoever fetches holds the mutex, and its test fails on the cache as it stands.
  record Inv (s : System W) : Type 0 where
    held : (i : ℕ) (op : Op) → s.pc i ≡ fetching op → s.owner ≡ some i
    needed : (i : ℕ) (op : Op) → s.pc i ≡ fetching op → is_hit op s.cache ≡ false

  Step-Inv : (s t : System W) → Step s t → Inv s → Inv t
  Step-Inv s t (call i op e h) inv = rw h (record {
    held = λ j o q. ground (arith, inv.held j o);
    needed = λ j o q. ground (arith, inv.needed j o);
  })
  Step-Inv s t (serve i op free e hit h) inv = rw h (record {
    held = λ j o q. ground (arith, inv.held j o);
    needed = λ j o q. ground (arith, inv.needed j o);
  })
  Step-Inv s t (enter i op free e miss h) inv = rw h (record {
    held = λ j o q. ground (arith, inv.held j o, ==_iff i j);
    needed = λ j o q. elim (Bool-cases (i == j)) [
      | inl same ↦ let same_op : op ≡ o = ground arith in rw (← same_op) miss
      | inr other ↦ inv.needed j o (ground (arith))
    ];
  })
  Step-Inv s t (leave i op e h) inv = rw h (record {
    held = λ j o q. ground (arith, inv.held j o, inv.held i op e);
    needed = λ j o q. absurd (ground (arith, inv.held j o, inv.held i op e));
  })
  Step-Inv s t (elsewhere w h) inv = rw h (record { held = inv.held; needed = inv.needed })

  Reach-Inv : {w : W} {s : System W} → Reach w s → Inv s
  Reach-Inv here = record { held = λ i op q. cc; needed = λ i op q. absurd (cc) }
  Reach-Inv (next r st) = Step-Inv _ _ st (Reach-Inv r)

  -- In every reachable state at most one goroutine is fetching a token, and its fetch is needed:
  -- the cache holds no token, or none newer than the one that the goroutine saw fail.
  pub one_needed_fetch :
      (w : W) (s : System W)
      → Reach w s
      → (i j : ℕ) (op op' : Op) → s.pc i ≡ fetching op
      → s.pc j ≡ fetching op'
      → (i ≡ j) × (is_hit op s.cache ≡ false)
  one_needed_fetch w s r i j op op' p q =
      let inv = Reach-Inv r in (ground (arith, inv.held i op, inv.held j op'), inv.needed i op p)
