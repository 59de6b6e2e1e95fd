-- ===== src/Auth/Cache.antt =====
-- auth/token_cache.go: the cache of a bearer token. Its methods run under one mutex from end to
-- end, so each is one step; Threads.antt has the mutex and the goroutines.
pub mod Herd
pub mod Threads
use cxone_sdk_golang.Prelude.{
  ℕ, ◌+◌, ◌%◌, Bool, not, ◌&&◌, String, List, [], ◌∷◌, ltb, if◌then◌else◌,
}
use cxone_sdk_golang.Prelude.Text.{str_eq}
use cxone_sdk_golang.Errors.{Error, nil, is_nil}

-- the interface `fetcher`, over a world `W`
pub record Fetcher (W : Type 0) : Type 0 where
  pub fetch : W → (String × Error) × W
  pub close : W → W

pub record Cached : Type 0 where
  pub token : String
  pub gen : ℕ  -- uint64

abbrev pub new_cached : Cached
new_cached = record { token = ""; gen = 0 }

-- what `Token` and `Refresh` return
pub record Grant : Type 0 where
  pub token : String
  pub gen : ℕ
  pub err : Error

abbrev pub u64 : ℕ → ℕ
u64 n = n % 18_446_744_073_709_551_616

-- the cached token, as the two methods return it
abbrev pub cached_grant : Cached → Grant
cached_grant c = record { token = c.token; gen = c.gen; err = nil }

-- the two tests for a token that can be used
unfoldable pub has_token : Cached → Bool
has_token c = not (str_eq c.token "")

unfoldable pub is_fresh : Cached → ℕ → Bool
unfolding has_token
is_fresh c stale_gen = has_token c && ltb stale_gen c.gen

-- the part of fetchLocked after the call of the fetcher
unfoldable pub store : Cached → String × Error → Grant × Cached
store c (tok, err) =
    if is_nil err
    then (let c' : Cached = record { token = tok; gen = u64 (c.gen + 1) } in (cached_grant c', c'))
    else (record { token = ""; gen = 0; err = err }, c)

module _ {W : Type 0} (f : Fetcher W) where
  abbrev beside : Grant × Cached → W → Grant × Cached × W
  beside (g, c) w = (g, c, w)

  unfoldable pub fetch_locked : Cached → W → Grant × Cached × W
  unfolding store
  fetch_locked c w = let (r, w') = f.fetch w in beside (store c r) w'

  -- Token
  unfoldable pub token : Cached → W → Grant × Cached × W
  unfolding fetch_locked has_token
  token c w = if has_token c then (cached_grant c, c, w) else fetch_locked c w

  -- Refresh
  unfoldable pub refresh : ℕ → Cached → W → Grant × Cached × W
  unfolding fetch_locked is_fresh
  refresh stale_gen c w = if is_fresh c stale_gen then (cached_grant c, c, w) else fetch_locked c w

  -- Close
  unfoldable pub close : Cached → W → Cached × W
  close c w = (record c { token = "" }, f.close w)

  -- Callers that come to the mutex one after another, each with its stale generation.
  unfoldable pub refresh_all : List ℕ → Cached → W → List Grant × Cached × W
  unfolding refresh
  refresh_all [] c w = ([], c, w)
  refresh_all (g ∷ gs) c w =
      let (grant, c', w') = refresh g c w in
      let (grants, c'', w'') = refresh_all gs c' w' in (grant ∷ grants, c'', w'')
