-- ===== src/Auth/Cache/Herd.antt =====
-- auth/token_cache.go: many callers that saw the same generation fail cause one fetch.
use cxone_sdk_golang.Prelude.{
  ℕ, ◌+◌, ◌≤◌, ◌<◌, ◌≡◌, ◌≢◌, refl, true, false, String, List, [], ◌∷◌, All, arith, eq_iff, map,
}
use cxone_sdk_golang.Errors.{nil}
use cxone_sdk_golang.Auth.Cache.{
  Fetcher, Cached, cached_grant, u64, is_fresh, token, refresh, close, refresh_all,
}

is_fresh_of_lt : (c : Cached) (g : ℕ) → c.token ≢ "" → g < c.gen → is_fresh c g ≡ true
unfolding is_fresh
is_fresh_of_lt c g held older = ground (arith, eq_iff c.token "")

not-is_fresh_of_le : (c : Cached) (g : ℕ) → c.gen ≤ g → is_fresh c g ≡ false
unfolding is_fresh
not-is_fresh_of_le c g current = ground arith

module _ {W : Type 0} (f : Fetcher W) where
  refresh_hit :
      (g : ℕ) (c : Cached) (w : W) → is_fresh c g ≡ true → refresh f g c w ≡ (cached_grant c, c, w)
  unfolding refresh
  refresh_hit g c w h = rw h

  refresh_miss :
      (g : ℕ) (c : Cached) (w : W) (tok : String)
      → c.gen + 1 < 18_446_744_073_709_551_616
      → is_fresh c g ≡ false
      → (f.fetch w).0 ≡ (tok, nil)
      → refresh f g c w ≡ (
        record { token = tok; gen = c.gen + 1; err = nil },
        record { token = tok; gen = c.gen + 1 },
        (f.fetch w).1,
      )
  unfolding refresh
  refresh_miss g c w tok fits stale fetched =
      let no_wrap : u64 (c.gen + 1) ≡ c.gen + 1 = omega arith in rw (stale, fetched, no_wrap)

  -- Callers whose generations are all older than the cached token's get that token, and nothing is
  -- fetched.
  pub refresh_all_fresh :
      (gs : List ℕ) (c : Cached) (w : W)
      → c.token ≢ ""
      → All (λ g. g < c.gen) gs
      → refresh_all f gs c w ≡ (map (λ g. cached_grant c) gs, c, w)
  unfolding refresh_all is_fresh
  refresh_all_fresh [] c w held older = refl
  refresh_all_fresh (g ∷ gs) c w held older =
      rw (refresh_hit g c w (is_fresh_of_lt c g held older.0))
        (rw (refresh_all_fresh gs c w held older.1))

  -- A herd: every caller saw the generation that is still cached, or an older one. The first fetches
  -- a token; if that succeeds, all of them return the token with the next generation, and the
  -- world has seen one fetch.
  pub refresh_all_herd :
      (g : ℕ) (gs : List ℕ) (c : Cached) (w : W) (tok : String)
      → c.gen + 1 < 18_446_744_073_709_551_616
      → All (λ h. h ≤ c.gen) (g ∷ gs)
      → c.gen ≤ g
      → (f.fetch w).0 ≡ (tok, nil)
      → tok ≢ ""
      → refresh_all f (g ∷ gs) c w ≡ (
        map (λ h. record { token = tok; gen = c.gen + 1; err = nil }) (g ∷ gs),
        record { token = tok; gen = c.gen + 1 },
        (f.fetch w).1,
      )
  unfolding refresh_all
  refresh_all_herd g gs c w tok fits seen current fetched valid =
      rw (refresh_miss g c w tok fits (not-is_fresh_of_le c g current) fetched) (
        rw (
          refresh_all_fresh gs (record { token = tok; gen = c.gen + 1 }) (f.fetch w).1 valid
            (older gs seen.1)))
    where
      older : (hs : List ℕ) → All (λ h. h ≤ c.gen) hs → All (λ h. h < c.gen + 1) hs
      older [] h = tt
      older (x ∷ xs) h = (omega arith, older xs h.1)

  -- After Close, Token asks the fetcher again, and a token that it then gets is cached and returned
  -- without an error.
  pub token-close :
      (c : Cached) (w : W) (tok : String)
      → c.gen + 1 < 18_446_744_073_709_551_616
      → (f.fetch (close f c w).1).0 ≡ (tok, nil)
      → token f (close f c w).0 (close f c w).1 ≡ (
        record { token = tok; gen = c.gen + 1; err = nil },
        record { token = tok; gen = c.gen + 1 },
        (f.fetch (close f c w).1).1,
      )
  unfolding token close
  token-close c w tok fits fetched =
      let no_wrap : u64 (c.gen + 1) ≡ c.gen + 1 = omega arith in rw (fetched, no_wrap)
