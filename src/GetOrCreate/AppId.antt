-- ===== src/GetOrCreate/AppId.antt =====
-- workflows/clients/helpers.go: ASTAppIDCache, the id of the client "ast-app".
use cxone_sdk_golang.Prelude.{
  ◌≡◌, refl, Bool, true, false, String, Option, none, some, if◌then◌else◌,
}
use cxone_sdk_golang.Errors.{Error, nil, is_nil, opaque}
use cxone_sdk_golang.Endpoints.Users.{required}
use cxone_sdk_golang.Endpoints.Clients.{OidcClient, ClientApi}
use cxone_sdk_golang.GetOrCreate.{Found, find_client}

pub record AstAppIdCache : Type 0 where
  pub id : String
  pub err : Error
  pub loaded : Bool

-- NewASTAppIDCache
abbrev pub new_cache : AstAppIdCache
new_cache = record { id = ""; err = nil; loaded = false }

-- the id and the error that Get returns, the cache and the world after it
abbrev pub Got : Type 0 → Type 0
Got W = (String × Error) × (AstAppIdCache × W)

abbrev not_found : Error
not_found = opaque "ast-app client not found on this tenant"

module _ {W : Type 0} (backend : Option (ClientApi W)) where
  -- what Get makes of the lookup
  unfoldable pub looked_up : AstAppIdCache → Found W OidcClient → Got W
  looked_up c ((o, e), w) =
      if is_nil e
      then elim o [
        | none ↦ (("", not_found), (record c { err = not_found }, w))
        | some client ↦ ((client.id, nil), (record c { id = client.id; loaded = true }, w))
      ]
      else (("", e), (record c { err = e }, w))

  -- Get
  unfoldable pub get_app_id : AstAppIdCache → W → Got W
  get_app_id c w = if c.loaded then ((c.id, c.err), (c, w)) else elim backend [
    | none ↦ (("", required "backend"), (record c { err = required "backend" }, w))
    | some api ↦ looked_up c (find_client api "ast-app" w)
  ]

-- If the cache holds no id and the lookup finds the client: the call returns its id and no error;
-- the next call looks nothing up and returns the id again, but with the error that the last call
-- that failed before had left in the cache.
pub get_app_id-twice :
    {W : Type 0} (api : ClientApi W) (c : AstAppIdCache) (w : W) (client : OidcClient)
    → c.loaded ≡ false
    → (find_client api "ast-app" w).0 ≡ (some client, nil)
    → ((get_app_id (some api) c w).0 ≡ (client.id, nil))
      × (get_app_id (some api) (get_app_id (some api) c w).1.0 (get_app_id (some api) c w).1.1
          ≡ ((client.id, c.err), (get_app_id (some api) c w).1))
unfolding get_app_id looked_up
get_app_id-twice api c w client unloaded there = rw (unloaded, there) (refl, refl)
