-- ===== src/Transport/Send/Headers.antt =====
-- internal/transport/executor.go: which headers a request is sent with.
use cxone_sdk_golang.Prelude.{
  ℕ, ◌≡◌, true, String, Option, none, some, List, [], ◌∷◌, if◌then◌else◌,
}
use cxone_sdk_golang.Prelude.Text.{str_eq, concat}
use cxone_sdk_golang.Transport.Header.{Header, values}
use cxone_sdk_golang.Errors.{is_nil}
use cxone_sdk_golang.Transport.Types.{View, HttpRequest, Interceptor, Config, Event, sent}
use cxone_sdk_golang.Transport.Send.{header_accept, add_header}

-- the value that the funnel gives a name, over the one of the request
abbrev pub imposed : String → List String → List String
imposed v own = if str_eq v "" then own else v ∷ []

-- the header `h` has the token as the only value of Authorization, the one value of Accept, and over
-- the request's own values what the funnel imposes
abbrev pub Carries : {W : Type 0} → Config W → View → String → Header → Type 0
Carries cfg view token h =
    (values "Authorization" h ≡ concat "Bearer " token ∷ [])
    × (values "Accept" h ≡ header_accept ∷ [])
    × (values "User-Agent" h
        ≡ imposed cfg.user_agent (values "User-Agent" (add_header view.header [])))
    × (values "Correlationid" h
        ≡ imposed cfg.correlation_id (values "Correlationid" (add_header view.header [])))
    × (values "Content-Type" h
        ≡ imposed view.content_type (values "Content-Type" (add_header view.header [])))

-- the request that was sent last
abbrev pub last_sent : List Event → Option HttpRequest
last_sent [] = none
last_sent (sent r ∷ es) = some r
last_sent (_ ∷ es) = last_sent es

-- the interceptors pass every request on, with the header that they were given
abbrev pub PassHeader : {W : Type 0} → List (Interceptor W) → Type 0
PassHeader [] = Unit
PassHeader {W} (ic ∷ ics) =
    ((view : View) (attempt : ℕ) (w : W)
      → (is_nil (ic.before view attempt w).0.1 ≡ true)
        × ((ic.before view attempt w).0.0.header ≡ view.header))
    × PassHeader ics
