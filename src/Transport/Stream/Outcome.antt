-- ===== src/Transport/Stream/Outcome.antt =====
-- internal/transport/streamexec.go: who closes the body of a response.
use cxone_sdk_golang.Prelude.{
  ◌≡◌, refl, ◌⊎◌, inl, inr, true, false, ℕ, String, Option, none, some, arith, Bool-cases,
}
use cxone_sdk_golang.Errors.{Error, nil, is_nil, chain_has, as_communication, as_auth}
use cxone_sdk_golang.Transport.Types.{Request, Response}
use cxone_sdk_golang.Transport.Json.{status_in}
use cxone_sdk_golang.Transport.Json.Outcome.{IsFunnel, is_known_error}
use cxone_sdk_golang.Transport.Executor.Contract.{is_catalogued}
use cxone_sdk_golang.Transport.Stream.{
  Funnel, StreamCall, final_url, stream_request, streamed, stream_at, do_stream,
}

module _ {W : Type 0} (funnel : Funnel W) (call : StreamCall) where
  -- What DoStream comes to, started in `w`: nothing was sent; or the funnel failed; or the body of
  -- a response of an expected status is handed over, neither read nor closed; or the body of
  -- another was closed. There is an error, and a known one, if and only if no body is handed over.
  abbrev pub Streams : W → (Option (Option ℕ) × Error) × W → Type 0
  Streams w ((o, e), v) =
      ((o ≡ none) × (is_known_error e ≡ true) × (v ≡ w))
      ⊎ ((req : Request W) × (o ≡ none)
          × (is_known_error e ≡ true)
          × ((funnel.do_request req w).0.0 ≡ none)
          × (v ≡ (funnel.do_request req w).1))
      ⊎ ((req : Request W) × (resp : Response) × ((funnel.do_request req w).0.0 ≡ some resp)
          × (status_in resp.status_code call.expected ≡ true)
          × (o ≡ some resp.body)
          × (e ≡ nil)
          × (v ≡ (funnel.do_request req w).1))
      ⊎ ((req : Request W) × (resp : Response) × ((funnel.do_request req w).0.0 ≡ some resp)
          × (status_in resp.status_code call.expected ≡ false)
          × (o ≡ none)
          × (is_known_error e ≡ true)
          × (v
              ≡ funnel.close resp.body (funnel.read resp.body 4_096 (funnel.do_request req w).1).1))

  streamed-Streams :
      (url : String) (req : Request W) (w : W) (o : Option Response) (e : Error) (v : W)
      → (funnel.do_request req w) ≡ ((o, e), v)
      → ((o ≡ none) × (is_catalogued e ≡ true)) ⊎ ((e ≡ nil) × ((r : Response) × (o ≡ some r)))
      → Streams w (streamed funnel call url ((o, e), v))
  unfolding streamed as_communication as_auth chain_has
  streamed-Streams url req w none e v there (inl (missing, known)) =
      inr (inl (req, refl, ground (arith, known), rw there refl, rw there refl))
  streamed-Streams url req w none e v there (inr (ok, (r, is))) = absurd (ground arith)
  streamed-Streams url req w (some resp) e v there (inl (missing, known)) = absurd (ground arith)
  streamed-Streams url req w (some resp) e v there (inr (ok, (r, is))) =
      elim (Bool-cases (status_in resp.status_code call.expected)) [
        | inl expected ↦
            rw (ok, expected)
              (inr (inr (inl (req, resp, rw there refl, expected, refl, refl, rw there refl))))
        | inr odd ↦
            rw (ok, odd)
              (inr (inr (inr (req, resp, rw there refl, odd, refl, refl, rw there refl))))
      ]

  -- Over a funnel that gives a response or an error of its own: DoStream hands over the body of a
  -- response of an expected status, not yet read or closed, and no error; or it hands over nothing
  -- and a known error, and then the body of a response, if there was one, has been closed.
  pub do_stream-Streams : IsFunnel funnel.do_request → (w : W) → Streams w (do_stream funnel call w)
  unfolding do_stream stream_at as_communication as_auth chain_has
  do_stream-Streams sound w = elim (Bool-cases (is_nil (final_url funnel call call.query).1)) [
    | inr bad ↦ rw bad (inl (refl, refl, refl))
    | inl ok ↦ rw ok (
        streamed-Streams (final_url funnel call call.query).0
          (stream_request funnel call (final_url funnel call call.query).0) w
          (funnel.do_request (stream_request funnel call (final_url funnel call call.query).0)
            w).0.0
          (funnel.do_request (stream_request funnel call (final_url funnel call call.query).0)
            w).0.1
          (funnel.do_request (stream_request funnel call (final_url funnel call call.query).0) w).1
          refl (sound (stream_request funnel call (final_url funnel call call.query).0) w))
  ]
