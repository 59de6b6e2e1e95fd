-- ===== src/Audit/Ends.antt =====
-- workflows/audit/waiter.go: that waiting for a request ends, and what it ends with.
use cxone_sdk_golang.Prelude.{
  ℕ, zero, suc, ◌<◌, ◌≤◌, ◌≡◌, refl, sym, subst, ap, ◌∙◌, ◌⊎◌, inl, inr, Bool, true, false, not,
  ◌||◌, String, Option, none, some, arith, Bool-cases,
}
use cxone_sdk_golang.Prelude.Int.{ℤ}
use cxone_sdk_golang.Prelude.Text.{str_eq}
use cxone_sdk_golang.Errors.{Error, nil, is_nil}
use cxone_sdk_golang.Waiting.{compute_deadline, sleep_until}
use cxone_sdk_golang.Endpoints.{fetch}
use cxone_sdk_golang.Endpoints.Answers.{answer-answers}
use cxone_sdk_golang.Endpoints.Audit.{AuditRequestStatus, get_request_status}
use cxone_sdk_golang.Audit.{
  SessionInspector, AuditWaitService, AuditWaitOptions, AuditWaited, keep_session_alive,
  poll_request, has_error, kept_alive, rested, request_error, request_failed, request_seen,
  request_rounds, audit_interval, wait_for_request,
}

-- the request was refused
abbrev pub is_refused : {V : Type 0} → AuditRequestStatus V → Bool
is_refused s = has_error s || str_eq s.status "Failed"

module _ {W V : Type 0} (service : AuditWaitService W V) (i : SessionInspector W V)
    (request : String) where
  -- Waiting has ended: with the value of a status that a poll showed, and no error just if the
  -- request was not refused but completed; or with no value and an error.
  abbrev pub Concluded : Option (AuditWaited W V) → Type 0
  Concluded none = ⊥
  Concluded (some r) =
      ((w : W) × (s : AuditRequestStatus V) × ((poll_request i request w).0.0 ≡ some s)
        × (r.1 ≡ (poll_request i request w).1)
        × (r.0.0 ≡ some s.value)
        × (is_nil r.0.1 ≡ not (is_refused s))
        × ((is_refused s ≡ true) ⊎ (s.completed ≡ true)))
      ⊎ ((r.0.0 ≡ none) × (is_nil r.0.1 ≡ false))

  poll_request-answers :
      (w : W)
      → (is_nil (poll_request i request w).0.1 ≡ true)
          × ((s : AuditRequestStatus V) × ((poll_request i request w).0.0 ≡ some s))
        ⊎ (is_nil (poll_request i request w).0.1 ≡ false) × ((poll_request i request w).0.0 ≡ none)
  unfolding poll_request get_request_status fetch
  poll_request-answers w = elim (Bool-cases (str_eq i.session.id "" || str_eq request "")) [
    | inl missing ↦ rw missing (inr (refl, refl))
    | inr given ↦ rw given (answer-answers i.backend.funnel i.backend.request_status _ _)
  ]

  module _ (interval : ℤ) (deadline : Option ℤ) (left : W → ℕ) where
    -- A poll shows a request that is settled, brings an error, or brings the end nearer by the
    -- measure `left`; a heartbeat and a sleep that is waited out do not take it further off.
    pub record Nears : Type 0 where
      pub heartbeats : (w : W) → left (keep_session_alive i w).1 ≤ left w
      pub sleeps :
          (w : W)
          → is_nil (sleep_until service.clock interval deadline w).0 ≡ true
          → left (sleep_until service.clock interval deadline w).1 ≤ left w
      pub polls :
          (w : W) (s : AuditRequestStatus V)
          → (poll_request i request w).0.0 ≡ some s
          → is_nil (poll_request i request w).0.1 ≡ true
          → is_refused s ≡ false
          → s.completed ≡ false
          → left (poll_request i request w).1 < left w

    module _ (nears : Nears) where
      kept_alive-Concluded :
          (bound : ℕ) (odd : Bool) (rest : Bool → W → Option (AuditWaited W V)) (w : W)
          → left w < bound
          → ((b : Bool) (v : W) → left v < bound → Concluded (rest b v))
          → Concluded (kept_alive service i request odd rest w)
      unfolding kept_alive
      kept_alive-Concluded bound true rest w fits goes_on =
          goes_on false _ (omega (arith, fits, nears.heartbeats w))
      kept_alive-Concluded bound false rest w fits goes_on = goes_on true w fits

      rested-Concluded :
          (bound : ℕ) (odd : Bool) (rest : Bool → W → Option (AuditWaited W V)) (w : W)
          → left w < bound
          → ((b : Bool) (v : W) → left v < bound → Concluded (rest b v))
          → Concluded
              (rested service i request odd rest (sleep_until service.clock interval deadline w))
      unfolding rested
      rested-Concluded bound odd rest w fits goes_on =
          elim (Bool-cases (is_nil (sleep_until service.clock interval deadline w).0)) [
            | inl woke ↦ rw woke (
                kept_alive-Concluded bound odd rest _ (omega (arith, fits, nears.sleeps w woke))
                  goes_on)
            | inr cut ↦ rw cut (inr (refl, cut))
          ]

      Concluded-with :
          (w : W) (s : AuditRequestStatus V) (e f : Error) (v : W)
          → poll_request i request w ≡ ((some s, e), v)
          → is_nil f ≡ not (is_refused s)
          → (is_refused s ≡ true) ⊎ (s.completed ≡ true)
          → Concluded (some ((some s.value, f), v))
      Concluded-with w s e f v there told settled =
          inl (w, s, ap (λ q. q.0.0) there, ap (λ q. q.1) (sym there), refl, told, settled)

      status_seen-Concluded :
          (bound : ℕ) (odd : Bool) (rest : Bool → W → Option (AuditWaited W V)) (w : W)
          (s : AuditRequestStatus V) (e : Error) (v : W)
          → poll_request i request w ≡ ((some s, e), v)
          → is_nil e ≡ true
          → left w < suc bound
          → ((b : Bool) (u : W) → left u < bound → Concluded (rest b u))
          → Concluded (request_seen service i request interval deadline odd rest ((some s, e), v))
      unfolding request_seen
      status_seen-Concluded bound odd rest w s e v there ok fits goes_on =
          elim (Bool-cases (has_error s)) [
            | inl wrong ↦
                rw (ok, wrong)
                  (Concluded-with w s e (request_error service i request s) v there (rw wrong refl)
                    (inl (rw wrong refl)))
            | inr right ↦ elim (Bool-cases (str_eq s.status "Failed")) [
              | inl failed ↦
                  rw (ok, right, failed)
                    (Concluded-with w s e (request_failed service i request s) v there
                      (rw (right, failed) refl) (inl (rw (right, failed) refl)))
              | inr going ↦ elim (Bool-cases s.completed) [
                | inl done ↦
                    rw (ok, right, going, done)
                      (Concluded-with w s e nil v there (rw (right, going) refl) (inr done))
                | inr pending ↦
                    rw (ok, right, going, pending)
                      (rested-Concluded bound odd rest v
                        (omega (arith, fits, nearer s e v there ok right going pending)) goes_on)
              ]
            ]
          ]
        where
          nearer :
              (s : AuditRequestStatus V) (e : Error) (v : W)
              → poll_request i request w ≡ ((some s, e), v)
              → is_nil e ≡ true
              → has_error s ≡ false
              → str_eq s.status "Failed" ≡ false
              → s.completed ≡ false
              → left v < left w
          nearer s e v there ok right going pending =
              subst (λ u. left u < left w) (ap (λ q. q.1) there)
                (nears.polls w s (ap (λ q. q.0.0) there) (ap (λ q. is_nil q.0.1) there ∙ ok)
                  (rw (right, going) refl) pending)

      request_seen-Concluded :
          (bound : ℕ) (odd : Bool) (rest : Bool → W → Option (AuditWaited W V)) (w : W)
          (r : (Option (AuditRequestStatus V) × Error) × W)
          → poll_request i request w ≡ r
          → left w < suc bound
          → ((b : Bool) (v : W) → left v < bound → Concluded (rest b v))
          → Concluded (request_seen service i request interval deadline odd rest r)
      unfolding request_seen
      request_seen-Concluded bound odd rest w ((none, e), v) there fits goes_on =
          elim (poll_request-answers w) [
            | inl (ok, (s, is)) ↦ absurd (ground (arith, there, is))
            | inr (bad, is) ↦ inr (refl, ap (λ q. is_nil q.0.1) (sym there) ∙ bad)
          ]
      request_seen-Concluded bound odd rest w ((some s, e), v) there fits goes_on =
          elim (poll_request-answers w) [
            | inl (ok, found) ↦
                status_seen-Concluded bound odd rest w s e v there
                  (ap (λ q. is_nil q.0.1) (sym there) ∙ ok) fits goes_on
            | inr (bad, is) ↦ absurd (ground (arith, there, is))
          ]

      request_rounds-Concluded :
          (fuel : ℕ) (odd : Bool) (w : W)
          → left w < fuel
          → Concluded (request_rounds service i request fuel interval deadline odd w)
      unfolding request_rounds
      request_rounds-Concluded zero odd w fits = absurd (omega arith)
      request_rounds-Concluded (suc fuel) odd w fits =
          request_seen-Concluded fuel odd (request_rounds service i request fuel interval deadline)
            w (poll_request i request w) refl fits
            (λ b v near. request_rounds-Concluded fuel b v near)

-- If some measure of the world shrinks with every poll that shows the request neither refused nor
-- completed, and does not grow with a heartbeat or when a sleep is waited out, then WaitForRequest
-- for a request that has an id ends within one round more than that measure: with the value of a
-- status that the last poll showed, and with no error exactly if that was completed and not
-- refused; or with no value and an error.
pub wait_for_request-Concluded :
    {W V : Type 0} (service : AuditWaitService W V) (i : SessionInspector W V)
    (opts : AuditWaitOptions) (request : String) (left : W → ℕ) (fuel : ℕ) (w : W)
    → str_eq request "" ≡ false
    → Nears service i request
        (audit_interval opts)
        (compute_deadline service.clock opts.max_duration w).0
        left
    → left (compute_deadline service.clock opts.max_duration w).1 < fuel
    → Concluded service i request (wait_for_request service (some i) fuel opts request w)
unfolding wait_for_request
wait_for_request-Concluded service i opts request left fuel w given nears fits = rw given (
    request_rounds-Concluded service i request (audit_interval opts)
      (compute_deadline service.clock opts.max_duration w).0 left nears fuel false
      (compute_deadline service.clock opts.max_duration w).1 fits)
