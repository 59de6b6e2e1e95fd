-- ===== src/Scans/Waiter/Ends.antt =====
-- workflows/scans/waiter.go: that waiting ends, and what it ends with.
use cxone_sdk_golang.Prelude.{
  ℕ, zero, suc, ◌<◌, ◌+◌, ◌≤◌, ◌≡◌, refl, subst, ◌⊎◌, inl, inr, Bool, true, false, String, Option,
  none, some, arith, Bool-cases, if◌then◌else◌,
}
use cxone_sdk_golang.Prelude.Int.{ℤ, pos, leb_ℤ}
use cxone_sdk_golang.Errors.{Error, nil, is_nil, scan_error}
use cxone_sdk_golang.Scans.Inspector.{ScanResponseModel, is_successful, is_failed, state_message}
use cxone_sdk_golang.Scans.Waiter.{
  Service, WaitOptions, Waited, refreshed, slept, poll, polls, with_poll_interval,
  wait_until_complete,
}
use cxone_sdk_golang.Waiting.{sleep_until, compute_deadline}

module _ {W : Type 0} (service : Service W) (interval : ℤ) (deadline : Option ℤ) where
  -- the wait was cut short: by a sleep, or by a Refresh, whose error and world these are
  abbrev pub CutShort : ScanResponseModel → Error → W → Type 0
  CutShort scan e w =
      (is_nil e ≡ false)
      × (((v : W) × (sleep_until service.clock interval deadline v ≡ (e, w)))
          ⊎ ((v : W) × ((service.get scan.id v).0.1 ≡ e) × ((service.get scan.id v).1 ≡ w)))

  -- The scan was seen to be settled: it is successful, or it failed and that is or is not an error,
  -- or the wait was cut short while the scan was in neither state.
  abbrev pub Settled : Bool → ScanResponseModel → Error → W → Type 0
  Settled suppress scan e w =
      ((is_successful scan ≡ true) × (e ≡ nil))
      ⊎ ((is_successful scan ≡ false)
          × (is_failed scan ≡ true)
          × (e ≡ (if suppress then nil else scan_error scan.id (state_message scan) nil)))
      ⊎ ((is_successful scan ≡ false) × (is_failed scan ≡ false) × CutShort scan e w)

  abbrev pub Ends : Bool → Option (Waited W) → Type 0
  Ends suppress none = ⊥
  Ends suppress (some ((scan, e), w)) = Settled suppress scan e w

module _ {W : Type 0} (service : Service W) (opts : WaitOptions) (deadline : Option ℤ)
    (left : W → ℕ) where
  -- Logging, and a round of sleeping and refreshing that finds the scan unsettled, bring the end
  -- nearer by the measure `left`.
  pub record Advances : Type 0 where
    pub logs : (i s m : String) (w : W) → left (service.log_poll i s m w) ≤ left w
    pub sleeps :
        (w : W)
        → is_nil (sleep_until service.clock opts.poll_interval deadline w).0 ≡ true
        → left (sleep_until service.clock opts.poll_interval deadline w).1 ≤ left w
    pub gets :
        (i : String) (w : W)
        → is_nil (service.get i w).0.1 ≡ true
        → (is_successful (service.get i w).0.0 ≡ true)
          ⊎ (is_failed (service.get i w).0.0 ≡ true)
          ⊎ (left (service.get i w).1 < left w)

  module _ (h : Advances) where
    -- a scan is settled, or what is left fits the fuel
    abbrev Near : ℕ → ScanResponseModel → W → Type 0
    Near fuel scan w =
        (1 ≤ fuel) × ((is_successful scan ≡ true) ⊎ (is_failed scan ≡ true) ⊎ (left w + 1 < fuel))

    refreshed-Ends :
        (fuel : ℕ) (scan : ScanResponseModel) (rest : ScanResponseModel → W → Option (Waited W))
        (w : W)
        → (is_successful scan ≡ false) × (is_failed scan ≡ false)
        → left w < fuel
        → ((s : ScanResponseModel) (v : W)
            → Near fuel s v
            → Ends service opts.poll_interval deadline opts.suppress_failure (rest s v))
        → Ends service opts.poll_interval deadline opts.suppress_failure
            (refreshed service scan rest (service.get scan.id w))
    unfolding refreshed
    refreshed-Ends fuel scan rest w unsettled fits goes_on =
        elim (Bool-cases (is_nil (service.get scan.id w).0.1)) [
          | inl ok ↦ rw ok (goes_on _ _ (near (h.gets scan.id w ok)))
          | inr bad ↦ rw bad (inr (inr (unsettled.0, unsettled.1, (bad, inr (w, refl, refl)))))
        ]
      where
        near :
            (is_successful (service.get scan.id w).0.0 ≡ true)
              ⊎ (is_failed (service.get scan.id w).0.0 ≡ true)
              ⊎ (left (service.get scan.id w).1 < left w)
            → Near fuel (service.get scan.id w).0.0 (service.get scan.id w).1
        near (inl q) = (omega arith, inl q)
        near (inr (inl q)) = (omega arith, inr (inl q))
        near (inr (inr q)) = (omega arith, inr (inr (omega arith)))

    slept-Ends :
        (fuel : ℕ) (scan : ScanResponseModel) (rest : ScanResponseModel → W → Option (Waited W))
        (w : W)
        → (is_successful scan ≡ false) × (is_failed scan ≡ false)
        → left w < fuel
        → ((s : ScanResponseModel) (v : W)
            → Near fuel s v
            → Ends service opts.poll_interval deadline opts.suppress_failure (rest s v))
        → Ends service opts.poll_interval deadline opts.suppress_failure
            (slept service scan rest (sleep_until service.clock opts.poll_interval deadline w))
    unfolding slept
    slept-Ends fuel scan rest w unsettled fits goes_on =
        elim (Bool-cases (is_nil (sleep_until service.clock opts.poll_interval deadline w).0)) [
          | inl woke ↦
              rw woke
                (refreshed-Ends fuel scan rest _ unsettled (omega (arith, h.sleeps w woke)) goes_on)
          | inr cut ↦ rw cut (inr (inr (unsettled.0, unsettled.1, (cut, inl (w, refl)))))
        ]

    failed_poll :
        (scan : ScanResponseModel) (rest : ScanResponseModel → W → Option (Waited W)) (w : W)
        → is_successful scan ≡ false
        → is_failed scan ≡ true
        → Ends service opts.poll_interval deadline opts.suppress_failure
            (poll service opts deadline scan rest w)
    unfolding poll
    failed_poll scan rest w unready bad = elim (Bool-cases opts.suppress_failure) [
      | inl quiet ↦ rw (unready, bad, quiet) (inr (inl (unready, bad, refl)))
      | inr loud ↦ rw (unready, bad, loud) (inr (inl (unready, bad, refl)))
    ]

    polls-Ends :
        (fuel : ℕ) (scan : ScanResponseModel) (w : W)
        → Near fuel scan w
        → Ends service opts.poll_interval deadline opts.suppress_failure
            (polls service fuel opts deadline scan w)
    unfolding polls poll
    polls-Ends zero scan w near = absurd (omega arith)
    polls-Ends (suc fuel) scan w near = elim (Bool-cases (is_successful scan)) [
      | inl good ↦ rw good (inl (good, refl))
      | inr unready ↦ elim (Bool-cases (is_failed scan)) [
        | inl bad ↦ failed_poll scan (polls service fuel opts deadline) w unready bad
        | inr unended ↦
            rw (unready, unended)
              (slept-Ends fuel scan (polls service fuel opts deadline) _ (unready, unended)
                (nearer near unready unended) (λ s v n. polls-Ends fuel s v n))
      ]
    ]
      where
        nearer :
            Near (suc fuel) scan w
            → is_successful scan ≡ false
            → is_failed scan ≡ false
            → left (service.log_poll scan.id scan.status (state_message scan) w) < fuel
        nearer (some_left, inl q) unready unended = absurd (ground arith)
        nearer (some_left, inr (inl q)) unready unended = absurd (ground arith)
        nearer (some_left, inr (inr q)) unready unended =
            omega (arith, h.logs scan.id scan.status (state_message scan) w)

with_poll_interval-suppress_failure :
    {W : Type 0} (service : Service W) (opts : WaitOptions)
    → (with_poll_interval service opts).suppress_failure ≡ opts.suppress_failure
with_poll_interval-suppress_failure service opts =
    elim (Bool-cases (leb_ℤ opts.poll_interval (pos 0))) [
      | inl unset ↦ rw unset refl
      | inr set ↦ rw set refl
    ]

-- If some measure does not grow when a poll is logged or a sleep is waited out, and shrinks
-- whenever a refresh finds the scan neither successful nor failed, then WaitUntilComplete ends
-- within that measure and two more rounds: with no error if the scan is successful, with a
-- ScanError, or none if failures are suppressed, if it failed, and else, with
-- the scan in neither state, with the error of the sleep or of the Refresh that came last.
pub wait_until_complete-Ends :
    {W : Type 0} (service : Service W) (opts : WaitOptions) (left : W → ℕ) (fuel : ℕ)
    (scan : ScanResponseModel) (w : W)
    → Advances service
        (with_poll_interval service opts)
        (compute_deadline service.clock opts.max_duration w).0
        left
    → left (compute_deadline service.clock opts.max_duration w).1 + 1 < fuel
    → Ends service
        (with_poll_interval service opts).poll_interval
        (compute_deadline service.clock opts.max_duration w).0
        opts.suppress_failure
        (wait_until_complete service fuel opts scan w)
unfolding wait_until_complete
wait_until_complete-Ends service opts left fuel scan w h fits =
    let began = compute_deadline service.clock opts.max_duration w in
    subst
      (λ b.
        Ends service (with_poll_interval service opts).poll_interval began.0 b
          (polls service fuel (with_poll_interval service opts) began.0 scan began.1))
      (with_poll_interval-suppress_failure service opts)
      (polls-Ends service (with_poll_interval service opts) began.0 left h fuel scan began.1
        (omega arith, inr (inr fits)))
