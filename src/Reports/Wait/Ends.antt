-- ===== src/Reports/Wait/Ends.antt =====
-- workflows/reports/reports.go: that waiting ends, and what it ends with.
use cxone_sdk_golang.Prelude.{
  ℕ, zero, suc, ◌<◌, ◌≤◌, ◌≡◌, refl, ap, ◌∙◌, ◌⊎◌, inl, inr, true, false, String, Option, none,
  some, arith, Bool-cases,
}
use cxone_sdk_golang.Prelude.Int.{ℤ}
use cxone_sdk_golang.Prelude.Text.{str_eq}
use cxone_sdk_golang.Errors.{Error, nil, is_nil, report_error}
use cxone_sdk_golang.Waiting.{compute_deadline, sleep_until}
use cxone_sdk_golang.Endpoints.Reports.{ReportStatus, poll_json, poll_pdf}
use cxone_sdk_golang.Reports.{Handle, Format, format_json, format_pdf, unknown, seen, poll_as, poll}
use cxone_sdk_golang.Reports.Wait.{
  WaitService, WaitOptions, Waited, woken_up, judged, polled, wait_rounds, interval_of, wait,
}

module _ {W : Type 0} (service : WaitService W) (interval : ℤ) (deadline : Option ℤ) where
  -- the error is the one that Poll just returned, or that of the last sleep, and that came when
  -- the report was seen neither completed nor failed
  abbrev pub CutShort : Error → Handle W → W → Type 0
  CutShort e h w =
      (is_nil e ≡ false)
      × (((g : Handle W) × (v : W) × (poll g v ≡ (e, (h, w))))
          ⊎ ((v : W) × (sleep_until service.clock interval deadline v ≡ (e, w))
              × (str_eq h.last_status "completed" ≡ false)
              × (str_eq h.last_status "failed" ≡ false)))

  -- Waiting has ended: with no error, and the report was seen to be completed; with a ReportError,
  -- and it was seen to have failed; or it was cut short.
  abbrev pub Ends : Waited W → Type 0
  Ends none = ⊥
  Ends (some (e, (h, w))) =
      ((e ≡ nil) × (str_eq h.last_status "completed" ≡ true))
      ⊎ ((e ≡ report_error h.report_id "platform reported failed status" nil)
          × (str_eq h.last_status "failed" ≡ true))
      ⊎ CutShort e h w

-- the handle with another status and URL
abbrev pub observed : {W : Type 0} → Handle W → String → String → Handle W
observed h status url = record h { last_status = status; last_url = url }

-- the handle of the same report
abbrev pub SameReport : {W : Type 0} → Handle W → Handle W → Type 0
SameReport start h = h ≡ observed start h.last_status h.last_url

seen-SameReport :
    {W : Type 0} (h : Handle W) (r : (Option ReportStatus × Error) × W)
    → SameReport h (seen h r).1.0
unfolding seen
seen-SameReport h ((none, e), w) = refl
seen-SameReport h ((some s, e), w) = elim (Bool-cases (is_nil e)) [
  | inl ok ↦ rw ok refl
  | inr bad ↦ rw bad refl
]

poll_as-SameReport :
    {W : Type 0} (f : Format) (h : Handle W) (w : W) → SameReport h (poll_as f h w).1.0
unfolding poll_as
poll_as-SameReport format_json h w = seen-SameReport h (poll_json h.backend h.report_id w)
poll_as-SameReport format_pdf h w = seen-SameReport h (poll_pdf h.backend h.report_id w)
poll_as-SameReport unknown h w = refl

poll-SameReport :
    {W : Type 0} (start h : Handle W) (w : W) → SameReport start h → SameReport start (poll h w).1.0
unfolding poll
poll-SameReport start h w same =
    poll_as-SameReport h.format h w
    ∙ ap
        (λ g. observed g (poll_as h.format h w).1.0.last_status (poll_as h.format h w).1.0.last_url)
        same

module _ {W : Type 0} (service : WaitService W) (interval : ℤ) (deadline : Option ℤ)
    (start : Handle W) (left : W → ℕ) where
  -- A poll without an error shows that the report is settled, or brings the end nearer by the
  -- measure `left`; logging and a sleep that is waited out do not take it further off.
  pub record Advances : Type 0 where
    pub logs : (id status : String) (w : W) → left (service.log_poll id status w) ≤ left w
    pub sleeps :
        (w : W)
        → is_nil (sleep_until service.clock interval deadline w).0 ≡ true
        → left (sleep_until service.clock interval deadline w).1 ≤ left w
    pub polls :
        (h : Handle W) (w : W)
        → SameReport start h
        → is_nil (poll h w).0 ≡ true
        → (str_eq (poll h w).1.0.last_status "completed" ≡ true)
          ⊎ (str_eq (poll h w).1.0.last_status "failed" ≡ true)
          ⊎ (left (poll h w).1.1 < left w)

  module _ (advances : Advances) where
    woken_up-Ends :
        (bound : ℕ) (h : Handle W) (rest : Handle W → W → Waited W) (w : W)
        → SameReport start h
        → (str_eq h.last_status "completed" ≡ false) × (str_eq h.last_status "failed" ≡ false)
        → left w < bound
        → ((g : Handle W) (v : W)
            → SameReport start g
            → left v < bound
            → Ends service interval deadline (rest g v))
        → Ends service interval deadline
            (woken_up service h rest (sleep_until service.clock interval deadline w))
    unfolding woken_up
    woken_up-Ends bound h rest w same pending fits goes_on =
        elim (Bool-cases (is_nil (sleep_until service.clock interval deadline w).0)) [
          | inl woke ↦ rw woke (goes_on h _ same (omega (arith, fits, advances.sleeps w woke)))
          | inr cut ↦ rw cut (inr (inr (cut, inr (w, refl, pending.0, pending.1))))
        ]

    judged-Ends :
        (bound : ℕ) (h : Handle W) (rest : Handle W → W → Waited W) (w : W)
        → SameReport start h
        → (str_eq h.last_status "completed" ≡ true)
          ⊎ (str_eq h.last_status "failed" ≡ true)
          ⊎ (left w < bound)
        → ((g : Handle W) (v : W)
            → SameReport start g
            → left v < bound
            → Ends service interval deadline (rest g v))
        → Ends service interval deadline (judged service interval deadline h rest w)
    unfolding judged
    judged-Ends bound h rest w same settled goes_on =
        elim (Bool-cases (str_eq h.last_status "completed")) [
          | inl good ↦ rw good (inl (refl, good))
          | inr unready ↦ elim (Bool-cases (str_eq h.last_status "failed")) [
            | inl bad ↦ rw (unready, bad) (inr (inl (refl, bad)))
            | inr unended ↦
                rw (unready, unended)
                  (woken_up-Ends bound h rest w same (unready, unended)
                    (unsettled unready unended settled) goes_on)
          ]
        ]
      where
        unsettled :
            str_eq h.last_status "completed" ≡ false
            → str_eq h.last_status "failed" ≡ false
            → (str_eq h.last_status "completed" ≡ true)
              ⊎ (str_eq h.last_status "failed" ≡ true)
              ⊎ (left w < bound)
            → left w < bound
        unsettled a b (inl c) = absurd (ground (arith, a, c))
        unsettled a b (inr (inl c)) = absurd (ground (arith, b, c))
        unsettled a b (inr (inr fits)) = fits

    polled-Ends :
        (bound : ℕ) (h : Handle W) (rest : Handle W → W → Waited W) (w : W)
        → SameReport start h
        → left w < suc bound
        → ((g : Handle W) (v : W)
            → SameReport start g
            → left v < bound
            → Ends service interval deadline (rest g v))
        → Ends service interval deadline (polled service interval deadline rest (poll h w))
    unfolding polled
    polled-Ends bound h rest w same fits goes_on = elim (Bool-cases (is_nil (poll h w).0)) [
      | inl ok ↦ rw ok (
          judged-Ends bound _ rest _ (poll-SameReport start h w same)
            (near (advances.polls h w same ok)) goes_on)
      | inr bad ↦ rw bad (inr (inr (bad, inl (h, w, refl))))
    ]
      where
        near :
            (str_eq (poll h w).1.0.last_status "completed" ≡ true)
              ⊎ (str_eq (poll h w).1.0.last_status "failed" ≡ true)
              ⊎ (left (poll h w).1.1 < left w)
            → (str_eq (poll h w).1.0.last_status "completed" ≡ true)
              ⊎ (str_eq (poll h w).1.0.last_status "failed" ≡ true)
              ⊎ (left (
                    service.log_poll
                      (poll h w).1.0.report_id
                      (poll h w).1.0.last_status
                      (poll h w).1.1)
                  < bound)
        near (inl q) = inl q
        near (inr (inl q)) = inr (inl q)
        near (inr (inr q)) = inr (
            inr (
              omega (
                arith,
                q,
                fits,
                advances.logs (poll h w).1.0.report_id (poll h w).1.0.last_status (poll h w).1.1,
              )))

    wait_rounds-Ends :
        (fuel : ℕ) (h : Handle W) (w : W)
        → SameReport start h
        → left w < fuel
        → Ends service interval deadline (wait_rounds service fuel interval deadline h w)
    unfolding wait_rounds
    wait_rounds-Ends zero h w same fits = absurd (omega arith)
    wait_rounds-Ends (suc fuel) h w same fits =
        polled-Ends fuel h (wait_rounds service fuel interval deadline) w same fits
          (λ g v is near. wait_rounds-Ends fuel g v is near)

-- If some measure of the world shrinks with every poll of the report that returns no error and
-- shows the report neither completed nor failed, and does not grow when a poll is logged or a
-- sleep is waited out, then Wait ends within one round more than that measure: with no error if
-- the report was seen to be completed, with a ReportError if it was seen to have failed, and else
-- with the error of the poll or of the sleep that came last.
pub wait-Ends :
    {W : Type 0} (service : WaitService W) (opts : WaitOptions) (left : W → ℕ) (fuel : ℕ)
    (h : Handle W) (w : W)
    → Advances service
        (interval_of service opts)
        (compute_deadline service.clock opts.max_duration w).0
        h
        left
    → left (compute_deadline service.clock opts.max_duration w).1 < fuel
    → Ends service
        (interval_of service opts)
        (compute_deadline service.clock opts.max_duration w).0
        (wait service fuel opts h w)
unfolding wait
wait-Ends service opts left fuel h w advances fits =
    wait_rounds-Ends service (interval_of service opts)
      (compute_deadline service.clock opts.max_duration w).0 h left advances fuel h
      (compute_deadline service.clock opts.max_duration w).1 refl fits
