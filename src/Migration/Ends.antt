-- ===== src/Migration/Ends.antt =====
-- workflows/migration/waiter.go: that waiting for an import ends, and what it ends with.
use cxone_sdk_golang.Prelude.{
  ℕ, zero, suc, ◌+◌, ◌<◌, ◌≤◌, ◌≡◌, refl, sym, ap, subst, ◌⊎◌, inl, inr, true, false, Option, none,
  some, arith, Bool-cases,
}
use cxone_sdk_golang.Prelude.Int.{ℤ}
use cxone_sdk_golang.Errors.{Error, nil, is_nil}
use cxone_sdk_golang.Waiting.{Clock, compute_deadline, sleep_until}
use cxone_sdk_golang.Endpoints.Migration.{DataImport, get_import}
use cxone_sdk_golang.Migration.{
  ImportInspector, ImportWaitOptions, ImportWaited, is_import_completed, is_import_failed,
  is_import_terminal, import_seen, refresh_import, import_error, import_refreshed, import_slept,
  import_round, import_rounds, import_interval, wait_for_import,
}

module _ {W : Type 0} (clock : Clock W) (interval : ℤ) (deadline : Option ℤ) where
  -- the error is that of the last sleep, or that of a Refresh that left the inspector as it was
  abbrev pub CutShort : ImportInspector W → Error → W → Type 0
  CutShort j e w =
      (is_nil e ≡ false)
      × (((v : W) × (sleep_until clock interval deadline v ≡ (e, w)))
          ⊎ ((v : W) × (refresh_import j v ≡ (e, (j, w)))))

  -- Waiting has ended: with no error, and the import was seen to be completed; with an error that
  -- names its status, and it was seen to have failed; or it was cut short before either was seen.
  abbrev pub ImportEnds : Option (ImportWaited W) → Type 0
  ImportEnds none = ⊥
  ImportEnds (some r) =
      ((is_import_completed r.0.0 ≡ true) × (r.0.1 ≡ nil))
      ⊎ ((is_import_completed r.0.0 ≡ false)
          × (is_import_failed r.0.0 ≡ true)
          × (r.0.1 ≡ import_error r.0.0))
      ⊎ ((is_import_completed r.0.0 ≡ false)
          × (is_import_failed r.0.0 ≡ false)
          × CutShort r.0.0 r.0.1 r.1)

-- the inspector with another snapshot
abbrev pub seeing : {W : Type 0} → ImportInspector W → Option DataImport → ImportInspector W
seeing i d = record i { snapshot = d }

refresh_import-seeing :
    {W : Type 0} (i : ImportInspector W) (d : Option DataImport) (w : W)
    → (found : Option DataImport) × ((refresh_import (seeing i d) w).1.0 ≡ seeing i found)
unfolding refresh_import import_seen
refresh_import-seeing i d w = elim (Bool-cases (is_nil (get_import i.backend i.import_id w).0.1)) [
  | inl ok ↦ rw ok ((get_import i.backend i.import_id w).0.0, refl)
  | inr bad ↦ rw bad (d, refl)
]

refresh_import-kept :
    {W : Type 0} (j : ImportInspector W) (w : W)
    → is_nil (refresh_import j w).0 ≡ false
    → (refresh_import j w).1.0 ≡ j
unfolding refresh_import import_seen
refresh_import-kept j w bad = elim (Bool-cases (is_nil (get_import j.backend j.import_id w).0.1)) [
  | inl ok ↦ absurd (ground (arith, ok, bad))
  | inr failed ↦ rw failed refl
]

module _ {W : Type 0} (clock : Clock W) (interval : ℤ) (deadline : Option ℤ) (i : ImportInspector W)
    (left : W → ℕ) where
  -- A Refresh without an error shows that the import is over, or brings the end nearer by the
  -- measure `left`; a sleep that is waited out does not take it further off.
  pub record Approaches : Type 0 where
    pub sleeps :
        (w : W)
        → is_nil (sleep_until clock interval deadline w).0 ≡ true
        → left (sleep_until clock interval deadline w).1 ≤ left w
    pub refreshes :
        (d : Option DataImport) (w : W)
        → is_nil (refresh_import (seeing i d) w).0 ≡ true
        → (is_import_terminal (refresh_import (seeing i d) w).1.0 ≡ true)
          ⊎ (left (refresh_import (seeing i d) w).1.1 < left w)

  -- what is enough for the loop to end within so many rounds
  abbrev Enough : ℕ → ImportInspector W → W → Type 0
  Enough fuel j w = ((is_import_terminal j ≡ true) × (0 < fuel)) ⊎ (left w + 2 ≤ fuel)

  module _ (approaches : Approaches) where
    cut_by_refresh :
        (d : Option DataImport) (rest : ImportInspector W → W → Option (ImportWaited W)) (w : W)
        → (is_import_completed (seeing i d) ≡ false) × (is_import_failed (seeing i d) ≡ false)
        → is_nil (refresh_import (seeing i d) w).0 ≡ false
        → ImportEnds clock interval deadline
            (import_refreshed clock rest (refresh_import (seeing i d) w))
    unfolding import_refreshed
    cut_by_refresh d rest w pending bad =
        let kept = refresh_import-kept (seeing i d) w bad in
        rw (bad, kept)
          (inr (
            inr (
              pending.0,
              pending.1,
              (
                bad,
                inr (
                  w,
                  ap
                      (λ j. (
                        (refresh_import (seeing i d) w).0,
                        (j, (refresh_import (seeing i d) w).1.1),
                      ))
                      kept,
                ),
              ),
            )))

    import_refreshed-ImportEnds :
        (fuel : ℕ) (d : Option DataImport) (rest : ImportInspector W → W → Option (ImportWaited W))
        (w : W)
        → (is_import_completed (seeing i d) ≡ false) × (is_import_failed (seeing i d) ≡ false)
        → left w + 2 ≤ suc fuel
        → ((c : Option DataImport) (v : W)
            → Enough fuel (seeing i c) v
            → ImportEnds clock interval deadline (rest (seeing i c) v))
        → ImportEnds clock interval deadline
            (import_refreshed clock rest (refresh_import (seeing i d) w))
    unfolding import_refreshed
    import_refreshed-ImportEnds fuel d rest w pending fits goes_on =
        elim (Bool-cases (is_nil (refresh_import (seeing i d) w).0)) [
          | inl ok ↦ rw ok (
              subst
                (λ j.
                  ImportEnds clock interval deadline (rest j (refresh_import (seeing i d) w).1.1))
                (sym (refresh_import-seeing i d w).1)
                (goes_on (refresh_import-seeing i d w).0 (refresh_import (seeing i d) w).1.1 (
                  subst (λ j. Enough fuel j (refresh_import (seeing i d) w).1.1)
                    (refresh_import-seeing i d w).1 (near (approaches.refreshes d w ok)))))
          | inr bad ↦ cut_by_refresh d rest w pending bad
        ]
      where
        near :
            (is_import_terminal (refresh_import (seeing i d) w).1.0 ≡ true)
              ⊎ (left (refresh_import (seeing i d) w).1.1 < left w)
            → Enough fuel (refresh_import (seeing i d) w).1.0 (refresh_import (seeing i d) w).1.1
        near (inl over) = inl (over, omega (arith, fits))
        near (inr less) = inr (omega (arith, fits, less))

    import_slept-ImportEnds :
        (fuel : ℕ) (d : Option DataImport) (rest : ImportInspector W → W → Option (ImportWaited W))
        (w : W)
        → (is_import_completed (seeing i d) ≡ false) × (is_import_failed (seeing i d) ≡ false)
        → left w + 2 ≤ suc fuel
        → ((c : Option DataImport) (v : W)
            → Enough fuel (seeing i c) v
            → ImportEnds clock interval deadline (rest (seeing i c) v))
        → ImportEnds clock interval deadline
            (import_slept clock (seeing i d) rest (sleep_until clock interval deadline w))
    unfolding import_slept
    import_slept-ImportEnds fuel d rest w pending fits goes_on =
        elim (Bool-cases (is_nil (sleep_until clock interval deadline w).0)) [
          | inl woke ↦ rw woke (
              import_refreshed-ImportEnds fuel d rest _ pending
                (omega (arith, fits, approaches.sleeps w woke)) goes_on)
          | inr cut ↦ rw cut (inr (inr (pending.0, pending.1, (cut, inl (w, refl)))))
        ]

    import_round-ImportEnds :
        (fuel : ℕ) (d : Option DataImport) (rest : ImportInspector W → W → Option (ImportWaited W))
        (w : W)
        → Enough (suc fuel) (seeing i d) w
        → ((c : Option DataImport) (v : W)
            → Enough fuel (seeing i c) v
            → ImportEnds clock interval deadline (rest (seeing i c) v))
        → ImportEnds clock interval deadline
            (import_round clock interval deadline (seeing i d) rest w)
    unfolding import_round is_import_terminal
    import_round-ImportEnds fuel d rest w enough goes_on =
        elim (Bool-cases (is_import_completed (seeing i d))) [
          | inl done ↦ rw done (inl (done, refl))
          | inr going ↦ elim (Bool-cases (is_import_failed (seeing i d))) [
            | inl failed ↦ rw (going, failed) (inr (inl (going, failed, refl)))
            | inr running ↦
                rw (going, running)
                  (import_slept-ImportEnds fuel d rest w (going, running)
                    (unended going running enough) goes_on)
          ]
        ]
      where
        unended :
            is_import_completed (seeing i d) ≡ false
            → is_import_failed (seeing i d) ≡ false
            → Enough (suc fuel) (seeing i d) w
            → left w + 2 ≤ suc fuel
        unended a b (inl (over, some_fuel)) = absurd (ground (arith, a, b, over))
        unended a b (inr fits) = fits

    import_rounds-ImportEnds :
        (fuel : ℕ) (d : Option DataImport) (w : W)
        → Enough fuel (seeing i d) w
        → ImportEnds clock interval deadline
            (import_rounds clock fuel interval deadline (seeing i d) w)
    unfolding import_rounds
    import_rounds-ImportEnds zero d w (inl (over, some_fuel)) = absurd (omega arith)
    import_rounds-ImportEnds zero d w (inr fits) = absurd (omega arith)
    import_rounds-ImportEnds (suc fuel) d w enough =
        import_round-ImportEnds fuel d (import_rounds clock fuel interval deadline) w enough
          (λ c v near. import_rounds-ImportEnds fuel c v near)

-- If some measure of the world shrinks with every Refresh that returns no error and shows the
-- import in no final state, and does not grow when a sleep is waited out, then WaitUntilComplete
-- ends within that measure and two more rounds: with no error if the import is completed or
-- partial, with an error that names its status if it failed or is blank, and else with the error
-- of the sleep or of the Refresh that came last, which left the inspector as it was.
pub wait_for_import-ImportEnds :
    {W : Type 0} (clock : Clock W) (opts : ImportWaitOptions) (left : W → ℕ) (fuel : ℕ)
    (i : ImportInspector W) (w : W)
    → Approaches clock
        (import_interval clock opts)
        (compute_deadline clock opts.max_duration w).0
        i
        left
    → left (compute_deadline clock opts.max_duration w).1 + 2 ≤ fuel
    → ImportEnds clock
        (import_interval clock opts)
        (compute_deadline clock opts.max_duration w).0
        (wait_for_import clock fuel opts i w)
unfolding wait_for_import
wait_for_import-ImportEnds clock opts left fuel i w approaches fits =
    import_rounds-ImportEnds clock (import_interval clock opts)
      (compute_deadline clock opts.max_duration w).0 i left approaches fuel i.snapshot
      (compute_deadline clock opts.max_duration w).1 (inr fits)
