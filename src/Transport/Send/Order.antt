-- ===== src/Transport/Send/Order.antt =====
-- internal/transport/interceptor.go, internal/transport/executor.go: in which order the interceptors are called.
use cxone_sdk_golang.Prelude.{
  length, zero, inl, inr, ℕ, suc, ◌+◌, ◌≤◌, ◌≡◌, refl, true, false, ◌⊎◌, String, Option, List, [],
  ◌∷◌, arith, Bool-cases,
}
use cxone_sdk_golang.Errors.{Error, nil, is_nil}
use cxone_sdk_golang.Transport.Types.{
  View, Response, Config, Env, Interceptor, Event, before_called, after_called, State,
}
use cxone_sdk_golang.Transport.Send.{run_before, run_after_from, run_after}

-- `n` events, the newest first: the newest is of the interceptor with the highest index
abbrev pub rising : (ℕ → Event) → ℕ → ℕ → List Event → List Event
rising event i zero es = es
rising event i (suc n) es = rising event (i + 1) n (event i ∷ es)

-- `n` events, the newest of the interceptor with the lowest index
abbrev pub falling : (ℕ → Event) → ℕ → ℕ → List Event → List Event
falling event i zero es = es
falling event i (suc n) es = event i ∷ falling event (i + 1) n es

-- Asked in turn, each about what the one before it left, the first `n` interceptors answer, and `e`
-- comes of it: all of them pass and `e` is nil, or the last of the `n` is the first to refuse, with
-- `e`.
abbrev pub Verdict : {W : Type 0} → List (Interceptor W) → View → ℕ → W → ℕ → Error → Type 0
Verdict [] view attempt w n e = (n ≡ 0) × (e ≡ nil)
Verdict (ic ∷ ics) view attempt w n e =
    ((is_nil (ic.before view attempt w).0.1 ≡ false)
      × (n ≡ 1)
      × (e ≡ (ic.before view attempt w).0.1))
    ⊎ ((is_nil (ic.before view attempt w).0.1 ≡ true)
        × ((m : ℕ) × (n ≡ suc m)
            × Verdict ics (ic.before view attempt w).0.0 attempt (ic.before view attempt w).1 m e))

module _ {W : Type 0} (redact redact_url : String → String) (env : Env W) (cfg : Config W) where
  run_after_from-falling :
      (ics : List (Interceptor W)) (i : ℕ) (view : View) (resp : Option Response) (e : Error)
      (s : State W)
      → (run_after_from redact redact_url env cfg ics i view resp e s).trace
        ≡ falling after_called i (length ics) s.trace
  unfolding run_after_from
  run_after_from-falling [] i view resp e s = refl
  run_after_from-falling (ic ∷ ics) i view resp e s =
      rw (run_after_from-falling ics (i + 1) view resp e s)

  -- the loop on the request side, from index `i`, that calls the first `n` interceptors
  record Asked (ics : List (Interceptor W)) (i : ℕ) (view : View) (attempt : ℕ) (s : State W)
      : Type 0 where
    called : ℕ
    within : called ≤ length ics
    in_order :
        (run_before redact redact_url env cfg ics i view attempt s).1.trace
        ≡ rising before_called i called s.trace
    verdict :
        Verdict ics view attempt s.world called
          (run_before redact redact_url env cfg ics i view attempt s).0.1

  run_before-Asked :
      (ics : List (Interceptor W)) (i : ℕ) (view : View) (attempt : ℕ) (s : State W)
      → Asked ics i view attempt s
  unfolding run_before
  run_before-Asked [] i view attempt s = record {
    called = 0;
    within = omega arith;
    in_order = refl;
    verdict = (refl, refl);
  }
  run_before-Asked (ic ∷ ics) i view attempt s =
      let e = (ic.before view attempt s.world).0.1 in
      let rest =
        run_before-Asked ics (i + 1) (ic.before view attempt s.world).0.0 attempt (record s {
          world = (ic.before view attempt s.world).1;
          trace = before_called i ∷ s.trace;
        }) in
      elim (Bool-cases (is_nil e)) [
        | inl passed ↦ record {
          called = suc rest.called;
          within = ground arith;
          in_order = rw passed rest.in_order;
          verdict = rw passed (inr (refl, (rest.called, refl, rest.verdict)));
        }
        | inr refused ↦ record {
          called = 1;
          within = ground arith;
          in_order = rw refused refl;
          verdict = rw refused (inl (refl, refl, refl));
        }
      ]

  -- The request side calls the interceptors from the first on, each once and in their order, each
  -- with what the one before it left, up to the first that refuses, whose error it reports, or all
  -- of them, and then it reports none; the response side calls each once, from the last to the
  -- first, whatever they return.
  pub run_before-run_after_order :
      (view view' : View) (attempt : ℕ) (resp : Option Response) (e : Error) (s t : State W)
      → ((n : ℕ) × (n ≤ length cfg.interceptors)
          × ((run_before redact redact_url env cfg cfg.interceptors 0 view attempt s).1.trace
              ≡ rising before_called 0 n s.trace)
          × Verdict cfg.interceptors view attempt s.world n
              (run_before redact redact_url env cfg cfg.interceptors 0 view attempt s).0.1)
        × ((run_after redact redact_url env cfg view' resp e t).trace
            ≡ falling after_called 0 (length cfg.interceptors) t.trace)
  unfolding run_after
  run_before-run_after_order view view' attempt resp e s t =
      let h = run_before-Asked cfg.interceptors 0 view attempt s in
      (
        (h.called, h.within, h.in_order, h.verdict),
        run_after_from-falling cfg.interceptors 0 _ resp e t,
      )
