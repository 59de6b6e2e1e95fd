-- ===== src/Context.antt =====
-- `context.Context` as the program uses it, and the two sleeps of internal/retry/retry.go and
-- pagination/iterator.go, whose texts are the same. `W` is the world: time, the network and the
-- goroutines of the application.
use cxone_sdk_golang.Prelude.{◌≡◌, inl, inr, Bool, false, arith, Bool-cases, if◌then◌else◌}
use cxone_sdk_golang.Prelude.Int.{ℤ, pos, leb_ℤ}
use cxone_sdk_golang.Errors.{Error, nil, is_nil}

-- Each look at the context is a moment of its own, so it returns the world too.
pub record Context (W : Type 0) : Type 0 where
  -- ctx.Err()
  pub err : W → Error × W
  -- the `select` on ctx.Done() and a timer: whether the timer fired first
  pub wait : ℤ → W → Bool × W

-- What the documentation of `context` promises: after Done is closed, Err is not nil.
pub record IsContext {W : Type 0} (ctx : Context W) : Type 0 where
  pub done :
      (d : ℤ) (w : W) → (ctx.wait d w).0 ≡ false → is_nil (ctx.err (ctx.wait d w).1).0 ≡ false

module _ {W : Type 0} (ctx : Context W) where
  abbrev woken : Bool × W → Error × W
  woken (fired, w) = if fired then (nil, w) else ctx.err w

  unfoldable pub sleep : ℤ → W → Error × W
  sleep d w = if leb_ℤ d (pos 0) then ctx.err w else woken (ctx.wait d w)

  -- A sleep does no more to the world than look at the context and wait.
  pub sleep-keeps :
      (P : W → Type 0)
      → ((w : W) → P w → P (ctx.err w).1)
      → ((d : ℤ) (w : W) → P w → P (ctx.wait d w).1)
      → (d : ℤ) (w : W) → P w
      → P (sleep d w).1
  unfolding sleep
  sleep-keeps P looked waited d w h = elim (Bool-cases (leb_ℤ d (pos 0))) [
    | inl none_left ↦ rw none_left (looked w h)
    | inr some_left ↦ rw some_left (elim (Bool-cases (ctx.wait d w).0) [
      | inl fired ↦ rw fired (waited d w h)
      | inr stopped ↦ rw stopped (looked (ctx.wait d w).1 (waited d w h))
    ])
  ]

  -- A sleep that was cut short ends with a look at the context, which gives the error.
  pub sleep_cut_short :
      (d : ℤ) (w : W) → is_nil (sleep d w).0 ≡ false → (seen : W) × (sleep d w ≡ ctx.err seen)
  unfolding sleep
  sleep_cut_short d w h = elim (Bool-cases (leb_ℤ d (pos 0))) [
    | inl none_left ↦ (w, rw none_left)
    | inr some_left ↦ elim (Bool-cases (ctx.wait d w).0) [
      | inl fired ↦ absurd (ground arith)
      | inr stopped ↦ ((ctx.wait d w).1, rw some_left (rw stopped))
    ]
  ]
