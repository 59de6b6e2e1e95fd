-- ===== src/Retry/Examples.antt =====
-- internal/retry/retry.go: the theorems at concrete inputs.
use cxone_sdk_golang.Prelude.{ℕ, ◌≤◌, ◌≡◌, ◌⊎◌, refl, not, false, [], arith, ◌==◌, if◌then◌else◌}
use cxone_sdk_golang.Prelude.Int.{pos, ◌≤ℤ◌, ◌-ℤ◌, ◌+ℤ◌}
use cxone_sdk_golang.Context.{sleep}
use cxone_sdk_golang.Scripted.{quiet, by_clock}
use cxone_sdk_golang.Errors.{
  Error, nil, opaque, op_error, url_error, is_cancellation, as_op, as_dns, chain_has,
}
use cxone_sdk_golang.Retry.{
  Operation, success, retry, default_policy, second, attempts_of, next_delay, run,
}
use cxone_sdk_golang.Retry.Rule.{Ends}
use cxone_sdk_golang.Retry.Log.{Explained, logged_context, logged_random, logged, run-Explained}
use cxone_sdk_golang.Retry.Delay.{next_delay_jittered}
use cxone_sdk_golang.Retry.Transient.{is_transient, is_transient-url_error, is_transient-network}

abbrev third_time : Operation ℕ
third_time n w = ((if n == 3 then success else retry, opaque "busy"), w)

third_time_runs : run quiet by_clock default_policy third_time 0 ≡ ((3, nil), 3_000_000_000)
unfolding run next_delay attempts_of sleep ◌-ℤ◌ ◌+ℤ◌
third_time_runs = refl

run-Explained_example :
    Ends
      (logged_context quiet)
      (logged_random by_clock)
      default_policy
      (logged third_time)
      (λ n e s.
        (n ≤ attempts_of default_policy) × Explained quiet (attempts_of default_policy) n e s)
      (run
        (logged_context quiet)
        (logged_random by_clock)
        default_policy
        (logged third_time)
        (record { world = 0; log = [] }))
run-Explained_example = run-Explained quiet by_clock default_policy third_time 0

next_delay_jittered_example :
    ((pos 15_000_000_000 ≤ℤ second)
      × ((next_delay by_clock default_policy 1 7).0 ≡ pos 15_000_000_000))
    ⊎ ((second ≤ℤ (next_delay by_clock default_policy 1 7).0)
        × ((next_delay by_clock default_policy 1 7).0 ≤ℤ pos 15_000_000_000))
next_delay_jittered_example =
    next_delay_jittered by_clock default_policy 1 15_000_000_000 7 (λ n w h. grind arith) refl
      (omega arith) refl (omega arith)

abbrev refused : Error
refused = op_error "connect: connection refused" nil

is_transient-url_error_example :
    is_transient (url_error "Get: connect: connection refused" false refused) ≡ is_transient refused
is_transient-url_error_example =
    is_transient-url_error "Get: connect: connection refused" false refused refl

is_transient-network_example : is_transient refused ≡ not (is_cancellation refused)
unfolding as_op as_dns chain_has
is_transient-network_example = is_transient-network refused refl
