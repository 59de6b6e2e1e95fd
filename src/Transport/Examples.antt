-- ===== src/Transport/Examples.antt =====
-- internal/transport: the theorems at concrete inputs.
use cxone_sdk_golang.Prelude.{
  ℕ, ◌+◌, ◌≤◌, ◌≡◌, ◌==◌, ◌⊎◌, true, String, none, some, [], ◌∷◌, arith, if◌then◌else◌, length,
}
use cxone_sdk_golang.Prelude.Int.{pos}
use cxone_sdk_golang.Scripted.{quiet, by_clock}
use cxone_sdk_golang.Errors.{nil, opaque}
use cxone_sdk_golang.Retry.{default_policy, attempts_of}
use cxone_sdk_golang.Transport.Header.{Header}
use cxone_sdk_golang.Transport.Types.{
  Request, response, Env, Config, Interceptor, before_called, after_called,
}
use cxone_sdk_golang.Transport.Send.{run_before, run_after}
use cxone_sdk_golang.Transport.Send.Order.{Verdict, rising, falling, run_before-run_after_order}
use cxone_sdk_golang.Transport.Executor.{Returned, do_request, fresh}
use cxone_sdk_golang.Transport.Json.{JsonService, JsonCall, do_json}
use cxone_sdk_golang.Transport.Json.Outcome.{
  Answers, executor_funnel, executor-IsFunnel, do_json-Answers,
}
use cxone_sdk_golang.Transport.Executor.Facts.{sends, refreshes, timers_started, timers_stopped}
use cxone_sdk_golang.Transport.Executor.Budget.{bit, IsClient, Accepts}
use cxone_sdk_golang.Transport.Executor.Contract.{
  closes, is_catalogued, do_request-attempt_budget, do_request-outcome, do_request-timers,
}

-- a service that answers 401, then 503, then 200, by how often it was called
abbrev status_at : ℕ → ℕ
status_at n = if n == 0 then 401 else if n == 1 then 503 else 200

abbrev service : Env ℕ
service = record {
  ctx = quiet;
  with_timeout = λ ctx d. ctx;
  int63n = by_clock;
  token = λ w. (record { token = "t1"; gen = 1; err = nil }, w);
  refresh = λ g w. (record { token = "t2"; gen = 2; err = nil }, w);
  build = λ m u. nil;
  send =
      λ r w. (response (record { status_code = status_at w; header = []; body = some w }), w + 1);
  elapsed = λ w. ("1", w);
}

abbrev tagging : Interceptor ℕ
tagging = record { before = λ v n w. ((v, nil), w); after = λ v r e w. (opaque "dropped", w) }

abbrev config : Config ℕ
config = record {
  user_agent = "sdk/1";
  correlation_id = "c-1";
  timeout = pos 30_000_000_000;
  policy = record (default_policy) { max_delay = pos 0 };
  interceptors = tagging ∷ tagging ∷ [];
}

abbrev get : Request ℕ
get = record {
  view = record {
    method = "GET";
    url = "https://ast.example.net/api/projects";
    header = ("Accept", "text/html" ∷ []) ∷ [];
    content_type = "";
    timeout = pos 0;
  };
  body = none;
}

abbrev same : String → String
same s = s

abbrev answer : Returned ℕ
answer = do_request same same service config (some get) 0

service-IsClient : IsClient service
service-IsClient r w e h = absurd (ground arith)

do_request-attempt_budget_example :
    (sends answer.1 ≤ attempts_of config.policy + refreshes answer.1) × (refreshes answer.1 ≤ 1)
do_request-attempt_budget_example =
    do_request-attempt_budget same same service config service-IsClient (some get) 0

do_request-outcome_example :
    ((answer.0.0 ≡ none) × (is_catalogued answer.0.1 ≡ true))
    ⊎ ((answer.0.1 ≡ nil) × Accepts answer.1.refreshed answer.0.0)
do_request-outcome_example =
    do_request-outcome same same service config service-IsClient (some get) 0

do_request-timers_example :
    timers_started answer.1 ≡ timers_stopped answer.1 + bit (closes answer.0.0)
do_request-timers_example = do_request-timers same same service config service-IsClient (some get) 0

run_before-run_after_order_example :
    ((n : ℕ) × (n ≤ length config.interceptors)
      × ((run_before same same service config config.interceptors 0 get.view 1 (fresh 0)).1.trace
          ≡ rising before_called 0 n [])
      × Verdict config.interceptors get.view 1
          (fresh 0).world
          n
          (run_before same same service config config.interceptors 0 get.view 1 (fresh 0)).0.1)
    × ((run_after same same service config get.view none nil (fresh 0)).trace
        ≡ falling after_called 0 (length config.interceptors) [])
run_before-run_after_order_example =
    run_before-run_after_order same same service config get.view get.view 1 none nil (fresh 0)
      (fresh 0)

-- the service's answers as numbers of its calls
abbrev numbers : JsonService ℕ String ℕ
numbers = record {
  do_request = executor_funnel same same service config;
  read = λ b n w. (("7", nil), w);
  close = λ b w. w;
  add_query = λ u q. (u, nil);
  marshal = λ b. (b, nil);
  unmarshal = λ b. (7, nil);
  error_message = λ b. ("", opaque "no JSON");
}

abbrev create : JsonCall String
create = record {
  method = "POST";
  url = "https://ast.example.net/api/projects";
  query = [];
  body = some "{}";
  expected = 201 ∷ 200 ∷ [];
  wants_out = true;
}

do_json-Answers_example : Answers numbers create 0 (do_json numbers create 0).0
do_json-Answers_example =
    do_json-Answers numbers create (executor-IsFunnel same same service config service-IsClient) 0
