-- ===== src/Auth/Examples.antt =====
-- auth: the theorems at concrete inputs.
use cxone_sdk_golang.Prelude.{
  ℕ, ◌+◌, ◌≡◌, refl, map, [], ◌∷◌, arith, true, ◌==◌, if◌then◌else◌, false, eq_iff, some,
}
use cxone_sdk_golang.Scripted.{quiet, by_clock}
use cxone_sdk_golang.Errors.{nil, opaque}
use cxone_sdk_golang.Retry.{default_policy}
use cxone_sdk_golang.Auth.Fetch.{answered, TokenService, TokenConfig, post_form}
use cxone_sdk_golang.Auth.Fetch.Result.{IsTokenClient, Fetched, post_form-result}
use cxone_sdk_golang.Auth.Cache.{Fetcher, Cached, has_token, token, close, refresh_all}
use cxone_sdk_golang.Auth.Cache.Herd.{refresh_all_herd, token-close}
use cxone_sdk_golang.Auth.Cache.Threads.{
  System, Reach, start, here, next, call, enter, waiting, fetching, update, is_hit,
  one_needed_fetch,
}
use cxone_sdk_golang.Auth.Cache.Threads

-- a fetcher that counts its fetches in the world
abbrev counting : Fetcher ℕ
counting = record { fetch = λ w. (("t1", nil), w + 1); close = λ w. w }

abbrev stale : Cached
stale = record { token = "t0"; gen = 4 }

refresh_all_herd_example : refresh_all counting (4 ∷ 3 ∷ 4 ∷ []) stale 0 ≡ (
  map {A = ℕ} (λ h. record { token = "t1"; gen = 5; err = nil }) (4 ∷ 3 ∷ 4 ∷ []),
  record { token = "t1"; gen = 5 },
  1,
)
refresh_all_herd_example =
    refresh_all_herd counting 4 (3 ∷ 4 ∷ []) stale 0 "t1" (omega arith) (omega arith) (omega arith)
      refl (ground (arith, eq_iff "t1" ""))

token-close_example : token counting (close counting stale 0).0 (close counting stale 0).1 ≡ (
  record { token = "t1"; gen = 5; err = nil },
  record { token = "t1"; gen = 5 },
  (counting.fetch (close counting stale 0).1).1,
)
unfolding close
token-close_example = token-close counting stale 0 "t1" (omega arith) refl

abbrev called : System ℕ
called = record (start counting 0) { pc = update (λ i. Threads.idle) 7 (waiting Threads.token) }

abbrev entered : System ℕ
entered = record called { owner = some 7; pc = update called.pc 7 (fetching Threads.token) }

entered_reached : Reach counting 0 entered
unfolding has_token
entered_reached =
    next {s = called} (next {s = start counting 0} here (call 7 Threads.token refl refl))
      (enter 7 Threads.token refl refl refl refl)

one_needed_fetch_example : (◌≡◌ {A = ℕ} 7 7) × (is_hit Threads.token entered.cache ≡ false)
one_needed_fetch_example =
    one_needed_fetch counting 0 entered entered_reached 7 7 Threads.token Threads.token refl refl

-- an IAM that is busy at first, then gives a token
abbrev iam : TokenService ℕ
iam = record {
  ctx = quiet;
  int63n = by_clock;
  encode = λ form. "grant_type=refresh_token";
  build = λ u. nil;
  post = λ r w. (
    answered (record {
      status = "OK";
      status_code = if w == 0 then 503 else 200;
      body = record { read = λ n v. (("t1", nil), v + 1); close = λ v. v };
    }),
    w,
  );
  decode_token = λ b. (b, nil);
  decode_error = λ b. (("", ""), opaque "not JSON");
  trim_space = λ b. b;
  redact = λ b. b;
}

abbrev at_iam : TokenConfig
at_iam = record {
  has_client = true;
  token_url = "https://iam.example.net/token";
  user_agent = "";
  policy = default_policy;
}

iam-IsTokenClient : IsTokenClient iam
iam-IsTokenClient r w e h = absurd (ground arith)

post_form-result_example : Fetched (post_form iam at_iam (("grant_type", "refresh_token") ∷ []) 0).0
post_form-result_example =
    post_form-result iam at_iam iam-IsTokenClient (("grant_type", "refresh_token") ∷ []) 0
