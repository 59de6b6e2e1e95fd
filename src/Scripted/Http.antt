-- ===== src/Scripted/Http.antt =====
-- For the examples: a funnel that answers every request with status 200 and a text that goes by the
-- number of requests before it, and JSON that goes by these texts.
use cxone_sdk_golang.Prelude.{ℕ, ◌+◌, false, String, none, some, []}
use cxone_sdk_golang.Errors.{nil, opaque}
use cxone_sdk_golang.Transport.Stream.{Funnel}
use cxone_sdk_golang.Endpoints.{Codec}

abbrev pub answering : (ℕ → String) → Funnel ℕ
answering text = record {
  do_request = λ req w. (
    (
      some (record {
        status_code = 200;
        header = [];
        body = some w;
        closes_timer = false;
        attempt = 1;
        correlation_id = "";
      }),
      nil,
    ),
    w + 1,
  );
  read = λ b n w. ((elim b [ none ↦ "" | some k ↦ text k ], nil), w);
  close = λ b w. w;
  add_query = λ u q. (u, nil);
  error_message = λ s. ("", opaque "no JSON");
}

-- texts that decode to what a function says
abbrev pub decoding : {B A : Type 0} → (String → A) → Codec B A
decoding f = record { marshal = λ b. ("{}", nil); unmarshal = λ s. (f s, nil) }
