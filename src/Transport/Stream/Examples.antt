-- ===== src/Transport/Stream/Examples.antt =====
-- internal/transport/streamexec.go and internal/transport/graphql.go: the theorems at concrete
-- inputs.
use cxone_sdk_golang.Prelude.{ℕ, refl, inr, true, String, [], ◌∷◌}
use cxone_sdk_golang.Errors.{Error, nil}
use cxone_sdk_golang.Scripted.Http.{answering}
use cxone_sdk_golang.Transport.Json.{JsonService, do_json}
use cxone_sdk_golang.Transport.Json.Outcome.{IsFunnel}
use cxone_sdk_golang.Transport.Stream.{Funnel, StreamCall, do_stream}
use cxone_sdk_golang.Transport.Stream.Outcome.{Streams, do_stream-Streams}
use cxone_sdk_golang.Transport.Graphql.{
  graphql_call, GraphqlRequest, GraphqlResponse, Executes, execute, execute-Executes,
}

abbrev bytes : Funnel ℕ
bytes = answering (λ n. "PK")

bytes-IsFunnel : IsFunnel bytes.do_request
bytes-IsFunnel req w = inr (refl, (_, refl))

abbrev download : StreamCall
download = record {
  method = "GET";
  url = "https://ast.example.net/api/reports/json/r-1/download";
  query = [];
  expected = 200 ∷ [];
}

do_stream-Streams_example : Streams bytes download 0 (do_stream bytes download 0)
do_stream-Streams_example = do_stream-Streams bytes download bytes-IsFunnel 0

abbrev graphql : JsonService ℕ (GraphqlRequest Unit) GraphqlResponse
graphql = record {
  do_request = bytes.do_request;
  read = bytes.read;
  close = bytes.close;
  add_query = bytes.add_query;
  marshal = λ b. ("{}", nil);
  unmarshal = λ s. (record { payload = "7"; errors = "field x: denied" ∷ [] }, nil);
  error_message = bytes.error_message;
}

abbrev endpoint : String
endpoint = "https://ast.example.net/api/sca/graphql"

abbrev number : String → ℕ × Error
number s = (7, nil)

execute-Executes_example :
    Executes graphql number endpoint
      (do_json graphql (graphql_call graphql number endpoint "{ x }" tt) 0).0
      true
      0
      (execute graphql number endpoint "{ x }" tt true 0).0
execute-Executes_example = execute-Executes graphql number endpoint bytes-IsFunnel "{ x }" tt true 0
