-- ===== src/Pipeline/Tests.antt =====
-- The middlewares before three handlers, with a c.JSON that always succeeds.
use msa_core.Prelude.{ℕ, ◌+◌, ◌≡◌, refl, true, false, none, some, [], ◌∷◌, ◌++◌, arith}
use msa_core.Prelude.Int.{pos}
use msa_core.Prelude.Run.{panic, ret, type_assertion}
use msa_core.Pipeline.{
  started, text, other, http_error, Request, Handler, Json, get_processing_time, response_handler,
  error_handler, validation_error_handler,
}
use msa_core.Pipeline.Helper.{not_found, fail}
use msa_core.Pipeline.Tracing.{
  Incoming, Answered, Seen, traced, is_write_operation, before_calls, after_calls, span_status,
  set_attributes, http_method, http_url, http_route, string_attribute, http_request_content_length,
  http_status_code, http_response_content_length, status_ok, record_error, span_end,
}
use msa_core.Pipeline.Chain.{chain, Answers, chain-Answers}

abbrev json : Json ℕ
json code b c = (none, record c { written = c.written ++ (code, b) ∷ []; status = code })

abbrev request : Request ℕ
request = record {
  start_time = none;
  response_data = none;
  response_message = none;
  status = 200;
  written = [];
  header = "";
  clock = 5;
}

abbrev missing : Handler ℕ
missing c = ret (some (http_error 404 (text "no such farm")), record c { clock = c.clock + 7 })

abbrev odd : Handler ℕ
odd c = ret (some (http_error 404 (other 3)), c)

not_text : chain json odd request ≡ panic type_assertion
unfolding response_handler error_handler validation_error_handler
not_text = refl

timed_reply :
    (not_found json "gone" (record request { start_time = some (started 2) })).1.status ≡ 404
unfolding not_found fail
timed_reply = refl

elapsed : get_processing_time (record request { start_time = some (started 2) }) ≡ pos 3
unfolding get_processing_time
elapsed = refl

abbrev after : Request ℕ
after = record request { start_time = some (started 5); clock = 12 }

chain-Answers_example :
    Answers (chain json missing request) 5 after (some (http_error 404 (text "no such farm")))
chain-Answers_example =
    chain-Answers json missing request after (some (http_error 404 (text "no such farm")))
      (λ code b c. refl) refl refl refl (omega arith)

-- the context counts the spans that were started
abbrev incoming : Incoming ℕ
incoming = record {
  method = "POST";
  path = "";
  url_path = "/orders";
  url = "/orders";
  user_agent = "";
  content_length = pos 0;
  real_ip = "";
  context = 0;
}

abbrev failing : Seen ℕ → Answered ℕ
failing seen = record { status = 200; size = pos 0; error = some seen.context }

failure_is_ok : traced (λ status. "") (λ c. c) (λ c name. c + 1) failing incoming ≡ (
  failing (record { context = 1; span_stored = true }),
  some (
      set_attributes (
        http_method "POST"
        ∷ http_url "/orders"
        ∷ http_route ""
        ∷ string_attribute "http.user_agent" ""
        ∷ http_request_content_length (pos 0)
        ∷ [])
      ∷ set_attributes (http_status_code 200 ∷ http_response_content_length (pos 0) ∷ [])
      ∷ status_ok "Request processed successfully"
      ∷ record_error 1
      ∷ span_end
      ∷ []),
)
unfolding traced is_write_operation before_calls after_calls span_status
failure_is_ok = refl

read_untraced :
    traced (λ status. "") (λ c. c) (λ c name. c + 1) failing (record incoming { method = "GET" })
    ≡ (failing (record { context = 0; span_stored = false }), none)
unfolding traced is_write_operation
read_untraced = refl
