-- ===== src/Egress/Mock.antt =====
-- ci/egress/mock: the upstream's stand-in. handler.go records the Authorization header of every request
-- and answers by the path; main.go prints the recorded values, sorted, each once. `path` is that of a
-- request which http.ServeMux has not redirected.
pub mod Printed
use cc_mysub.Base.{
  ℕ, Bytes, codes, Bool, true, false, not, ◌&&◌, equal, is_empty, contains, List, [], ◌∷◌, ◌++◌,
  map, if◌then◌else◌,
}
use cc_mysub.Egress.Sorting.{sort}

pub record Recorder : Type 0 where
  pub auths : List Bytes

unfoldable pub add : Recorder → Bytes → Recorder
add r a = record { auths = r.auths ++ a ∷ [] }

pub record Request : Type 0 where
  pub path : Bytes
  pub authorization : Bytes
  pub body : Bytes

-- The writes of a response, in their order.
pub record Response : Type 0 where
  pub content_type : Bytes
  pub writes : List Bytes

abbrev pub json : Bytes → Response
json body = record { content_type = codes "application/json"; writes = body ∷ [] }

-- send
abbrev pub event : Bytes → Bytes → Bytes
event name body = codes "event: " ++ (name ++ (codes "\ndata: " ++ (body ++ codes "\n\n")))

abbrev pub message : Bytes
message =
    codes
      "{\"id\":\"msg_mock\",\"type\":\"message\",\"role\":\"assistant\",\"model\":\"claude-opus-4-8\",\"content\":[{\"type\":\"text\",\"text\":\"ok\"}],\"stop_reason\":\"end_turn\",\"usage\":{\"input_tokens\":12,\"output_tokens\":1}}"

abbrev pub message_start : Bytes
message_start =
    codes
      "{\"type\":\"message_start\",\"message\":{\"id\":\"msg_mock\",\"type\":\"message\",\"role\":\"assistant\",\"model\":\"claude-opus-4-8\",\"content\":[],\"stop_reason\":null,\"usage\":{\"input_tokens\":12,\"output_tokens\":1}}}"

abbrev pub content_block_start : Bytes
content_block_start =
    codes
      "{\"type\":\"content_block_start\",\"index\":0,\"content_block\":{\"type\":\"text\",\"text\":\"\"}}"

abbrev pub content_block_delta : Bytes
content_block_delta =
    codes
      "{\"type\":\"content_block_delta\",\"index\":0,\"delta\":{\"type\":\"text_delta\",\"text\":\"ok\"}}"

abbrev pub content_block_stop : Bytes
content_block_stop = codes "{\"type\":\"content_block_stop\",\"index\":0}"

abbrev pub message_delta : Bytes
message_delta =
    codes
      "{\"type\":\"message_delta\",\"delta\":{\"stop_reason\":\"end_turn\"},\"usage\":{\"output_tokens\":1}}"

abbrev pub message_stop : Bytes
message_stop = codes "{\"type\":\"message_stop\"}"

abbrev pub stream : Response
stream = record {
  content_type = codes "text/event-stream";
  writes =
      event (codes "message_start") message_start
      ∷ event (codes "content_block_start") content_block_start
      ∷ event (codes "content_block_delta") content_block_delta
      ∷ event (codes "content_block_stop") content_block_stop
      ∷ event (codes "message_delta") message_delta
      ∷ event (codes "message_stop") message_stop
      ∷ [];
}

abbrev pub messages : Bytes → Response
messages body = if not (contains body (codes "\"stream\":true")) then json message else stream

-- newMux
unfoldable pub respond : Request → Response
unfolding equal contains
respond r =
    if equal r.path (codes "/v1/messages/count_tokens")
    then json (codes "{\"input_tokens\":12}")
    else if equal r.path (codes "/v1/messages")
    then messages r.body
    else json (codes "{}")

unfoldable pub serve : Recorder → Request → Recorder × Response
unfolding add respond
serve rec r = (add rec r.authorization, respond r)

unfoldable pub serve_all : Recorder → List Request → Recorder
unfolding serve
serve_all rec [] = rec
serve_all rec (r ∷ rs) = serve_all (serve rec r).0 rs

-- The loop over the sorted values, with the last one that was printed.
unfoldable pub dedupe : Bytes → List Bytes → List Bytes
unfolding equal
dedupe last [] = []
dedupe last (a ∷ rest) = if not (equal a last) then a ∷ dedupe a rest else dedupe last rest

unfoldable pub printed : Recorder → List Bytes
unfolding sort dedupe
printed rec = dedupe [] (sort rec.auths)

-- Whether the server speaks TLS: both files are named.
abbrev pub serves_tls : Bytes → Bytes → Bool
serves_tls cert key = not (is_empty cert) && not (is_empty key)
