-- ===== src/Rpc/Tests.antt =====
-- A call with an id, and a notification.
use tantra.Prelude.{String, ◌≡◌, refl, false, Option, none, some, ◌==◌, if◌then◌else◌}
use tantra.Json.{Json, Fields, null, int, text, object, nil, field, field_of}
use tantra.Rpc.{Handled, Response, returns, result, handle, settle, called_method}
use tantra.Rpc.Answers.{answered_id, handle-answered_id}

abbrev handlers : String → Option (Option Json → Handled)
handlers method = if method == "ping" then some (λ _. returns null false) else none

abbrev ping : Fields
ping = field "jsonrpc" (text "2.0") (field "id" (int 7) (field "method" (text "ping") nil))

abbrev pong : Response
pong = record { id = int 7; body = result null }

ping_called : called_method ping ≡ some "ping"
unfolding called_method field_of
ping_called = refl

ping_answered : handle handlers false false (object ping) ≡ some (some pong, false)
unfolding handle settle called_method field_of
ping_answered = refl

handle-answered_id_example : answered_id (some pong) ≡ field_of ping "id"
unfolding field_of
handle-answered_id_example =
    handle-answered_id handlers false false ping "ping" (some pong) false refl ping_called
      ping_answered
