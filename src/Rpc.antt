-- ===== src/Rpc.antt =====
-- acp/jsonrpc.py: how a `Peer` answers a message, `_handle`. What a handler does is its `Handled`.
-- The transport and the tasks are not modelled.
mod Tests
pub mod Answers
use tantra.Prelude.{
  ℕ, String, Bool, true, false, ◌&&◌, ◌||◌, not, Option, none, some, ◌==◌, eqb, if◌then◌else◌,
  is_some, or_text,
}
use tantra.Prelude.Int.{ℤ, pos, negsuc}
use tantra.Json.{Json, Fields, null, int, negative, text, array, object, field_of}

abbrev pub parse_error : ℤ
parse_error = negsuc 32699

abbrev pub invalid_request : ℤ
invalid_request = negsuc 32599

abbrev pub method_not_found : ℤ
method_not_found = negsuc 32600

abbrev pub internal_error : ℤ
internal_error = negsuc 32602

abbrev pub request_cancelled : ℤ
request_cancelled = negsuc 32799

-- `MESSAGES.get(code, "Error")`
abbrev pub message_of : ℤ → String
message_of (pos _) = "Error"
message_of (negsuc n) =
    if eqb n 32699
    then "Parse error"
    else if eqb n 32599
    then "Invalid request"
    else if eqb n 32600
    then "Method not found"
    else if eqb n 32601
    then "Invalid params"
    else if eqb n 32602
    then "Internal error"
    else if eqb n 32799
    then "Request cancelled"
    else if eqb n 32001
    then "Resource not found"
    else "Error"

pub data Body : Type 0 where
  result : Json → Body
  error : ℤ → String → Option Json → Body

pub record Response : Type 0 where
  pub id : Json
  pub body : Body

-- what the handler does: it returns, with a follow-up or without, is cancelled, raises `RpcError` or
-- another exception
pub data Handled : Type 0 where
  returns : Json → Bool → Handled
  is_cancelled : Handled
  rpc_error : ℤ → Option String → Option Json → Handled
  fails : Handled

-- `_valid_id(message.get("id"))`
abbrev pub valid_id : Option Json → Bool
valid_id none = true
valid_id (some null) = true
valid_id (some (int _)) = true
valid_id (some (negative _)) = true
valid_id (some (text _)) = true
valid_id _ = false

abbrev pub id_of : Fields → Json
id_of fields = elim (field_of fields "id") [ none ↦ null | some id ↦ id ]

-- `_error`
abbrev pub error_response : Json → ℤ → Option String → Option Json → Response
error_response id code message details = record {
  id = id;
  body = error code (elim (or_text message none) [ none ↦ message_of code | some m ↦ m ]) details;
}

abbrev pub valid_params : Option Json → Bool
valid_params none = true
valid_params (some null) = true
valid_params (some (array _)) = true
valid_params (some (object _)) = true
valid_params _ = false

abbrev pub is_version : Option Json → Bool
is_version (some (text v)) = v == "2.0"
is_version _ = false

abbrev pub method_of : Option Json → Option String
method_of (some (text m)) = some m
method_of _ = none

-- the method, where the message is a well-formed call
unfoldable pub called_method : Fields → Option String
called_method fields =
    if is_version (field_of fields "jsonrpc") && valid_params (field_of fields "params")
    then method_of (field_of fields "method")
    else none

-- a response only where the message has an id
abbrev pub if_asked : Fields → Response → Option Response
if_asked fields response = if is_some (field_of fields "id") then some response else none

module _ (handlers : String → Option (Option Json → Handled)) (cancelled closed : Bool) where
  -- what the handler's end turns into; `none` is the exception `CancelledError`. `cancelled` is
  -- whether the peer asked for the cancellation.
  unfoldable pub settle : Fields → Handled → Option (Option Response × Bool)
  settle fields (returns value follow_up) =
      some (if_asked fields (record { id = id_of fields; body = result value }), follow_up)
  settle fields is_cancelled =
      if not (is_some (field_of fields "id")) || not cancelled || closed
      then none
      else some (some (error_response (id_of fields) request_cancelled none none), false)
  settle fields (rpc_error code message details) =
      some (if_asked fields (error_response (id_of fields) code message details), false)
  settle fields fails =
      some (if_asked fields (error_response (id_of fields) internal_error none none), false)

  -- `_handle`: a response, if there is one, and whether a follow-up comes after it
  unfoldable pub handle : Json → Option (Option Response × Bool)
  unfolding settle called_method
  handle (object fields) =
      if not (valid_id (field_of fields "id"))
      then some (some (error_response null invalid_request none none), false)
      else elim (called_method fields) [
        | none ↦ some (some (error_response (id_of fields) invalid_request none none), false)
        | some method ↦ elim (handlers method) [
          | none ↦
              some
                (if_asked fields (error_response (id_of fields) method_not_found none none), false)
          | some handler ↦ settle fields (handler (field_of fields "params"))
        ]
      ]
  handle _ = some (some (error_response null invalid_request none none), false)
