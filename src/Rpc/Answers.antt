-- ===== src/Rpc/Answers.antt =====
-- Calls are answered under their ids, and notifications are not answered.
use tantra.Prelude.{
  String, ◌≡◌, refl, Bool, true, inl, inr, Option, none, some, arith, Option-cases,
}
use tantra.Json.{Json, Fields, object, field_of}
use tantra.Rpc.{
  Response, Handled, returns, is_cancelled, rpc_error, fails, settle, handle, called_method,
  valid_id, if_asked, id_of,
}

abbrev pub answered_id : Option Response → Option Json
answered_id none = none
answered_id (some r) = some r.id

answered_id-if_asked :
    (fields : Fields) (r : Response)
    → r.id ≡ id_of fields
    → answered_id (if_asked fields r) ≡ field_of fields "id"
answered_id-if_asked fields r h = elim (Option-cases (field_of fields "id")) [
  | inl p ↦ rw p refl
  | inr (id, p) ↦ ground arith
]

module _ (handlers : String → Option (Option Json → Handled)) (cancelled closed : Bool) where
  settle-answered :
      (fields : Fields) (h : Handled) (response : Option Response) (follow_up : Bool)
      → settle handlers cancelled closed fields h ≡ some (response, follow_up)
      → answered_id response ≡ field_of fields "id"
  unfolding settle
  settle-answered fields (returns value f) response follow_up e =
      ground (arith, answered_id-if_asked fields)
  settle-answered fields is_cancelled response follow_up e = ground arith
  settle-answered fields (rpc_error c m d) response follow_up e =
      ground (arith, answered_id-if_asked fields)
  settle-answered fields fails response follow_up e = ground (arith, answered_id-if_asked fields)

  -- A well-formed call that is handled to its end is answered under its id when it has one, and not
  -- answered when it has none, whatever its handler does and whether it has one.
  pub handle-answered_id :
      (fields : Fields) (method : String) (response : Option Response) (follow_up : Bool)
      → valid_id (field_of fields "id") ≡ true
      → called_method fields ≡ some method
      → handle handlers cancelled closed (object fields) ≡ some (response, follow_up)
      → answered_id response ≡ field_of fields "id"
  unfolding handle
  handle-answered_id fields method response follow_up v c h =
      elim (Option-cases (handlers method)) [
        | inl p ↦ ground (arith, answered_id-if_asked fields)
        | inr (handler, p) ↦
            settle-answered fields (handler (field_of fields "params")) response follow_up
              (ground arith)
      ]
