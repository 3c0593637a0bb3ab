-- ===== src/Replies.antt =====
-- internal/http/request_builder.go: the responses that the handlers send, with the pools that their
-- bodies come from, and internal/domain/dto/response.go. A pool hands out any body that was
-- returned to it, or a new one, as `sync.Pool` documents: each call is given the number of the body
-- that it gets. A call that overlaps with others is given one that they do not hold. The zero time
-- is 0. What is sent is the body as it is when `JSON` encodes it.
pub mod Bodies
mod Examples
use pack_service.Base.{ℕ, zero, suc, Bool, List, [], ◌∷◌, Option, none, some, ◌==◌, if◌then◌else◌}
use pack_service.I18n.{default_messages, translate, get_locale}
use pack_service.Text.{Text}
use Prim.Native.String.{String}

-- `SuccessResponse`
pub record SuccessResponse (A : Type 0) : Type 0 where
  pub data_ : Option A
  pub request_id : String
  pub timestamp : ℕ

-- `ErrorResponse`
pub record ErrorResponse : Type 0 where
  pub error : String
  pub message : String
  pub details : List (String × String)
  pub request_id : String
  pub timestamp : ℕ
  pub trace_id : String

abbrev pub blank_success : {A : Type 0} → SuccessResponse A
blank_success = record { data_ = none; request_id = ""; timestamp = 0 }

abbrev pub blank_error : ErrorResponse
blank_error = record {
  error = "";
  message = "";
  details = [];
  request_id = "";
  timestamp = 0;
  trace_id = "";
}

-- The two pools
pub record Pools (A : Type 0) : Type 0 where
  pub successes : List (SuccessResponse A)
  pub errors : List ErrorResponse

-- `Get` of a pool whose `New` makes `fresh`, where it picks the body of this number.
unfoldable pub get_pooled : {B : Type 0} → B → ℕ → List B → B × List B
get_pooled fresh pick [] = (fresh, [])
get_pooled fresh zero (b ∷ pool) = (b, pool)
get_pooled fresh (suc pick) (b ∷ pool) =
    let (taken, rest) = get_pooled fresh pick pool in (taken, b ∷ rest)

-- `ErrCodeFromStatus`
unfoldable pub error_code_from_status : ℕ → String
error_code_from_status status =
    if status == 400
    then "invalid_request"
    else if status == 401
    then "unauthorized"
    else if status == 403
    then "forbidden"
    else if status == 404
    then "not_found"
    else if status == 409
    then "conflict"
    else if status == 429
    then "rate_limit_exceeded"
    else if status == 504
    then "timeout"
    else if status == 408
    then "timeout"
    else "internal_error"

-- A body that was sent, with its status
pub data Sent (A : Type 0) : Type 0 where
  sent_success : ℕ → SuccessResponse A → Sent A
  sent_error : ℕ → ErrorResponse → Sent A

-- What a call of the builder knows of its request: the request id, the header Accept-Language, the
-- time, and the body that the pool hands out.
pub record Request : Type 0 where
  pub request_id : String
  pub accept_language : Text
  pub now : ℕ
  pub pick : ℕ

-- `putSuccessResponse` and `putErrorResponse`: the fields are cleared one by one.
abbrev pub put_success :
    {A : Type 0} → SuccessResponse A → List (SuccessResponse A) → List (SuccessResponse A)
put_success resp pool = record resp { data_ = none; request_id = ""; timestamp = 0 } ∷ pool

abbrev pub put_error : ErrorResponse → List ErrorResponse → List ErrorResponse
put_error resp pool =
    record resp {
      error = "";
      message = "";
      request_id = "";
      timestamp = 0;
      details = [];
      trace_id = "";
    }
    ∷ pool

module _ {A : Type 0} where
  -- `Success`
  unfoldable pub success : ℕ → A → Request → Pools A → Pools A × Sent A
  unfolding get_pooled
  success status value req pools =
      let (taken, rest) = get_pooled blank_success req.pick pools.successes in
      let resp : SuccessResponse A = record taken {
        data_ = some value;
        request_id = req.request_id;
        timestamp = req.now;
      } in
      (record pools { successes = put_success resp rest }, sent_success status resp)

  -- `ErrorWithMessage`
  unfoldable pub error_with_message : ℕ → String → Request → Pools A → Pools A × Sent A
  unfolding get_pooled error_code_from_status
  error_with_message status message req pools =
      let (taken, rest) = get_pooled blank_error req.pick pools.errors in
      let resp : ErrorResponse = record taken {
        error = error_code_from_status status;
        message = message;
        request_id = req.request_id;
        timestamp = req.now;
      } in
      (record pools { errors = put_error resp rest }, sent_error status resp)

  -- `Error`: the same with a message that is translated first
  unfoldable pub error_with_key : (ℕ → ℕ) → ℕ → String → Request → Pools A → Pools A × Sent A
  unfolding error_with_message
  error_with_key unicode_lower status key req pools =
      error_with_message status
        (translate default_messages key (get_locale unicode_lower req.accept_language)) req pools

-- The calls of the builder: `SuccessOK`, `SuccessCreated` and `SuccessAccepted` are successes with
-- the statuses 200, 201 and 202.
pub data Call (A : Type 0) : Type 0 where
  success_of : ℕ → A → Call A
  error_of : ℕ → String → Call A
  message_of : ℕ → String → Call A

module _ {A : Type 0} (unicode_lower : ℕ → ℕ) where
  unfoldable pub run_call : Call A → Request → Pools A → Pools A × Sent A
  unfolding success error_with_key error_with_message
  run_call (success_of status value) req pools = success status value req pools
  run_call (error_of status key) req pools = error_with_key unicode_lower status key req pools
  run_call (message_of status message) req pools = error_with_message status message req pools

  unfoldable pub run_calls : List (Call A × Request) → Pools A → Pools A × List (Sent A)
  unfolding run_call
  run_calls [] pools = (pools, [])
  run_calls ((call, req) ∷ calls) pools =
      let (later, sent) = run_call call req pools in
      let (last, rest) = run_calls calls later in (last, sent ∷ rest)
