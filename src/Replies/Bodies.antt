-- ===== src/Replies/Bodies.antt =====
-- No body that was used before shows in a later one.
use pack_service.Base.{ℕ, zero, suc, ◌≡◌, refl, List, [], ◌∷◌, map, some, All}
use pack_service.I18n.{default_messages, translate, get_locale}
use pack_service.Replies.{
  ErrorResponse, blank_success, blank_error, Pools, get_pooled, Sent, sent_success, sent_error,
  error_code_from_status, Request, success, error_with_message, error_with_key, Call, success_of,
  error_of, message_of, run_call, run_calls,
}
use Prim.Native.String.{String}

abbrev pub AllBlank : {B : Type 0} → B → List B → Type 0
AllBlank fresh pool = All (λ b. b ≡ fresh) pool

-- What a pool of blank bodies hands out is blank, and so is what it keeps.
get_pooled-AllBlank :
    {B : Type 0} (fresh : B) (pick : ℕ) (pool : List B)
    → AllBlank fresh pool
    → ((get_pooled fresh pick pool).0 ≡ fresh) × AllBlank fresh (get_pooled fresh pick pool).1
unfolding get_pooled
get_pooled-AllBlank fresh pick [] h = (refl, tt)
get_pooled-AllBlank fresh zero (b ∷ pool) h = h
get_pooled-AllBlank fresh (suc pick) (b ∷ pool) h =
    let rest = get_pooled-AllBlank fresh pick pool h.1 in (rest.0, (h.0, rest.1))

-- What a call sends, said without pools
abbrev error_body : ℕ → String → Request → ErrorResponse
error_body status message req = record {
  error = error_code_from_status status;
  message = message;
  details = [];
  request_id = req.request_id;
  timestamp = req.now;
  trace_id = "";
}

module _ {A : Type 0} where
  abbrev pub AreBlank : Pools A → Type 0
  AreBlank pools = AllBlank blank_success pools.successes × AllBlank blank_error pools.errors

  module _ (unicode_lower : ℕ → ℕ) where
    abbrev pub body_of : Call A × Request → Sent A
    body_of (success_of status value, req) =
        sent_success status
          (record { data_ = some value; request_id = req.request_id; timestamp = req.now })
    body_of (error_of status key, req) = sent_error status (
        error_body status
          (translate default_messages key (get_locale unicode_lower req.accept_language)) req)
    body_of (message_of status message, req) = sent_error status (error_body status message req)

    error_with_message-body :
        (status : ℕ) (message : String) (req : Request) (pools : Pools A)
        → AreBlank pools
        → AreBlank (error_with_message status message req pools).0
          × ((error_with_message status message req pools).1
              ≡ sent_error status (error_body status message req))
    unfolding error_with_message
    error_with_message-body status message req pools h =
        let (blank, rest) = get_pooled-AllBlank blank_error req.pick pools.errors h.1 in
        ((h.0, (refl, rest)), rw blank refl)

    run_call-body :
        (call : Call A) (req : Request) (pools : Pools A)
        → AreBlank pools
        → AreBlank (run_call unicode_lower call req pools).0
          × ((run_call unicode_lower call req pools).1 ≡ body_of (call, req))
    unfolding run_call success error_with_key
    run_call-body (success_of status value) req pools h =
        let (blank, rest) = get_pooled-AllBlank blank_success req.pick pools.successes h.0 in
        (((refl, rest), h.1), refl)
    run_call-body (error_of status key) req pools h = error_with_message-body status _ req pools h
    run_call-body (message_of status message) req pools h =
        error_with_message-body status message req pools h

    -- From pools that hold only blank bodies, and whatever bodies they hand out: every sequence of
    -- calls of the builder sends, for each call, a body that is made of its own arguments and of
    -- nothing else, and leaves pools that hold only blank bodies.
    pub run_calls-bodies :
        (calls : List (Call A × Request)) (pools : Pools A)
        → AreBlank pools
        → ((run_calls unicode_lower calls pools).1 ≡ map body_of calls)
          × AreBlank (run_calls unicode_lower calls pools).0
    unfolding run_calls
    run_calls-bodies [] pools h = (refl, h)
    run_calls-bodies ((call, req) ∷ calls) pools h =
        let (blank, sent) = run_call-body call req pools h in
        let (rest, last) = run_calls-bodies calls (run_call unicode_lower call req pools).0 blank in
        (rw (sent, rest) refl, last)
