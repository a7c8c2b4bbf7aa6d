-- ===== src/Session/Delivery.antt =====
-- live-runner/callback.go: the delivery of the head of an outbox, and the sweep of one session.
use livepeer_modules_transco.Prelude.{
  ℕ, zero, suc, Bool, true, false, not, ◌&&◌, ◌||◌, Option, none, some, List, [], ◌∷◌, ◌++◌, ltb,
  leb, ◌==◌, if◌then◌else◌, length, Bytes, codes, is_empty, elem, format_uint, Error,
  callback_not_due, invalid, Result, ok, err, ◌>>=◌,
}
use livepeer_modules_transco.Contract.Types.{RunnerEvent}
use livepeer_modules_transco.Contract.Ident.{callback_error_code, is_active}
use livepeer_modules_transco.Session.Record.{
  World, SessionRecord, Change, after, CallbackDeliveryAttempt,
}
use livepeer_modules_transco.Session.Output.{parse_time}
use livepeer_modules_transco.Session.Callback.{
  status_retryable, reserve_callback_attempt, record_callback_retry_failure,
  park_callback_rejection, acknowledge_event, clear_terminal_secrets,
}

-- What the HTTP client returns: an error, or a status, with the members `error` and `code` of the
-- body if its first 4096 bytes are a JSON object.
pub data Response : Type 0 where
  transport_failed : Response
  answered : ℕ → Option (Bytes × Bytes) → Response

-- What DeliverNext returns: (false, nil), (true, nil), a CallbackDeliveryErrorV1, another error.
pub data Delivery : Type 0 where
  nothing_due delivered : Delivery
  delivery_failed : ℕ → Bytes → Bool → Delivery
  broken : Error → Delivery

abbrev broker_codes : List Bytes
broker_codes =
    codes "duplicate_event"
    ∷ codes "event_not_supported"
    ∷ codes "invalid_event"
    ∷ codes "sequence_conflict"
    ∷ codes "session_terminal"
    ∷ []

-- safeBrokerCallbackCodeV1.
unfoldable pub safe_broker_code : Bytes → Bool
unfolding callback_error_code elem
safe_broker_code code = callback_error_code code && elem code broker_codes

abbrev pub http_code : ℕ → Bytes
http_code status = codes "http_" ++ format_uint status

unfoldable pub body_code : ℕ → Option (Bytes × Bytes) → Bytes
unfolding safe_broker_code format_uint
body_code status none = http_code status
body_code status (some (error_member, code_member)) =
    if safe_broker_code error_member
    then error_member
    else if safe_broker_code code_member
    then code_member
    else http_code status

-- safeCallbackErrorCodeV1.
unfoldable pub safe_callback_error_code : ℕ → Option (Bytes × Bytes) → Bytes
unfolding body_code
safe_callback_error_code status body =
    if status == 401 || status == 403
    then codes "callback_auth_rejected"
    else if status == 404 || status == 410
    then codes "broker_session_terminal"
    else body_code status body

-- A call of the store, its error returned, and otherwise the outcome `d`.
abbrev pub settled :
    SessionRecord → Result (Change (Unit {0})) → Delivery → SessionRecord × Delivery
settled r (err e) d = (r, broken e)
settled r (ok change) d = (after r (ok change), d)

-- The part of DeliverNext after client.Do, on the record that is then stored.
unfoldable pub settle_delivery : SessionRecord → Bytes → ℕ → Response → SessionRecord × Delivery
unfolding status_retryable safe_callback_error_code
settle_delivery r id t transport_failed =
    settled r (record_callback_retry_failure r id 0 (codes "transport_error"))
      (delivery_failed 0 (codes "transport_error") true)
settle_delivery r id t (answered status body) =
    let code = safe_callback_error_code status body in
    if ltb status 200 || leb 300 status
    then if status_retryable status
      then settled r (record_callback_retry_failure r id status code)
          (delivery_failed status code true)
      else settled r (park_callback_rejection r id status code t)
          (delivery_failed status code false)
    else settled r (acknowledge_event r id) delivered

-- The cursor is checked before an attempt is reserved: whether the time has come.
unfoldable pub check_due : Option CallbackDeliveryAttempt → ℕ → Result Bool
check_due none t = ok true
check_due (some a) t = do
  due ← parse_time a.next_attempt_at (invalid "callback retry time is invalid")
  ok (not (ltb t due))

unfoldable pub not_reserved : Error → Delivery
not_reserved callback_not_due = nothing_due
not_reserved e = broken e

-- ReserveCallbackAttempt, and the request if the attempt is stored.
unfoldable pub post_reserved :
    SessionRecord
    → Bytes
    → ℕ
    → Response
    → Result (Change CallbackDeliveryAttempt)
    → SessionRecord × Delivery
unfolding settle_delivery not_reserved
post_reserved r id t response (err e) = (r, not_reserved e)
post_reserved r id t response (ok change) = settle_delivery (after r (ok change)) id t response

unfoldable pub post_due :
    World → SessionRecord → Bytes → ℕ → ℕ → ℕ → Response → Result Bool → SessionRecord × Delivery
unfolding post_reserved
post_due w r id t initial maximum response (err e) = (r, broken e)
post_due w r id t initial maximum response (ok false) = (r, nothing_due)
post_due w r id t initial maximum response (ok true) =
    post_reserved r id t response (reserve_callback_attempt w r id t initial maximum)

unfoldable pub has_secrets : SessionRecord → Bool
unfolding is_empty
has_secrets r = not (is_empty r.wrapped_key_ciphertext)

unfoldable pub deliver_head :
    World → SessionRecord → ℕ → ℕ → ℕ → Response → List RunnerEvent → SessionRecord × Delivery
unfolding post_due check_due has_secrets
deliver_head w r t initial maximum response [] = (r, nothing_due)
deliver_head w r t initial maximum response (e ∷ es) =
    if not (has_secrets r)
    then (r, broken (invalid "pending runner event has no callback credentials"))
    else post_due w r e.event_id t initial maximum response (check_due r.callback_delivery t)

-- DeliverNext on the loaded record, while no other operation runs on the session. Its operations are
-- steps of Session.Operations too, where any others may stand between them.
unfoldable pub deliver_next :
    World → SessionRecord → ℕ → ℕ → ℕ → Response → SessionRecord × Delivery
unfolding deliver_head
deliver_next w r t initial maximum response =
    deliver_head w r t initial maximum response r.pending_events

-- The clock and the client's answers in the order of the calls of DeliverNext.
pub record Client : Type 0 where
  pub clock : ℕ → ℕ
  pub response : ℕ → Response

-- What the loop of a sweep does after a call: it goes on, ends, or returns an error.
pub data Next : Type 0 where
  continues breaks : Next
  fails : Error → Next

unfoldable pub next_of : Delivery → Next
next_of delivered = continues
next_of nothing_due = breaks
next_of (delivery_failed status code retryable) = if retryable then breaks else continues
next_of (broken e) = fails e

-- What a loop that returns leaves in the store: the record, and the error if it returns one.
abbrev pub Swept : Type 0
Swept = SessionRecord × Option Error

-- The loop of SweepOnce over a session's snapshot, with `left` rounds left, from the client's `n`th call.
unfoldable pub drain : World → Client → ℕ → ℕ → ℕ → ℕ → SessionRecord → Swept
unfolding deliver_next next_of
drain w client initial maximum n zero r = (r, none)
drain w client initial maximum n (suc left) r =
    let sent = deliver_next w r (client.clock n) initial maximum (client.response n) in
    let rest = drain w client initial maximum (suc n) left sent.0 in
    elim (next_of sent.1) [
      | continues ↦ rest
      | breaks ↦ (sent.0, none)
      | fails e ↦ (sent.0, some e)
    ]

abbrev pub stored : SessionRecord → Result (Change (Unit {0})) → Swept
stored r (err e) = (r, some e)
stored r (ok change) = (after r (ok change), none)

-- The secrets of a session that is over and has nothing left to deliver are erased.
unfoldable pub erase_secrets : SessionRecord → Swept
unfolding has_secrets
erase_secrets r =
    if not (is_active r.state) && (length r.pending_events == 0 && has_secrets r)
    then stored r (clear_terminal_secrets r)
    else (r, none)

unfoldable pub end_sweep : Swept → Swept
unfolding erase_secrets
end_sweep (r, some e) = (r, some e)
end_sweep (r, none) = erase_secrets r

-- SweepOnce for one recoverable session.
unfoldable pub sweep_session : World → Client → ℕ → ℕ → SessionRecord → Swept
unfolding drain end_sweep
sweep_session w client initial maximum r =
    end_sweep (drain w client initial maximum 0 (length r.pending_events) r)
