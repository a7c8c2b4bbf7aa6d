-- ===== src/Session/Callback.antt =====
-- live-runner/store.go and callback.go: the outbox of events, their delivery and the retry policy.
use livepeer_modules_transco.Prelude.{
  ℕ, zero, suc, ◌+◌, ◌-◌, ◌*◌, ◌/◌, ◌%◌, Bool, true, false, not, ◌&&◌, ◌||◌, Option, none, some,
  List, [], ◌∷◌, ◌++◌, ltb, leb, ◌==◌, if◌then◌else◌, length, drop, Bytes, codes, str_eq, is_empty,
  format_uint, callback_not_due, invalid, Result, ok, err, ◌>>=◌, ◌>>◌, reject,
}
use livepeer_modules_transco.Contract.Types.{at, RunnerEvent}
use livepeer_modules_transco.Contract.Ident.{callback_error_code, is_active}
use livepeer_modules_transco.Session.Record.{
  World, SessionRecord, Change, saved, CallbackDeliveryAttempt, CallbackDeadLetter, u32_max,
  u64_max,
}
use livepeer_modules_transco.Session.Output.{parse_time}

abbrev pub max_dead_letters : ℕ
max_dead_letters = 32

-- validCallbackFailureV1.
unfoldable pub valid_callback_failure : ℕ → Bytes → Bool → Bool
unfolding callback_error_code is_empty
valid_callback_failure status code allow_transport =
    if status == 0
    then allow_transport && (is_empty code || str_eq code (codes "transport_error"))
    else leb 100 status && (leb status 599 && callback_error_code code)

-- callbackStatusRetryableV1.
unfoldable pub status_retryable : ℕ → Bool
status_retryable status = status == 408 || (status == 429 || (leb 500 status && leb status 599))

-- The doubling loop of callbackRetryDelayV1, with `rounds` rounds left.
unfoldable pub grow_delay : ℕ → ℕ → ℕ → ℕ
grow_delay zero base maximum = base
grow_delay (suc rounds) base maximum =
    let rest = grow_delay rounds (base * 2) maximum in
    if ltb base maximum then (if ltb (maximum / 2) base then maximum else rest) else base

-- The jitter: `factor` thousandths of the base, never above the maximum.
unfoldable pub jitter : ℕ → ℕ → ℕ → ℕ
jitter base maximum factor =
    if factor == 1000
    then base
    else if ltb factor 1000
    then base - (base / 1000) * (1000 - factor) - (base % 1000) * (1000 - factor) / 1000
    else let extra = (base / 1000) * (factor - 1000) + (base % 1000) * (factor - 1000) / 1000 in
      if ltb (maximum - base) extra then maximum else base + extra

-- callbackRetryDelayV1. Its seed is the digest of `eventID:attempt`.
unfoldable pub callback_retry_delay : World → Bytes → ℕ → ℕ → ℕ → ℕ
unfolding grow_delay jitter
callback_retry_delay w event_id attempt initial maximum =
    jitter (grow_delay (attempt - 1) initial maximum) maximum
      (750 + w.digest_prefix (event_id ++ b':' ∷ format_uint attempt) % 501)

-- `len(PendingEvents) == 0 || PendingEvents[0].EventID != eventID`.
unfoldable pub not_head : List RunnerEvent → Bytes → Bool
not_head [] id = true
not_head (e ∷ es) id = not (str_eq e.event_id id)

-- `CallbackDelivery == nil || CallbackDelivery.EventID != eventID`.
unfoldable pub not_attempted : Option CallbackDeliveryAttempt → Bytes → Bool
not_attempted none id = true
not_attempted (some a) id = not (str_eq a.event_id id)

abbrev pub tail : List RunnerEvent → List RunnerEvent
tail [] = []
tail (e ∷ es) = es

unfoldable pub acknowledge_event : SessionRecord → Bytes → Result (Change (Unit {0}))
unfolding not_head
acknowledge_event r id = do
  reject (not_head r.pending_events id) (invalid "event acknowledgement is out of order")
  ok (saved (record r { pending_events = tail r.pending_events; callback_delivery = none }) tt)

-- The number of the attempt that may be made at time `t`.
unfoldable pub next_attempt : Option CallbackDeliveryAttempt → Bytes → ℕ → Result ℕ
next_attempt none id t = ok 1
next_attempt (some a) id t = do
  reject (not (str_eq a.event_id id)) (invalid "callback attempt cursor is inconsistent")
  reject (a.attempts == u32_max) (invalid "callback attempt count overflow")
  due ← parse_time a.next_attempt_at (invalid "callback retry time is invalid")
  reject (ltb t due) callback_not_due
  ok (a.attempts + 1)

unfoldable pub attempt_at : World → Bytes → ℕ → ℕ → ℕ → ℕ → CallbackDeliveryAttempt
attempt_at w id attempts t initial maximum = record {
  event_id = id;
  attempts = attempts;
  last_attempt_at = at t;
  next_attempt_at = at (t + callback_retry_delay w id attempts initial maximum);
  last_status_code = 0;
  last_error_code = [];
}

unfoldable pub reserve_callback_attempt :
    World → SessionRecord → Bytes → ℕ → ℕ → ℕ → Result (Change CallbackDeliveryAttempt)
unfolding next_attempt attempt_at not_head is_empty
reserve_callback_attempt w r id t initial maximum = do
  reject (is_empty id || (t == 0 || (initial == 0 || ltb maximum initial)))
      (invalid "callback attempt policy is invalid")
  reject (not_head r.pending_events id) (invalid "callback attempt is out of order")
  attempts ← next_attempt r.callback_delivery id t
  let attempt = attempt_at w id attempts t initial maximum
  ok (saved (record r { callback_delivery = some attempt }) attempt)

unfoldable pub note_failure :
    Option CallbackDeliveryAttempt → ℕ → Bytes → Option CallbackDeliveryAttempt
note_failure none status code = none
note_failure (some a) status code =
    some (record a { last_status_code = status; last_error_code = code })

unfoldable pub record_callback_retry_failure :
    SessionRecord → Bytes → ℕ → Bytes → Result (Change (Unit {0}))
unfolding note_failure not_attempted not_head
record_callback_retry_failure r id status code = do
  reject (not (valid_callback_failure status code true))
      (invalid "callback retry failure is invalid")
  reject (not_attempted r.callback_delivery id || not_head r.pending_events id)
      (invalid "callback retry cursor is inconsistent")
  ok (saved (record r { callback_delivery = note_failure r.callback_delivery status code }) tt)

-- `append(letters, letter)`, and of a longer list than the limit its last 32.
unfoldable pub append_dead_letter :
    List CallbackDeadLetter → CallbackDeadLetter → List CallbackDeadLetter
append_dead_letter letters letter =
    drop (length (letters ++ letter ∷ []) - max_dead_letters) (letters ++ letter ∷ [])

unfoldable pub dead_letter :
    RunnerEvent → CallbackDeliveryAttempt → ℕ → Bytes → ℕ → CallbackDeadLetter
dead_letter e a status code t = record {
  event = e;
  attempts = a.attempts;
  status_code = status;
  error_code = code;
  rejected_at = at t;
}

-- The head event and its delivery attempt, if both carry the identity.
unfoldable pub head_attempt :
    List RunnerEvent
    → Option CallbackDeliveryAttempt
    → Bytes
    → Result (RunnerEvent × CallbackDeliveryAttempt)
head_attempt (e ∷ es) (some a) id = do
  reject (not (str_eq e.event_id id) || not (str_eq a.event_id id))
      (invalid "callback rejection is out of order")
  ok (e, a)
head_attempt _ _ id = err (invalid "callback rejection is out of order")

unfoldable pub park_callback_rejection :
    SessionRecord → Bytes → ℕ → Bytes → ℕ → Result (Change (Unit {0}))
unfolding head_attempt append_dead_letter dead_letter
park_callback_rejection r id status code t = do
  reject (t == 0 || not (valid_callback_failure status code false))
      (invalid "callback rejection is invalid")
  (e, a) ← head_attempt r.pending_events r.callback_delivery id
  reject (r.callback_rejected_total == u64_max) (invalid "callback rejection count overflow")
  ok (
      saved
        (record r {
          pending_events = tail r.pending_events;
          callback_delivery = none;
          callback_rejected_total = r.callback_rejected_total + 1;
          callback_dead_letters =
              append_dead_letter r.callback_dead_letters (dead_letter e a status code t);
        })
        tt)

unfoldable pub clear_terminal_secrets : SessionRecord → Result (Change (Unit {0}))
clear_terminal_secrets r = do
  reject (is_active r.state || not (length r.pending_events == 0))
      (invalid "terminal secrets cannot be cleared before final event acknowledgement")
  ok (
      saved
        (record r {
          wrapped_key_nonce = [];
          wrapped_key_ciphertext = [];
          secret_nonce = [];
          secret_ciphertext = [];
        })
        tt)
