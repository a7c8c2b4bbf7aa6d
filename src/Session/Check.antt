-- ===== src/Session/Check.antt =====
-- live-runner/store.go: validateSessionRecordV1, which every load runs.
use livepeer_modules_transco.Prelude.{
  ℕ, ◌/◌, Bool, true, false, not, ◌&&◌, ◌||◌, Option, none, some, List, [], ◌∷◌, ltb, leb, ◌==◌,
  if◌then◌else◌, length, Bytes, str_eq, is_empty, elem, invalid, Result, ok, err, ◌>>◌, reject,
}
pub use livepeer_modules_transco.Contract.World.{valid_url, http_schemes, rtmp_schemes}
use livepeer_modules_transco.Contract.Types.{
  State, unknown, Stamp, malformed, at, RunnerEvent, Usage,
}
use livepeer_modules_transco.Contract.Ident.{
  opaque_id, work_id, valid_state, valid_output_state, valid_close_reason,
  valid_ladder_failure_code, event_id, is_active, is_ended, is_failed, is_time, is_unset,
}
use livepeer_modules_transco.Contract.Request.{check_operations}
use livepeer_modules_transco.Contract.Event.{validate_event, usage_decreases}
use livepeer_modules_transco.Session.Record.{
  World, SessionRecord, GrantAudit, CallbackDeliveryAttempt, CallbackDeadLetter,
}
use livepeer_modules_transco.Session.Lifecycle.{has_meter}
use livepeer_modules_transco.Session.Callback.{valid_callback_failure, max_dead_letters}

abbrev pub is_ok {ℓ} : {A : Type ℓ} → Result A → Bool
is_ok (ok a) = true
is_ok (err e) = false

-- `(a) != (b)` on tests.
abbrev pub differ : Bool → Bool → Bool
differ true b = not b
differ false b = b

unfoldable pub check_identity : SessionRecord → Bytes → Bool
check_identity r id =
    r.version == 1
    && (str_eq r.broker_session_id id
        && (opaque_id r.runner_session_id && (work_id r.create_fingerprint && valid_state r.state)))

-- The four secret fields are all present or all empty, and present in an active session.
unfoldable pub check_envelope : SessionRecord → Bool
unfolding is_empty
check_envelope r =
    let has_secrets = not (is_empty r.wrapped_key_nonce) in
    not (differ (not (is_empty r.wrapped_key_ciphertext)) has_secrets)
    && (not (differ (not (is_empty r.secret_nonce)) has_secrets)
        && (not (differ (not (is_empty r.secret_ciphertext)) has_secrets)
            && not (is_active r.state && not has_secrets)))

abbrev pub is_optional_time : Stamp → Bool
is_optional_time (malformed s) = false
is_optional_time _ = true

unfoldable pub check_times : SessionRecord → Bool
check_times r =
    is_optional_time r.output_state_since
    && (is_optional_time r.ingest_online_at
        && (is_optional_time r.first_finalized_segment_at
            && (is_optional_time r.last_finalized_segment_at
                && is_optional_time r.ladder_failure_window_at)))

unfoldable pub check_health_cursor : SessionRecord → Bool
check_health_cursor r =
    not (is_unset r.output_state_since)
    && not
        (differ (ltb 0 r.ladder_consecutive_failures) (not (is_unset r.ladder_failure_window_at)))

unfoldable pub check_grant : GrantAudit → Bool
unfolding check_operations
check_grant g = work_id g.secret_sha256 && (opaque_id g.id && check_operations g.operations)

abbrev pub is_terminal : SessionRecord → Bool
is_terminal r = is_ended r.state || is_failed r.state

unfoldable pub check_terminal : SessionRecord → Bool
unfolding is_empty
check_terminal r =
    not (differ (is_terminal r) (not (is_empty r.close_reason)))
    && (is_empty r.close_reason || valid_close_reason r.close_reason)

-- `PendingTerminalState == ""`.
abbrev pub is_blank_state : State → Bool
is_blank_state (unknown []) = true
is_blank_state _ = false

unfoldable pub check_stopping : SessionRecord → Bool
unfolding is_empty
check_stopping r =
    not (differ r.stopping (not (is_empty r.pending_close_reason)))
    && (not (differ r.stopping (not (is_blank_state r.pending_terminal_state)))
        && ((is_blank_state r.pending_terminal_state
              || (is_ended r.pending_terminal_state || is_failed r.pending_terminal_state))
            && ((is_empty r.pending_close_reason || valid_close_reason r.pending_close_reason)
                && not (is_terminal r && r.stopping))))

unfoldable pub check_activation : SessionRecord → Bool
unfolding is_empty
check_activation r =
    is_empty r.pending_key_activation_id
    || (opaque_id r.pending_key_activation_id && (is_active r.state && not r.stopping))

unfoldable pub usage_after : Option Usage → ℕ → ℕ
usage_after none usage = usage
usage_after (some u) usage = u.total

unfoldable pub known_after : Option Usage → Bool → Bool
known_after none known = known
known_after (some u) known = true

-- The loop over the outbox: the previous sequence, and the previous usage if there was one.
unfoldable pub check_outbox : Bytes → ℕ → ℕ → Bool → ℕ → List RunnerEvent → Result (Unit {0})
unfolding usage_decreases usage_after known_after
check_outbox runner last previous has_usage usage [] = ok tt
check_outbox runner last previous has_usage usage (e ∷ es) =
    let rest =
      check_outbox runner last e.sequence (known_after e.usage has_usage)
        (usage_after e.usage usage) es in
    if not (is_ok (validate_event e))
      || (not (str_eq e.event_id (event_id runner e.sequence))
          || (leb e.sequence previous || ltb last e.sequence))
    then err (invalid "session record event outbox is invalid")
    else if usage_decreases e.usage has_usage usage
    then err (invalid "session record event outbox usage is invalid")
    else rest

-- `nextAttempt.Before(lastAttempt)` is refused, and so are texts that do not parse.
unfoldable pub check_attempt_times : Stamp → Stamp → Bool
check_attempt_times (at last) (at next) = leb last next
check_attempt_times _ _ = false

unfoldable pub is_head : List RunnerEvent → Bytes → Bool
is_head [] id = false
is_head (e ∷ es) id = str_eq e.event_id id

unfoldable pub check_delivery :
    Option CallbackDeliveryAttempt → List RunnerEvent → Result (Unit {0})
unfolding check_attempt_times is_head
check_delivery none events = ok tt
check_delivery (some a) events = do
  reject
      (not (is_head events a.event_id)
        || (a.attempts == 0
            || not (valid_callback_failure a.last_status_code a.last_error_code true)))
      (invalid "session record callback delivery cursor is invalid")
  reject (not (check_attempt_times a.last_attempt_at a.next_attempt_at))
      (invalid "session record callback delivery time is invalid")

unfoldable pub check_letter : Bytes → ℕ → CallbackDeadLetter → Bool
check_letter runner last letter =
    is_ok (validate_event letter.event)
    && (str_eq letter.event.event_id (event_id runner letter.event.sequence)
        && (leb letter.event.sequence last
            && (not (letter.attempts == 0)
                && valid_callback_failure letter.status_code letter.error_code false)))

unfoldable pub check_letters : Bytes → ℕ → List CallbackDeadLetter → Result (Unit {0})
unfolding check_letter
check_letters runner last [] = ok tt
check_letters runner last (letter ∷ letters) = do
  reject (not (check_letter runner last letter))
      (invalid "session record callback dead letter is invalid")
  reject (not (is_time letter.rejected_at))
      (invalid "session record callback dead-letter time is invalid")
  check_letters runner last letters

unfoldable pub check_meter : SessionRecord → Bool
check_meter r =
    not (has_meter r && not (r.metered_microseconds / 1000000 == r.usage_total))
    && not (ltb 0 (length r.metered_segment_sha256) && r.metered_microseconds == 0)

-- The loop over the segment identities, with the map of those seen.
unfoldable pub check_segments : List Bytes → List Bytes → Result (Unit {0})
unfolding elem
check_segments seen [] = ok tt
check_segments seen (identity ∷ identities) = do
  reject (not (work_id identity)) (invalid "session record segment identity is invalid")
  reject (elem identity seen) (invalid "session record segment identity is duplicated")
  check_segments (identity ∷ seen) identities

-- `usage != nil && usage.Total != total`.
abbrev pub usage_differs : Option Usage → ℕ → Bool
usage_differs none total = false
usage_differs (some u) total = not (u.total == total)

-- The last event carries the record's cursor.
unfoldable pub check_last : List RunnerEvent → ℕ → ℕ → Bool
check_last [] last usage = true
check_last (e ∷ []) last usage = e.sequence == last && not (usage_differs e.usage usage)
check_last (e ∷ f ∷ es) last usage = check_last (f ∷ es) last usage

unfoldable pub validate_session_record : World → SessionRecord → Bytes → Result (Unit {0})
validate_session_record w r id = do
  reject (not (check_identity r id)) (invalid "session record identity is invalid")
  reject (not (check_envelope r)) (invalid "session record secret envelope is incomplete")
  reject
      (not (valid_output_state r.output_state)
        || not (valid_ladder_failure_code r.last_ladder_failure_code true))
      (invalid "session record output health is invalid")
  reject (not (check_times r)) (invalid "session record output health time is invalid")
  reject (not (check_health_cursor r)) (invalid "session record output health cursor is invalid")
  reject (not (check_grant r.grant_audit)) (invalid "session record grant audit is invalid")
  reject (not (is_time r.grant_audit.expires_at)) (invalid "session record grant expiry is invalid")
  reject (not (valid_url w rtmp_schemes r.runtime_public.rtmp_url))
      (invalid "session record RTMP coordinate is invalid")
  reject (not (valid_url w http_schemes r.runtime_public.hls_url))
      (invalid "session record HLS coordinate is invalid")
  reject (not (valid_url w http_schemes r.runtime_public.key_issue_url))
      (invalid "session record key issuance coordinate is invalid")
  reject (not (check_terminal r)) (invalid "session record terminal state is invalid")
  reject (not (check_stopping r)) (invalid "session record stopping state is invalid")
  reject (not (check_activation r)) (invalid "session record key activation is invalid")
  check_outbox r.runner_session_id r.last_sequence 0 false 0 r.pending_events
  check_delivery r.callback_delivery r.pending_events
  reject (ltb max_dead_letters (length r.callback_dead_letters))
      (invalid "session record callback dead letters exceed limit")
  reject (ltb r.callback_rejected_total (length r.callback_dead_letters))
      (invalid "session record callback rejection cursor is invalid")
  check_letters r.runner_session_id r.last_sequence r.callback_dead_letters
  reject (ltb 0 r.usage_total && r.last_sequence == 0)
      (invalid "session record usage cursor is invalid")
  reject (not (check_meter r)) (invalid "session record metering cursor is invalid")
  check_segments [] r.metered_segment_sha256
  reject (not (is_unset r.last_event_at) && (not (is_time r.last_event_at) || r.last_sequence == 0))
      (invalid "session record event time is invalid")
  reject (not (check_last r.pending_events r.last_sequence r.usage_total))
      (invalid "session record event cursor is inconsistent")
