-- ===== src/Session/Invariant.antt =====
-- The invariant of session records, and the validator.
use livepeer_modules_transco.Prelude.{
  ℕ, ◌/◌, ◌≤◌, ◌<◌, ◌≡◌, refl, ◌⊎◌, true, false, List, [], ◌∷◌, arith, length, All, Bytes,
  str_eq_refl, ok,
}
use livepeer_modules_transco.Contract.Ident.{
  opaque_id, work_id, valid_state, valid_output_state, valid_ladder_failure_code, is_time, is_unset,
}
use livepeer_modules_transco.Contract.Event.{u64_limit}
use livepeer_modules_transco.Session.Record.{World, SessionRecord, CallbackDeadLetter}
use livepeer_modules_transco.Session.Callback.{max_dead_letters}
use livepeer_modules_transco.Session.Check.{
  check_envelope, check_times, check_health_cursor, check_grant, check_terminal, check_stopping,
  check_activation, check_delivery, check_letter, check_letters, check_meter, check_segments,
  check_identity, valid_url, http_schemes, rtmp_schemes, validate_session_record,
}
use livepeer_modules_transco.Session.Outbox.{Outbox, EndsAt, check_outbox-ok, check_last-ok}

-- The fields that no operation changes. The runner's identity leaves room for `:` and 20 digits.
abbrev pub IsFixed : World → SessionRecord → Type 0
IsFixed w r =
    (r.version ≡ 1)
    × (opaque_id r.runner_session_id ≡ true)
    × (length r.runner_session_id ≤ 107)
    × (work_id r.create_fingerprint ≡ true)
    × (check_grant r.grant_audit ≡ true)
    × (is_time r.grant_audit.expires_at ≡ true)
    × (valid_url w rtmp_schemes r.runtime_public.rtmp_url ≡ true)
    × (valid_url w http_schemes r.runtime_public.hls_url ≡ true)
    × (valid_url w http_schemes r.runtime_public.key_issue_url ≡ true)

abbrev pub IsHealthy : SessionRecord → Type 0
IsHealthy r =
    (valid_output_state r.output_state ≡ true)
    × (valid_ladder_failure_code r.last_ladder_failure_code true ≡ true)
    × (check_times r ≡ true)
    × (check_health_cursor r ≡ true)

abbrev pub IsPhased : SessionRecord → Type 0
IsPhased r =
    (valid_state r.state ≡ true)
    × (check_terminal r ≡ true)
    × (check_stopping r ≡ true)
    × (check_activation r ≡ true)

-- The event cursor, the outbox and the usage.
abbrev pub IsOrdered : SessionRecord → Type 0
IsOrdered r =
    Outbox r.runner_session_id 0 0 r.pending_events r.last_sequence r.usage_total
    × EndsAt r.pending_events r.last_sequence r.usage_total
    × (r.last_sequence < u64_limit)
    × (0 < r.usage_total → 0 < r.last_sequence)
    × ((is_unset r.last_event_at ≡ true)
        ⊎ ((is_time r.last_event_at ≡ true) × (0 < r.last_sequence)))

-- The usage is the metered time in whole seconds.
abbrev pub IsMetered : SessionRecord → Type 0
IsMetered r =
    (r.usage_total ≡ r.metered_microseconds / 1000000)
    × (0 < length r.metered_segment_sha256 → 0 < r.metered_microseconds)
    × (check_segments [] r.metered_segment_sha256 ≡ ok tt)

abbrev pub IsLetter : Bytes → ℕ → CallbackDeadLetter → Type 0
IsLetter runner last letter =
    (check_letter runner last letter ≡ true) × (is_time letter.rejected_at ≡ true)

abbrev pub AreLetters : SessionRecord → Type 0
AreLetters r =
    (length r.callback_dead_letters ≤ max_dead_letters)
    × (length r.callback_dead_letters ≤ r.callback_rejected_total)
    × All (IsLetter r.runner_session_id r.last_sequence) r.callback_dead_letters

pub record Inv (w : World) (r : SessionRecord) : Type 0 where
  pub fixed : IsFixed w r
  pub envelope : check_envelope r ≡ true
  pub healthy : IsHealthy r
  pub phased : IsPhased r
  pub ordered : IsOrdered r
  pub metered : IsMetered r
  pub delivery : check_delivery r.callback_delivery r.pending_events ≡ ok tt
  pub letters : AreLetters r

check_letters-ok :
    (runner : Bytes) (last : ℕ) (letters : List CallbackDeadLetter)
    → All (IsLetter runner last) letters
    → check_letters runner last letters ≡ ok tt
unfolding check_letters
check_letters-ok runner last [] h = refl
check_letters-ok runner last (letter ∷ letters) h =
    rw (h.0.0, h.0.1) (check_letters-ok runner last letters h.1)

-- A record with the invariant passes the validator of every load, under its own identity.
pub validate-Inv :
    (w : World) (r : SessionRecord)
    → Inv w r
    → validate_session_record w r r.broker_session_id ≡ ok tt
unfolding validate_session_record check_meter check_identity
validate-Inv w r v = ground (
  arith,
  str_eq_refl r.broker_session_id,
  check_outbox-ok r.runner_session_id 0 0 false r.pending_events r.last_sequence r.usage_total
      v.ordered.0,
  check_last-ok r.pending_events r.last_sequence r.usage_total v.ordered.1,
  check_letters-ok r.runner_session_id r.last_sequence r.callback_dead_letters v.letters.2,
)
