-- ===== src/Session/Safe/Output.antt =====
-- Metering, heartbeats and publisher presence, and the invariant.
use livepeer_modules_transco.Prelude.{
  ℕ, ◌/◌, ◌≤◌, ◌<◌, ◌≡◌, refl, inl, inr, Bool, true, false, ◌||◌, some, List, [], ◌∷◌, ◌++◌, arith,
  ltb, ◌==◌, Bool-cases, length, Bytes, str_eq, elem, ok,
}
use livepeer_modules_transco.Contract.Types.{session_heartbeat, session_usage_tick}
use livepeer_modules_transco.Contract.Ident.{work_id, valid_output_state, is_unset}
use livepeer_modules_transco.Contract.Event.{validate_event_type, has_wrong_unit, add64}
use livepeer_modules_transco.Session.Record.{
  World, SessionRecord, SavesOnly, usage_of, u64_max, output_health_details,
}
use livepeer_modules_transco.Session.Output.{
  FinalizedSegment, Meter, meter_segments, note_output, note_segments, emit_tick, tick_usage,
  record_finalized_segments, too_early, beat, record_heartbeat, publisher_online, publisher_offline,
  observe_publisher, record_ingest_presence, is_closing,
}
use livepeer_modules_transco.Session.Check.{
  check_envelope, check_times, check_health_cursor, check_terminal, check_stopping,
  check_activation, check_segments,
}
use livepeer_modules_transco.Session.Invariant.{Inv, IsHealthy}
use livepeer_modules_transco.Session.Safe.Rules.{SavesOnly-reject, SavesOnly-if, SavesOnly-bind}
use livepeer_modules_transco.Session.Safe.Emit.{emit_saves, healthy_details}

-- What holds of the metered time and the identities.
abbrev pub IsMeter : ℕ → List Bytes → Type 0
IsMeter microseconds identities =
    (0 < length identities → 0 < microseconds) × (check_segments [] identities ≡ ok tt)

check_segments-snoc :
    (seen identities : List Bytes) (identity : Bytes)
    → check_segments seen identities ≡ ok tt
    → work_id identity ≡ true
    → elem identity identities ≡ false
    → elem identity seen ≡ false
    → check_segments seen (identities ++ identity ∷ []) ≡ ok tt
unfolding check_segments elem
check_segments-snoc seen [] identity h v new fresh = rw (v, fresh) refl
check_segments-snoc seen (x ∷ xs) identity h v new fresh =
    ground (arith, check_segments-snoc (x ∷ seen) xs identity)

-- The meter with one more segment.
abbrev add_segment : World → Meter → FinalizedSegment → Meter
add_segment w m s = record {
  microseconds = (add64 m.microseconds s.duration_microseconds).0;
  identities = m.identities ++ w.sha256_hex s.uri ∷ [];
  changed = true;
}

add_segment-IsMeter :
    (w : World) (m : Meter) (s : FinalizedSegment)
    → IsMeter m.microseconds m.identities
    → (s.duration_microseconds == 0) ≡ false
    → elem (w.sha256_hex s.uri) m.identities ≡ false
    → ((add64 m.microseconds s.duration_microseconds).1 == 0) ≡ true
    → IsMeter (add_segment w m s).microseconds (add_segment w m s).identities
      × (m.microseconds ≤ (add_segment w m s).microseconds)
unfolding add64 elem
add_segment-IsMeter w m s h positive new fits = (
  (
    (λ _. ground arith),
    check_segments-snoc [] m.identities (w.sha256_hex s.uri) h.1 (w.sha256_hex-work_id s.uri) new
        refl,
  ),
  ground arith,
)

-- The loop keeps the meter well formed and never lowers it.
meter_segments-IsMeter :
    (w : World) (m : Meter) (segments : List FinalizedSegment) {m' : Meter}
    → IsMeter m.microseconds m.identities
    → meter_segments w m segments ≡ ok m'
    → IsMeter m'.microseconds m'.identities × (m.microseconds ≤ m'.microseconds)
unfolding meter_segments
meter_segments-IsMeter w m [] {m' = m'} h e = ground arith
meter_segments-IsMeter w m (s ∷ segments) {m' = m'} h e = ground (
  arith,
  add_segment-IsMeter w m s,
  meter_segments-IsMeter w m segments {m' = m'},
  meter_segments-IsMeter w (add_segment w m s) segments {m' = m'},
)

pub note_output-IsHealthy :
    (r : SessionRecord) (m : Meter) (t : ℕ) → IsHealthy r → IsHealthy (note_output r m t)
unfolding note_output check_times check_health_cursor valid_output_state
note_output-IsHealthy r m t h = (refl, h.1, ground arith, ground arith)

-- The usage tick after the output is noted.
emit_tick-Inv :
    (w : World) (r : SessionRecord) (m : Meter) (t : ℕ)
    → Inv w r
    → IsMeter m.microseconds m.identities
    → r.usage_total ≤ m.microseconds / 1000000
    → SavesOnly (Inv w) (emit_tick (note_output r m t) t)
unfolding emit_tick note_output validate_event_type has_wrong_unit check_envelope check_terminal
    check_stopping check_activation str_eq
emit_tick-Inv w r m t v meter grows =
    let n = note_output r m t in
    let total = m.microseconds / 1000000 in
    let healthy = note_output-IsHealthy r m t v.healthy in
    SavesOnly-reject (Inv w) (n.last_sequence == u64_max) _ _ (λ below.
      emit_saves w n total session_usage_tick t (some (usage_of total)) (output_health_details n)
        v.fixed refl refl (healthy_details n healthy) true v.envelope healthy v.phased v.ordered
        (refl, meter.0, meter.1) v.delivery v.letters (ground arith) grows refl)

-- Noted output that earns no whole second.
note_output-Inv :
    (w : World) (r : SessionRecord) (m : Meter) (t : ℕ)
    → Inv w r
    → IsMeter m.microseconds m.identities
    → r.usage_total ≡ m.microseconds / 1000000
    → Inv w (note_output r m t)
unfolding note_output check_envelope check_terminal check_stopping check_activation
note_output-Inv w r m t v meter same = record {
  fixed = v.fixed;
  envelope = v.envelope;
  healthy = note_output-IsHealthy r m t v.healthy;
  phased = v.phased;
  ordered = v.ordered;
  metered = (same, meter.0, meter.1);
  delivery = v.delivery;
  letters = v.letters;
}

note_segments-Inv :
    (w : World) (r : SessionRecord) (t : ℕ) (m : Meter)
    → Inv w r
    → IsMeter m.microseconds m.identities
    → r.metered_microseconds ≤ m.microseconds
    → SavesOnly (Inv w) (note_segments r t m)
unfolding note_segments tick_usage note_output
note_segments-Inv w r t m v meter grows =
    SavesOnly-if (Inv w) m.changed _ _
      (λ _.
        SavesOnly-if (Inv w) (ltb r.usage_total (m.microseconds / 1000000)) _ _
          (λ _. emit_tick-Inv w r m t v meter (omega (arith, v.metered.0)))
          (λ none_earned. note_output-Inv w r m t v meter (ground (arith, v.metered.0))))
      (λ _. tt)

-- RecordFinalizedSegments saves only records with the invariant.
pub record_finalized_segments-Inv :
    (w : World) (r : SessionRecord) (segments : List FinalizedSegment) (t : ℕ)
    → Inv w r
    → SavesOnly (Inv w) (record_finalized_segments w r segments t)
unfolding record_finalized_segments
record_finalized_segments-Inv w r segments t v = SavesOnly-reject (Inv w) (t == 0) _ _ λ _.
    SavesOnly-reject (Inv w) (is_closing r) _ _ λ _.
      SavesOnly-reject (Inv w) (r.last_sequence == 0) _ _ λ _.
        SavesOnly-bind (Inv w) (meter_segments w _ segments) (note_segments r t) λ m e.
          let kept = meter_segments-IsMeter w _ segments (v.metered.1, v.metered.2) e in
          note_segments-Inv w r t m v kept.0 kept.1

beat-Inv : (w : World) (r : SessionRecord) (t : ℕ) → Inv w r → SavesOnly (Inv w) (beat r t)
unfolding beat validate_event_type has_wrong_unit str_eq
beat-Inv w r t v = SavesOnly-reject (Inv w) (r.last_sequence == u64_max) _ _ (λ below.
    emit_saves w r r.usage_total session_heartbeat t (some (usage_of r.usage_total))
      (output_health_details r) v.fixed refl refl (healthy_details r v.healthy) true v.envelope
      v.healthy v.phased v.ordered v.metered v.delivery v.letters (ground arith) (omega arith) refl)

-- RecordHeartbeat saves only records with the invariant.
pub record_heartbeat-Inv :
    (w : World) (r : SessionRecord) (t interval : ℕ)
    → Inv w r
    → SavesOnly (Inv w) (record_heartbeat r t interval)
unfolding record_heartbeat
record_heartbeat-Inv w r t interval v = SavesOnly-reject (Inv w) (t == 0 || interval == 0) _ _ λ _.
    SavesOnly-reject (Inv w) (is_closing r) _ _ λ _.
      SavesOnly-reject (Inv w) (r.last_sequence == 0) _ _ λ _.
        SavesOnly-bind (Inv w) (too_early r.last_event_at t interval) _
          λ early _. SavesOnly-if (Inv w) early _ _ (λ _. tt) (λ _. beat-Inv w r t v)

publisher_online-Inv :
    (w : World) (r : SessionRecord) (t : ℕ) → Inv w r → Inv w (publisher_online r t)
unfolding publisher_online check_envelope check_terminal check_stopping check_activation check_times
    check_health_cursor valid_output_state
publisher_online-Inv w r t v = record {
  fixed = v.fixed;
  envelope = v.envelope;
  healthy = (refl, v.healthy.1, ground arith, ground arith);
  phased = v.phased;
  ordered = v.ordered;
  metered = v.metered;
  delivery = v.delivery;
  letters = v.letters;
}

publisher_offline-Inv :
    (w : World) (r : SessionRecord) (t : ℕ) → Inv w r → Inv w (publisher_offline r t)
unfolding publisher_offline check_envelope check_terminal check_stopping check_activation
    check_times check_health_cursor valid_output_state
publisher_offline-Inv w r t v = record {
  fixed = v.fixed;
  envelope = v.envelope;
  healthy = (refl, v.healthy.1, ground arith, ground arith);
  phased = v.phased;
  ordered = v.ordered;
  metered = v.metered;
  delivery = v.delivery;
  letters = v.letters;
}

observe_publisher-Inv :
    (w : World) (r : SessionRecord) (online : Bool) (t : ℕ)
    → Inv w r
    → SavesOnly (Inv w) (ok (observe_publisher r online t))
unfolding observe_publisher
observe_publisher-Inv w r true t v = elim (Bool-cases (is_unset r.ingest_online_at)) [
  | inl e ↦ rw e (publisher_online-Inv w r t v)
  | inr e ↦ rw e tt
]
observe_publisher-Inv w r false t v = elim (Bool-cases (is_unset r.ingest_online_at)) [
  | inl e ↦ rw e tt
  | inr e ↦ rw e (publisher_offline-Inv w r t v)
]

-- RecordIngestPresence saves only records with the invariant.
pub record_ingest_presence-Inv :
    (w : World) (r : SessionRecord) (online : Bool) (t : ℕ)
    → Inv w r
    → SavesOnly (Inv w) (record_ingest_presence r online t)
unfolding record_ingest_presence
record_ingest_presence-Inv w r online t v =
    SavesOnly-reject (Inv w) (t == 0) _ _
      λ _. SavesOnly-reject (Inv w) (is_closing r) _ _ λ _. observe_publisher-Inv w r online t v
