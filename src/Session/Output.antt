-- ===== src/Session/Output.antt =====
-- live-runner/store.go: metering, heartbeats, publisher presence and output health.
use livepeer_modules_transco.Prelude.{
  ℕ, ◌+◌, ◌/◌, Bool, true, false, not, ◌||◌, some, List, [], ◌∷◌, ◌++◌, ltb, ◌==◌, if◌then◌else◌,
  Bytes, is_empty, elem, Error, session_terminal, invalid, Result, ok, err, ◌>>=◌, ◌>>◌, reject,
}
use livepeer_modules_transco.Contract.Types.{
  Stamp, unset, malformed, at, OutputState, waiting, producing, stalled, session_heartbeat,
  session_usage_tick,
}
use livepeer_modules_transco.Contract.Ident.{is_active, is_unset}
use livepeer_modules_transco.Contract.Event.{add64}
use livepeer_modules_transco.Session.Record.{
  World, SessionRecord, Change, unchanged, saved, u64_max, output_health_details, usage_of, emit,
}

-- live-runner/metering.go: FinalizedHLSSegmentV1.
pub record FinalizedSegment : Type 0 where
  pub uri : Bytes
  pub duration_microseconds : ℕ  -- uint64

-- `record.State != "active" || record.Stopping`.
abbrev pub is_closing : SessionRecord → Bool
is_closing r = not (is_active r.state) || r.stopping

abbrev pub is_producing : OutputState → Bool
is_producing producing = true
is_producing _ = false

abbrev pub is_stalled : OutputState → Bool
is_stalled stalled = true
is_stalled _ = false

-- `time.Parse`, whose error the caller replaces.
abbrev pub parse_time : Stamp → Error → Result ℕ
parse_time (at t) e = ok t
parse_time _ e = err e

-- The metered time, the identities in order, and whether a segment was new.
pub record Meter : Type 0 where
  pub microseconds : ℕ
  pub identities : List Bytes
  pub changed : Bool

-- The loop over the segments. The source's map `seen` has the identities of the record and of the
-- segments added to it, which are those of the list.
unfoldable pub meter_segments : World → Meter → List FinalizedSegment → Result Meter
unfolding is_empty elem add64
meter_segments w m [] = ok m
meter_segments w m (s ∷ segments) =
    let identity = w.sha256_hex s.uri in
    let (total, carry) = add64 m.microseconds s.duration_microseconds in
    let skip = meter_segments w m segments in
    let add =
      meter_segments w
        (record {
          microseconds = total;
          identities = m.identities ++ identity ∷ [];
          changed = true;
        })
        segments in
    if is_empty s.uri || s.duration_microseconds == 0
    then err (invalid "finalized HLS segment is invalid")
    else if elem identity m.identities
    then skip
    else if carry == 0
    then add
    else err (invalid "output timeline overflow")

-- The output fields after new segments at time `t`.
unfoldable pub note_output : SessionRecord → Meter → ℕ → SessionRecord
note_output r m t = record r {
  metered_microseconds = m.microseconds;
  metered_segment_sha256 = m.identities;
  first_finalized_segment_at =
      if is_unset r.first_finalized_segment_at then at t else r.first_finalized_segment_at;
  last_finalized_segment_at = at t;
  output_state = producing;
  output_state_since = if is_producing r.output_state then r.output_state_since else at t;
  ladder_failure_window_at = unset;
  ladder_consecutive_failures = 0;
}

-- The usage event for newly earned whole seconds.
unfoldable pub emit_tick : SessionRecord → ℕ → Result (Change Bool)
unfolding emit output_health_details
emit_tick r t = do
  reject (r.last_sequence == u64_max) (invalid "event sequence overflow")
  let total = r.metered_microseconds / 1000000
  r' ←
      emit (record r { usage_total = total }) session_usage_tick t (some (usage_of total))
        (output_health_details r)
  ok (saved r' true)

unfoldable pub tick_usage : SessionRecord → ℕ → Result (Change Bool)
unfolding emit_tick
tick_usage r t =
    if ltb r.usage_total (r.metered_microseconds / 1000000)
    then emit_tick r t
    else ok (saved r false)

unfoldable pub note_segments : SessionRecord → ℕ → Meter → Result (Change Bool)
unfolding note_output tick_usage
note_segments r t m = if m.changed then tick_usage (note_output r m t) t else ok (unchanged false)

unfoldable pub record_finalized_segments :
    World → SessionRecord → List FinalizedSegment → ℕ → Result (Change Bool)
unfolding meter_segments note_segments
record_finalized_segments w r segments t = do
  reject (t == 0) (invalid "metering event time is required")
  reject (is_closing r) session_terminal
  reject (r.last_sequence == 0) (invalid "session start must be recorded before usage")
  m ←
      meter_segments w
        (record {
          microseconds = r.metered_microseconds;
          identities = r.metered_segment_sha256;
          changed = false;
        })
        segments
  note_segments r t m

-- Whether the minimum interval since the last event is still running.
unfoldable pub too_early : Stamp → ℕ → ℕ → Result Bool
too_early unset t interval = ok false
too_early (malformed s) t interval = err (invalid "durable event time is invalid")
too_early (at last) t interval = ok (ltb t (last + interval))

unfoldable pub beat : SessionRecord → ℕ → Result (Change Bool)
unfolding emit output_health_details
beat r t = do
  reject (r.last_sequence == u64_max) (invalid "event sequence overflow")
  r' ← emit r session_heartbeat t (some (usage_of r.usage_total)) (output_health_details r)
  ok (saved r' true)

unfoldable pub record_heartbeat : SessionRecord → ℕ → ℕ → Result (Change Bool)
unfolding too_early beat
record_heartbeat r t interval = do
  reject (t == 0 || interval == 0) (invalid "heartbeat time and interval are required")
  reject (is_closing r) session_terminal
  reject (r.last_sequence == 0) (invalid "session start must be recorded before heartbeat")
  early ← too_early r.last_event_at t interval
  if early then ok (unchanged false) else beat r t

-- The record when the publisher appears, and when it goes.
unfoldable pub publisher_online : SessionRecord → ℕ → SessionRecord
publisher_online r t = record r {
  ingest_online_at = at t;
  publisher_seen = true;
  publisher_offline_since = unset;
  publisher_deadline = unset;
  output_state = waiting;
  output_state_since = at t;
}

unfoldable pub publisher_offline : SessionRecord → ℕ → SessionRecord
publisher_offline r t = record r {
  ingest_online_at = unset;
  publisher_seen = true;
  publisher_offline_since = at t;
  publisher_deadline = unset;
  output_state = waiting;
  output_state_since = at t;
  ladder_failure_window_at = unset;
  ladder_consecutive_failures = 0;
}

unfoldable pub observe_publisher : SessionRecord → Bool → ℕ → Change (Unit {0})
unfolding publisher_online publisher_offline
observe_publisher r true t =
    if is_unset r.ingest_online_at then saved (publisher_online r t) tt else unchanged tt
observe_publisher r false t =
    if is_unset r.ingest_online_at then unchanged tt else saved (publisher_offline r t) tt

unfoldable pub record_ingest_presence : SessionRecord → Bool → ℕ → Result (Change (Unit {0}))
unfolding observe_publisher
record_ingest_presence r online t = do
  reject (t == 0) (invalid "ingest observation time is required")
  reject (is_closing r) session_terminal
  ok (observe_publisher r online t)
