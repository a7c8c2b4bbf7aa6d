-- ===== src/Session/Laws/Metering.antt =====
-- live-runner/store.go: the metering of finalized segments.
use livepeer_modules_transco.Prelude.{
  ℕ, ◌+◌, ◌/◌, ◌%◌, ◌≤◌, ◌<◌, ◌≡◌, refl, sym, ◌∙◌, inl, inr, Bool, true, false, some, List, [], ◌∷◌,
  ◌++◌, arith, ltb, ◌==◌, if◌then◌else◌, Bool-cases, All, Bytes, str_eq, str_eq_refl, is_empty,
  elem, ok,
}
use mathlib.Core.Bool.{false≢true}
use livepeer_modules_transco.Contract.Types.{session_usage_tick}
use livepeer_modules_transco.Contract.Event.{add64, u64_limit, validate_event_type, has_wrong_unit}
use livepeer_modules_transco.Session.Record.{
  World, SessionRecord, Change, unchanged, saved, after, u64_max, usage_of, output_health_details,
}
use livepeer_modules_transco.Session.Output.{
  FinalizedSegment, Meter, meter_segments, note_output, emit_tick, tick_usage, note_segments,
  record_finalized_segments, is_closing,
}
use livepeer_modules_transco.Session.Invariant.{Inv}
use livepeer_modules_transco.Session.Safe.Emit.{emit-emitted, emitted, healthy_details}
use livepeer_modules_transco.Session.Safe.Output.{note_output-IsHealthy}

abbrev pub IsSegment : FinalizedSegment → Type 0
IsSegment s = (is_empty s.uri ≡ false) × (0 < s.duration_microseconds)

-- The time of the segments whose identity is new, each counted at its first appearance.
unfoldable pub new_time : World → List Bytes → List FinalizedSegment → ℕ
unfolding elem
new_time w seen [] = 0
new_time w seen (s ∷ segments) =
    let identity = w.sha256_hex s.uri in
    let skipped = new_time w seen segments in
    let counted = new_time w (seen ++ identity ∷ []) segments in
    if elem identity seen then skipped else s.duration_microseconds + counted

-- The segments are well formed and their identities are among those.
abbrev pub AreSeen : World → List Bytes → List FinalizedSegment → Type 0
AreSeen w seen = All (λ s. IsSegment s × (elem (w.sha256_hex s.uri) seen ≡ true))

-- What the loop makes of a meter.
abbrev IsMetering : World → Meter → List FinalizedSegment → Meter → Type 0
IsMetering w m segments m' =
    (m'.microseconds ≡ m.microseconds + new_time w m.identities segments)
    × AreSeen w m'.identities segments
    × ((x : Bytes) → elem x m.identities ≡ true → elem x m'.identities ≡ true)
    × (m'.changed ≡ false
        → (m'.microseconds ≡ m.microseconds) × (m.changed ≡ false) × (m'.identities ≡ m.identities))

elem-snoc : (x y : Bytes) (ys : List Bytes) → elem x ys ≡ true → elem x (ys ++ y ∷ []) ≡ true
unfolding elem
elem-snoc x y [] h = cc
elem-snoc x y (z ∷ ys) h = ground (arith, elem-snoc x y ys)

elem-last : (y : Bytes) (ys : List Bytes) → elem y (ys ++ y ∷ []) ≡ true
unfolding elem
elem-last y [] = ground (arith, str_eq_refl y)
elem-last y (z ∷ ys) = ground (arith, elem-last y ys)

-- The meter after one new segment.
abbrev counted_meter : World → Meter → FinalizedSegment → Meter
counted_meter w m s = record {
  microseconds = m.microseconds + s.duration_microseconds;
  identities = m.identities ++ w.sha256_hex s.uri ∷ [];
  changed = true;
}

module _ (w : World) (m : Meter) (s : FinalizedSegment) (segments : List FinalizedSegment)
    (valid : IsSegment s) where
  meter_old :
      elem (w.sha256_hex s.uri) m.identities ≡ true
      → (meter_segments w m (s ∷ segments) ≡ meter_segments w m segments)
        × (new_time w m.identities (s ∷ segments) ≡ new_time w m.identities segments)
  unfolding meter_segments new_time
  meter_old old =
      let positive : (s.duration_microseconds == 0) ≡ false = ground (arith, valid.1) in
      (rw (valid.0, positive, old), rw old)

  meter_new :
      elem (w.sha256_hex s.uri) m.identities ≡ false
      → m.microseconds + s.duration_microseconds < u64_limit
      → (meter_segments w m (s ∷ segments) ≡ meter_segments w (counted_meter w m s) segments)
        × (new_time w m.identities (s ∷ segments)
            ≡ s.duration_microseconds + new_time w (counted_meter w m s).identities segments)
  unfolding meter_segments new_time add64
  meter_new new room =
      let positive : (s.duration_microseconds == 0) ≡ false = ground (arith, valid.1) in
      let small : (m.microseconds + s.duration_microseconds) % u64_limit
          ≡ m.microseconds + s.duration_microseconds =
        omega arith in
      let no_carry : (m.microseconds + s.duration_microseconds) / u64_limit ≡ 0 = omega arith in
      (rw (valid.0, positive, new, no_carry, small), rw new)

-- The time of a new segment is no more than the time of all of them.
new_time-first :
    (w : World) (seen : List Bytes) (s : FinalizedSegment) (segments : List FinalizedSegment)
    → elem (w.sha256_hex s.uri) seen ≡ false
    → s.duration_microseconds ≤ new_time w seen (s ∷ segments)
unfolding new_time
new_time-first w seen s segments h = rw h (omega arith)

nothing :
    (w : World) (m : Meter) → (m' : Meter) × (meter_segments w m [] ≡ ok m') × IsMetering w m [] m'
unfolding meter_segments new_time
nothing w m = (m, refl, (omega arith, tt, (λ x h. h), (λ h. (refl, h, refl))))

pub meter_segments-exact :
    (w : World) (m : Meter) (segments : List FinalizedSegment)
    → All IsSegment segments
    → m.microseconds + new_time w m.identities segments < u64_limit
    → (m' : Meter) × (meter_segments w m segments ≡ ok m') × IsMetering w m segments m'
meter_segments-exact w m [] valid room = nothing w m
meter_segments-exact w m (s ∷ segments) valid room =
    elim (Bool-cases (elem (w.sha256_hex s.uri) m.identities)) [
      | inl old ↦
          let step = meter_old w m s segments valid.0 old in
          let (m', eq, (fresh, seen, keeps, quiet)) =
            meter_segments-exact w m segments valid.1 (omega (arith, step.1)) in
          (
            m',
            step.0 ∙ eq,
            (omega (arith, fresh, step.1), ((valid.0, keeps _ old), seen), keeps, quiet),
          )
      | inr new ↦
          let first = new_time-first w m.identities s segments new in
          let step = meter_new w m s segments valid.0 new (omega arith) in
          let (m', eq, (fresh, seen, keeps, quiet)) =
            meter_segments-exact w (counted_meter w m s) segments valid.1 (omega (arith, step.1)) in
          (
            m',
            step.0 ∙ eq,
            (
              omega (arith, fresh, step.1),
              ((valid.0, keeps _ (elem-last (w.sha256_hex s.uri) m.identities)), seen),
              (λ x h. keeps x (elem-snoc x (w.sha256_hex s.uri) m.identities h)),
              (λ h. absurd (false≢true (sym (quiet h).1))),
            ),
          )
    ]

-- Segments that were all seen leave the meter as it is.
meter_segments-seen :
    (w : World) (m : Meter) (segments : List FinalizedSegment)
    → AreSeen w m.identities segments
    → meter_segments w m segments ≡ ok m
unfolding meter_segments
meter_segments-seen w m [] h = refl
meter_segments-seen w m (s ∷ segments) h =
    (meter_old w m s segments h.0.0 h.0.1).0 ∙ meter_segments-seen w m segments h.1

-- The record with its output noted and its usage brought up to the metered time.
abbrev pub IsBilled : World → SessionRecord → List FinalizedSegment → ℕ → SessionRecord → Type 0
IsBilled w r segments t r' =
    (r'.metered_microseconds
      ≡ r.metered_microseconds + new_time w r.metered_segment_sha256 segments)
    × (r'.usage_total ≡ r'.metered_microseconds / 1000000)
    × AreSeen w r'.metered_segment_sha256 segments
    × (is_closing r' ≡ false)
    × (0 < r'.last_sequence)

-- The record with a usage tick for the metered time.
abbrev ticked : SessionRecord → Meter → ℕ → SessionRecord
ticked r m t =
    emitted (note_output r m t) (m.microseconds / 1000000) session_usage_tick t
      (some (usage_of (m.microseconds / 1000000))) (output_health_details (note_output r m t))

emit_tick-ok :
    (w : World) (r : SessionRecord) (m : Meter) (t : ℕ)
    → Inv w r
    → r.last_sequence < u64_max
    → emit_tick (note_output r m t) t ≡ ok (saved (ticked r m t) true)
unfolding emit_tick note_output validate_event_type has_wrong_unit str_eq
emit_tick-ok w r m t v below =
    let n = note_output r m t in
    let total = m.microseconds / 1000000 in
    let not_last : (r.last_sequence == u64_max) ≡ false = ground arith in
    rw (
      not_last,
      emit-emitted w n total session_usage_tick t (some (usage_of total)) (output_health_details n)
          v.fixed refl refl (healthy_details n (note_output-IsHealthy r m t v.healthy)),
    )

note_segments-bills :
    (w : World) (r : SessionRecord) (m : Meter) (segments : List FinalizedSegment) (t : ℕ)
    → Inv w r
    → is_closing r ≡ false
    → 0 < r.last_sequence
    → r.last_sequence < u64_max
    → m.microseconds ≡ r.metered_microseconds + new_time w r.metered_segment_sha256 segments
    → AreSeen w m.identities segments
    → (m.changed ≡ false
        → (m.microseconds ≡ r.metered_microseconds) × (m.identities ≡ r.metered_segment_sha256))
    → (c : Change Bool) × (note_segments r t m ≡ ok c) × IsBilled w r segments t (after r (ok c))
unfolding note_segments tick_usage note_output
note_segments-bills w r m segments t v open_ started below total seen quiet =
    elim (Bool-cases m.changed) [
      | inr same ↦
          let q = quiet same in
          (
            unchanged false,
            rw same refl,
            (omega (arith, total, q.0), v.metered.0, rw (← q.1) seen, open_, started),
          )
      | inl grown ↦ elim (Bool-cases (ltb r.usage_total (m.microseconds / 1000000))) [
        | inl earned ↦ (
          saved (ticked r m t) true,
          rw (grown, earned) (emit_tick-ok w r m t v below),
          (total, refl, seen, open_, omega arith),
        )
        | inr none_earned ↦ (
          saved (note_output r m t) false,
          rw (grown, none_earned) refl,
          (total, ground (arith, v.metered.0), seen, open_, started),
        )
      ]
    ]

-- The meter that the loop starts with.
abbrev meter_of : SessionRecord → Meter
meter_of r = record {
  microseconds = r.metered_microseconds;
  identities = r.metered_segment_sha256;
  changed = false;
}

-- Behind its guards RecordFinalizedSegments runs the loop.
metered_by :
    (w : World) (r : SessionRecord) (segments : List FinalizedSegment) (t : ℕ) (m : Meter)
    → is_closing r ≡ false
    → 0 < r.last_sequence
    → 0 < t
    → meter_segments w (meter_of r) segments ≡ ok m
    → record_finalized_segments w r segments t ≡ note_segments r t m
unfolding record_finalized_segments
metered_by w r segments t m running started time eq =
    let now : (t == 0) ≡ false = ground arith in
    let begun : (r.last_sequence == 0) ≡ false = ground arith in rw (now, running, begun, eq)

-- RecordFinalizedSegments on a record with the invariant, of a started session that is not closing
-- and has a sequence number left, at any time, with well-formed segments whose new time keeps the
-- metered time in uint64, succeeds. It adds to the metered time the time of the segments whose
-- identities are new, each once, and brings the usage to the metered time in whole seconds; and any
-- replay of the same segments on the record then on disk saves nothing and emits nothing.
pub record_finalized_segments-bills :
    (w : World) (r : SessionRecord) (segments : List FinalizedSegment) (t : ℕ)
    → Inv w r
    → is_closing r ≡ false
    → 0 < r.last_sequence
    → r.last_sequence < u64_max
    → 0 < t
    → All IsSegment segments
    → r.metered_microseconds + new_time w r.metered_segment_sha256 segments < u64_limit
    → (c : Change Bool) × (record_finalized_segments w r segments t ≡ ok c)
      × IsBilled w r segments t (after r (ok c))
      × ((t' : ℕ)
          → 0 < t'
          → record_finalized_segments w (after r (ok c)) segments t' ≡ ok (unchanged false))
unfolding note_segments
record_finalized_segments-bills w r segments t v running started below time valid room =
    let (m, eq, (total, seen, keeps, quiet)) =
      meter_segments-exact w (meter_of r) segments valid room in
    let (c, noted, bill) =
      note_segments-bills w r m segments t v running started below total seen
        (λ h. let q = quiet h in (q.0, q.2)) in
    (
      c,
      metered_by w r segments t m running started time eq ∙ noted,
      bill,
      (λ t' time'.
          metered_by w (after r (ok c)) segments t' (meter_of (after r (ok c))) bill.3 bill.4 time'
            (meter_segments-seen w (meter_of (after r (ok c))) segments bill.2)),
    )
