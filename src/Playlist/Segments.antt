-- ===== src/Playlist/Segments.antt =====
-- live-runner/metering.go: the segments that the parser returns.
use livepeer_modules_transco.Prelude.{
  ℕ, ◌≤◌, ◌<◌, ◌≡◌, refl, sym, inl, inr, Bool, true, false, not, ◌||◌, Option, none, some, List, [],
  ◌∷◌, ◌++◌, arith, ltb, ◌==◌, Bool-cases, length, drop, All, All-append, Bytes, codes, str_eq,
  str_eq_apart, is_empty, has_prefix, subst, Error, invalid, Result, ok, err, ◌>>=◌, ◌>>◌, reject,
}
use mathlib.Core.Bool.{false≢true}
use livepeer_modules_transco.Contract.Request.{contains_any}
use livepeer_modules_transco.Contract.Event.{u64_limit}
use livepeer_modules_transco.Session.Output.{FinalizedSegment}
use livepeer_modules_transco.Playlist.Parse.{
  parse_microseconds, Scan, find_segment, add_segment, scan_uri, scan_duration, scan_line,
  scan_lines, parse_segments, trim_return, cut, is_pending, trim_mark, empty_scan,
}

-- A segment with a URI of at most 2048 bytes and a positive duration in uint64.
abbrev pub IsMeterable : FinalizedSegment → Type 0
IsMeterable s =
    (is_empty s.uri ≡ false)
    × (length s.uri ≤ 2048)
    × (0 < s.duration_microseconds)
    × (s.duration_microseconds < u64_limit)

-- No two segments have one URI.
abbrev pub HaveDistinctUris : List FinalizedSegment → Type 0
HaveDistinctUris [] = Unit {0}
HaveDistinctUris (s ∷ ss) = (find_segment s.uri ss ≡ none) × HaveDistinctUris ss

abbrev IsDuration : Option ℕ → Type 0
IsDuration none = Unit {0}
IsDuration (some d) = (0 < d) × (d < u64_limit)

abbrev IsScan : Scan → Type 0
IsScan scan =
    All IsMeterable scan.segments × HaveDistinctUris scan.segments × IsDuration scan.pending

-- What a step of the scan that succeeds leaves.
abbrev Scans : Result Scan → Type 0
Scans (ok scan) = IsScan scan
Scans (err e) = Unit {0}

Scans-bind {ℓ} :
    {A : Type ℓ} (m : Result A) (k : A → Result Scan)
    → ((a : A) → m ≡ ok a → Scans (k a))
    → Scans (m >>= k)
Scans-bind (ok a) k h = h a refl
Scans-bind (err e) k h = tt

Scans-reject :
    (b : Bool) (e : Error) (k : Result Scan) → (b ≡ false → Scans k) → Scans (reject b e >> k)
Scans-reject false e k h = h refl
Scans-reject true e k h = tt

parse_microseconds-bounds :
    (raw : Bytes) (d : ℕ) → parse_microseconds raw ≡ ok d → (0 < d) × (d < u64_limit)
unfolding parse_microseconds
parse_microseconds-bounds raw d h = ground arith

find_segment-snoc :
    (uri : Bytes) (ss : List FinalizedSegment) (s : FinalizedSegment)
    → find_segment uri ss ≡ none
    → str_eq s.uri uri ≡ false
    → find_segment uri (ss ++ s ∷ []) ≡ none
unfolding find_segment
find_segment-snoc uri [] s h d = rw d
find_segment-snoc uri (x ∷ ss) s h d = elim (Bool-cases (str_eq x.uri uri)) [
  | inl e ↦ ground arith
  | inr e ↦ rw e (find_segment-snoc uri ss s (ground arith) d)
]

distinct_snoc :
    (ss : List FinalizedSegment) (s : FinalizedSegment)
    → HaveDistinctUris ss
    → find_segment s.uri ss ≡ none
    → HaveDistinctUris (ss ++ s ∷ [])
unfolding find_segment
distinct_snoc [] s h fresh = (refl, tt)
distinct_snoc (x ∷ ss) s h fresh =
    let other : str_eq x.uri s.uri ≡ false = ground arith in
    let later : find_segment s.uri ss ≡ none = ground arith in
    (
      find_segment-snoc x.uri ss s h.0 (str_eq_apart x.uri s.uri other),
      distinct_snoc ss s h.1 later,
    )

add_segment-IsScan :
    (scan : Scan) (d : ℕ) (line : Bytes) (found : Option FinalizedSegment)
    → IsScan scan
    → (0 < d) × (d < u64_limit)
    → is_empty line ≡ false
    → length line ≤ 2048
    → find_segment line scan.segments ≡ found
    → Scans (add_segment scan d line found)
unfolding add_segment
add_segment-IsScan scan d line none v n filled short fresh = (
  All-append IsMeterable scan.segments _ v.0 ((filled, short, n.0, n.1), tt),
  distinct_snoc scan.segments _ v.1 fresh,
  tt,
)
add_segment-IsScan scan d line (some s) v n filled short fresh =
    Scans-reject (not (s.duration_microseconds == d)) _ _ λ _. (v.0, v.1, tt)

scan_uri-IsScan :
    (scan : Scan) (pending : Option ℕ) (line : Bytes)
    → IsScan scan
    → IsDuration pending
    → is_empty line ≡ false
    → Scans (scan_uri scan pending line)
unfolding scan_uri
scan_uri-IsScan scan none line v n filled = v
scan_uri-IsScan scan (some d) line v n filled =
    Scans-reject (ltb 2048 (length line) || contains_any line (0 ∷ 13 ∷ 10 ∷ [])) _ _ λ short.
      add_segment-IsScan scan d line (find_segment line scan.segments) v n filled (ground arith)
        refl

scan_line-IsScan : (scan : Scan) (line : Bytes) → IsScan scan → Scans (scan_line scan line)
unfolding scan_line scan_duration
scan_line-IsScan scan line v = elim (Bool-cases (is_empty line)) [
  | inl blank ↦ rw blank v
  | inr filled ↦ elim (Bool-cases (has_prefix line (codes "#EXTINF:"))) [
    | inl timed ↦
        rw (filled, timed)
          (Scans-reject (is_pending scan.pending) _ _ λ _.
            Scans-bind (parse_microseconds (cut b',' (drop 8 line)).0) _
              λ d eq. (v.0, v.1, parse_microseconds-bounds (cut b',' (drop 8 line)).0 d eq))
    | inr other ↦ elim (Bool-cases (has_prefix line (codes "#"))) [
      | inl comment ↦ rw (filled, other, comment) v
      | inr uri ↦ rw (filled, other, uri) (scan_uri-IsScan scan scan.pending line v v.2 filled)
    ]
  ]
]

scan_lines-IsScan : (scan : Scan) (lines : List Bytes) → IsScan scan → Scans (scan_lines scan lines)
unfolding scan_lines
scan_lines-IsScan scan [] v = v
scan_lines-IsScan scan (line ∷ lines) v =
    go (scan_line scan (trim_return line)) (scan_line-IsScan scan (trim_return line) v)
      (λ next. scan_lines-IsScan next lines)
  where
    go :
        (m : Result Scan)
        → Scans m
        → ((next : Scan) → IsScan next → Scans (scan_lines next lines))
        → Scans (m >>= λ next. scan_lines next lines)
    go (ok next) h rest = rest next h
    go (err e) h rest = tt

behind {ℓ} :
    {A : Type ℓ} (b : Bool) (e : Error) (k r : Result A) → b ≡ false → (reject b e >> k) ≡ r → k ≡ r
behind true e k r h eq = absurd (false≢true (sym h))
behind false e k r h eq = eq

returned :
    (m : Result Scan) (failed : Bool) (segments : List FinalizedSegment)
    → (m >>= λ scan.
        reject failed (invalid "HLS playlist exceeds the size limit")
        >> (reject (not scan.media) (invalid "HLS media playlist has no finalized segments")
            >> (reject (is_pending scan.pending) (invalid "HLS segment duration has no URI")
                >> ok scan.segments)))
      ≡ ok segments
    → (scan : Scan) × (m ≡ ok scan) × (scan.segments ≡ segments)
returned (ok scan) failed segments h = (scan, refl, ground arith)
returned (err e) failed segments h = cc

-- Where ParseFinalizedHLSSegmentsV1 returns segments, each has a URI of 1 to 2048 bytes and a
-- positive duration in uint64, and no two have one URI.
pub parse_segments-IsMeterable :
    (lines : List Bytes) (failed : Bool) (segments : List FinalizedSegment)
    → parse_segments lines failed ≡ ok segments
    → All IsMeterable segments × HaveDistinctUris segments
unfolding parse_segments
parse_segments-IsMeterable [] failed segments h = ground arith
parse_segments-IsMeterable (first ∷ lines) failed segments h =
    let header : not (str_eq (trim_mark (trim_return first)) (codes "#EXTM3U")) ≡ false =
      ground arith in
    let (scan, eq, same) =
      returned (scan_lines empty_scan lines) failed segments (behind _ _ _ _ header h) in
    let v = subst Scans eq (scan_lines-IsScan empty_scan lines (tt, tt, tt)) in
    (subst (All IsMeterable) same v.0, subst HaveDistinctUris same v.1)
