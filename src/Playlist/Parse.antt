-- ===== src/Playlist/Parse.antt =====
-- live-runner/metering.go: parseHLSMicrosecondsV1 and ParseFinalizedHLSSegmentsV1.
use livepeer_modules_transco.Prelude.{
  ℕ, zero, suc, ◌+◌, ◌-◌, ◌*◌, ◌%◌, ◌^◌, Bool, true, false, not, ◌&&◌, ◌||◌, Option, none, some,
  List, [], ◌∷◌, ◌++◌, ltb, leb, ◌==◌, if◌then◌else◌, length, drop, any, all, Bytes, codes, str_eq,
  is_empty, has_prefix, Error, invalid, Result, ok, err, ◌>>=◌, ◌>>◌, reject,
}
use livepeer_modules_transco.Prelude.{is_digit, read_digits}
use livepeer_modules_transco.Contract.Request.{is_space, contains_any}
use livepeer_modules_transco.Contract.Event.{u64_limit}
use livepeer_modules_transco.Session.Output.{FinalizedSegment}

abbrev bad_duration : Error
bad_duration = invalid "HLS segment duration is invalid"

-- strconv.ParseUint in base 10: digits, at least one, of a number below 2 ^ bits.
unfoldable pub parse_uint : ℕ → Bytes → Result ℕ
unfolding all read_digits is_empty
parse_uint bits s = do
  reject (is_empty s || not (all is_digit s)) bad_duration
  reject (leb (2 ^ bits) (read_digits 0 s)) bad_duration
  ok (read_digits 0 s)

-- strings.Cut of `s` at its first byte `b`: what stands before it, and after it where there is one.
unfoldable pub cut : ℕ → Bytes → Bytes × Option Bytes
cut b [] = ([], none)
cut b (c ∷ s) = let rest = cut b s in if c == b then ([], some s) else (c ∷ rest.0, rest.1)

-- `strings.TrimSpace(raw) != raw`.
unfoldable pub has_outer_space : Bytes → Bool
has_outer_space [] = false
has_outer_space (c ∷ []) = is_space c
has_outer_space (c ∷ d ∷ s) = is_space c || has_last_space (d ∷ s)
  where
    has_last_space : Bytes → Bool
    has_last_space [] = false
    has_last_space (d ∷ []) = is_space d
    has_last_space (d ∷ e ∷ s) = has_last_space (e ∷ s)

unfoldable pub zero_digits : ℕ → Bytes
zero_digits zero = []
zero_digits (suc n) = b'0' ∷ zero_digits n

-- The microseconds after the point; more than one point leaves a point in the text.
unfoldable pub parse_fraction : Option Bytes → Result ℕ
unfolding parse_uint zero_digits is_empty any
parse_fraction none = ok 0
parse_fraction (some s) = do
  reject (any (λ c. c == b'.') s || (is_empty s || ltb 6 (length s))) bad_duration
  parse_uint 64 (s ++ zero_digits (6 - length s))

-- parseHLSMicrosecondsV1, whose product and sum are those of uint64.
unfoldable pub parse_microseconds : Bytes → Result ℕ
unfolding parse_uint parse_fraction cut has_outer_space has_prefix is_empty
parse_microseconds raw = do
  reject
      (is_empty raw
        || (has_outer_space raw || (has_prefix raw (codes "-") || has_prefix raw (codes "+"))))
      bad_duration
  let (whole, rest) = cut b'.' raw
  reject (is_empty whole) bad_duration
  seconds ← parse_uint 58 whole
  fraction ← parse_fraction rest
  let duration = (seconds * 1000000 % u64_limit + fraction) % u64_limit
  reject (duration == 0) bad_duration
  ok duration

-- What the scan has: the segments in order, and the duration that waits for its URI.
pub record Scan : Type 0 where
  pub segments : List FinalizedSegment
  pub pending : Option ℕ
  pub media : Bool

-- The segment of an earlier line with this URI.
unfoldable pub find_segment : Bytes → List FinalizedSegment → Option FinalizedSegment
unfolding str_eq
find_segment uri [] = none
find_segment uri (s ∷ ss) = if str_eq s.uri uri then some s else find_segment uri ss

-- A URI after its duration.
unfoldable pub add_segment : Scan → ℕ → Bytes → Option FinalizedSegment → Result Scan
add_segment scan duration line none = ok (record scan {
  segments = scan.segments ++ record { uri = line; duration_microseconds = duration } ∷ [];
  pending = none;
})
add_segment scan duration line (some s) = do
  reject (not (s.duration_microseconds == duration))
      (invalid "HLS segment URI has conflicting durations")
  ok (record scan { pending = none })

unfoldable pub scan_uri : Scan → Option ℕ → Bytes → Result Scan
unfolding add_segment find_segment contains_any
scan_uri scan none line = ok scan
scan_uri scan (some duration) line = do
  reject (ltb 2048 (length line) || contains_any line (0 ∷ 13 ∷ 10 ∷ []))
      (invalid "HLS segment URI is invalid")
  add_segment scan duration line (find_segment line scan.segments)

abbrev pub is_pending : Option ℕ → Bool
is_pending none = false
is_pending (some n) = true

unfoldable pub scan_duration : Scan → Bytes → Result Scan
unfolding parse_microseconds cut
scan_duration scan rest = do
  reject (is_pending scan.pending) (invalid "HLS segment duration has no URI")
  duration ← parse_microseconds (cut b',' rest).0
  ok (record scan { pending = some duration; media = true })

-- `strings.TrimSuffix(line, "\r")`.
unfoldable pub trim_return : Bytes → Bytes
trim_return [] = []
trim_return (c ∷ s) = let rest = trim_return s in if c == 13 && length s == 0 then [] else c ∷ rest

-- One line after the first.
unfoldable pub scan_line : Scan → Bytes → Result Scan
unfolding scan_duration scan_uri has_prefix is_empty
scan_line scan line =
    if is_empty line
    then ok scan
    else if has_prefix line (codes "#EXTINF:")
    then scan_duration scan (drop 8 line)
    else if has_prefix line (codes "#")
    then ok scan
    else scan_uri scan scan.pending line

unfoldable pub scan_lines : Scan → List Bytes → Result Scan
unfolding scan_line trim_return
scan_lines scan [] = ok scan
scan_lines scan (line ∷ lines) = do next ← scan_line scan (trim_return line); scan_lines next lines

-- The byte order mark.
unfoldable pub trim_mark : Bytes → Bytes
unfolding has_prefix
trim_mark s = if has_prefix s (239 ∷ 187 ∷ 191 ∷ []) then drop 3 s else s

abbrev pub empty_scan : Scan
empty_scan = record { segments = []; pending = none; media = false }

-- ParseFinalizedHLSSegmentsV1 on the lines that bufio.Scanner gives, and whether it ends in an error.
unfoldable pub parse_segments : List Bytes → Bool → Result (List FinalizedSegment)
unfolding scan_lines trim_mark trim_return str_eq
parse_segments [] failed = do
  reject failed (invalid "HLS playlist exceeds the size limit")
  err (invalid "HLS media playlist has no finalized segments")
parse_segments (first ∷ lines) failed = do
  reject (not (str_eq (trim_mark (trim_return first)) (codes "#EXTM3U")))
      (invalid "HLS playlist header is invalid")
  scan ← scan_lines empty_scan lines
  reject failed (invalid "HLS playlist exceeds the size limit")
  reject (not scan.media) (invalid "HLS media playlist has no finalized segments")
  reject (is_pending scan.pending) (invalid "HLS segment duration has no URI")
  ok scan.segments
