-- ===== src/Runtime/Ladder.antt =====
-- live-runner/runtime.go: the exits of the ladder process, and the pause before its restart.
use livepeer_modules_transco.Prelude.{
  ℕ, zero, suc, ◌-◌, ◌*◌, Bool, false, ◌||◌, Option, none, some, List, [], ◌∷◌, ◌++◌, ltb, ◌==◌,
  if◌then◌else◌, length, drop, any, Bytes, codes, is_empty, contains, elem,
}
use livepeer_modules_transco.Contract.Details.{to_lower}
use livepeer_modules_transco.Encoding.Number.{join}

abbrev progress_keys : List Bytes
progress_keys =
    codes "bitrate"
    ∷ codes "drop_frames"
    ∷ codes "dup_frames"
    ∷ codes "fps"
    ∷ codes "frame"
    ∷ codes "out_time"
    ∷ codes "out_time_ms"
    ∷ codes "out_time_us"
    ∷ codes "progress"
    ∷ codes "speed"
    ∷ codes "stream_0_0_q"
    ∷ codes "total_size"
    ∷ []

-- strings.Cut at the first "=": what stands before it, if there is one.
unfoldable pub key_of : Bytes → Option Bytes
key_of [] = none
key_of (c ∷ s) =
    let rest = key_of s in
    if c == b'=' then some [] else elim rest [ none ↦ none | some k ↦ some (c ∷ k) ]

-- isFFmpegProgressLineV1.
unfoldable pub is_progress_line : Bytes → Bool
unfolding key_of elem
is_progress_line line = elim (key_of line) [ none ↦ false | some key ↦ elem key progress_keys ]

-- The loop of capture, on sanitized lines: the last twelve that say more than progress.
unfoldable pub keep_line : List Bytes → Bytes → List Bytes
unfolding is_progress_line is_empty
keep_line tail line =
    if is_empty line || is_progress_line line
    then tail
    else drop (length (tail ++ line ∷ []) - 12) (tail ++ line ∷ [])

unfoldable pub capture : List Bytes → List Bytes → List Bytes
unfolding keep_line
capture tail [] = tail
capture tail (line ∷ lines) = capture (keep_line tail line) lines

-- What the error of the process says: none, the cancelled context, or another with a text.
pub data ExitError : Type 0 where
  no_error : ExitError
  failed_with : Bool → Bytes → ExitError

unfoldable pub is_canceled : ExitError → Bool
is_canceled no_error = false
is_canceled (failed_with canceled message) = canceled

unfoldable pub joined_output : ExitError → List Bytes → Bytes
unfolding to_lower join
joined_output no_error tail = to_lower (join (10 ∷ []) tail)
joined_output (failed_with canceled message) tail =
    to_lower (join (10 ∷ []) tail) ++ 10 ∷ to_lower message

abbrev has_any : Bytes → List Bytes → Bool
has_any text parts = any (contains text) parts

-- classifyLiveLadderExitV1.
unfoldable pub classify_ladder_exit : ExitError → List Bytes → Bytes
unfolding is_canceled joined_output contains any
classify_ladder_exit e tail =
    let text = joined_output e tail in
    if is_canceled e || contains text (codes "signal: killed")
    then codes "process_killed"
    else if has_any text (
        codes "error while opening encoder"
        ∷ codes "no capable devices found"
        ∷ codes "too many concurrent sessions"
        ∷ [])
    then codes "encoder_init_failed"
    else if has_any text (
        codes "cannot load libcuda"
        ∷ codes "device setup failed"
        ∷ codes "failed to initialise vaapi"
        ∷ codes "hardware accelerator failed"
        ∷ [])
    then codes "hwaccel_init_failed"
    else if has_any text
        (codes "error opening input" ∷ codes "connection refused" ∷ codes "input/output error" ∷ [])
    then codes "input_unavailable"
    else if has_any text (codes "error writing" ∷ codes "broken pipe" ∷ codes "server error" ∷ [])
    then codes "output_rejected"
    else codes "unknown"

-- The doubling loop before a restart, with `rounds` rounds left.
unfoldable pub grow_backoff : ℕ → ℕ → ℕ → ℕ
grow_backoff zero pause maximum = pause
grow_backoff (suc rounds) pause maximum =
    let rest = grow_backoff rounds (pause * 2) maximum in if ltb pause maximum then rest else pause

unfoldable pub restart_backoff : ℕ → ℕ → ℕ → ℕ
unfolding grow_backoff
restart_backoff attempts initial maximum =
    let pause = grow_backoff (attempts - 1) initial maximum in
    if ltb maximum pause then maximum else pause
