-- ===== src/Encoding/Commands.antt =====
-- transcode-core/ffmpeg.go, hls.go, live.go and thumbnail.go: the commands that the runners start.
use livepeer_modules_transco.Prelude.{
  ℕ, Bool, not, ◌&&◌, ◌||◌, Option, none, some, List, [], ◌∷◌, ◌++◌, ltb, leb, ◌==◌, if◌then◌else◌,
  length, all, Bytes, codes, is_empty, elem, invalid, Result, ok, ◌>>=◌, ◌>>◌, reject,
}
use livepeer_modules_transco.Encoding.Number.{ℤ, is_positive, itoa}
use livepeer_modules_transco.Encoding.Hardware.{HwProfile, equal_fold}
use livepeer_modules_transco.Encoding.Presets.{Preset, AbrVideoSettings, AbrRendition}
use livepeer_modules_transco.Encoding.Arguments.{
  Args, ProbeResult, is_hdr, build_hw_accel_input_args, build_video_args,
  build_video_args_sw_decode, build_audio_args, build_hls_video_args, build_hls_audio_args,
  text_option, hls_video_args,
}
use livepeer_modules_transco.Encoding.Filters.{
  TranscodeOptions, needs_software_decode, build_gpu_tonemap_filter, build_filter_graph,
  build_hls_filter_graph, build_live_filter_graph, positive_or_auto,
}
use livepeer_modules_transco.Encoding.Graphs.{build_advanced_filter_graph, advanced_filter_args}

unfoldable pub decodes_in_software : TranscodeOptions → HwProfile → ProbeResult → Bool
unfolding needs_software_decode is_hdr build_gpu_tonemap_filter is_empty
decodes_in_software o hw probe =
    needs_software_decode o
    || (o.tone_map && (is_hdr probe && is_empty (build_gpu_tonemap_filter hw)))

-- The filter of frames that the device decodes.
unfoldable pub device_filter : Preset → HwProfile → ProbeResult → TranscodeOptions → Bytes
unfolding is_hdr build_gpu_tonemap_filter build_filter_graph is_empty
device_filter p hw probe o =
    let tonemap = build_gpu_tonemap_filter hw in
    let graph = build_filter_graph p hw probe in
    if o.tone_map && is_hdr probe
    then (if is_empty tonemap
        then []
        else if is_empty graph
        then tonemap
        else tonemap ++ codes "," ++ graph)
    else graph

unfoldable pub transcode_cmd :
    Bytes → Bytes → Preset → HwProfile → ProbeResult → TranscodeOptions → Args
unfolding decodes_in_software device_filter build_hw_accel_input_args build_video_args
    build_video_args_sw_decode build_advanced_filter_graph advanced_filter_args build_audio_args
    text_option
transcode_cmd input output p hw probe o =
    let software = decodes_in_software o hw probe in
    codes "-y" ∷ (if software then [] else build_hw_accel_input_args hw)
    ++ codes "-i" ∷ input ∷ text_option (codes "-i") o.watermark_path
    ++ (if software then build_video_args_sw_decode p hw else build_video_args p hw)
    ++ (if software
        then advanced_filter_args (build_advanced_filter_graph o probe p.width p.height)
        else text_option (codes "-vf") (device_filter p hw probe o))
    ++ build_audio_args p
    ++ codes "-movflags" ∷ codes "+faststart" ∷ output ∷ []

-- The files of one rendition, as filepath.Join gives them, are arguments.
unfoldable pub hls_rendition_cmd :
    Bytes → Bytes → Bytes → AbrRendition → ℤ → HwProfile → ProbeResult → Args
unfolding build_hw_accel_input_args build_hls_video_args build_hls_filter_graph build_hls_audio_args
    text_option itoa
hls_rendition_cmd input stream_file playlist_file r segment_duration hw probe =
    codes "-y" ∷ build_hw_accel_input_args hw
    ++ codes "-i" ∷ input ∷ (elim r.video [
      | none ↦ codes "-vn" ∷ []
      | some v ↦
          build_hls_video_args r.video hw
          ++ text_option (codes "-vf") (build_hls_filter_graph r hw probe)
    ])
    ++ build_hls_audio_args r
    ++ codes "-f"
      ∷ codes "hls"
      ∷ codes "-hls_segment_type"
      ∷ codes "fmp4"
      ∷ codes "-hls_flags"
      ∷ codes "single_file"
      ∷ codes "-hls_time"
      ∷ itoa segment_duration
      ∷ codes "-hls_playlist_type"
      ∷ codes "vod"
      ∷ codes "-hls_segment_filename"
      ∷ stream_file
      ∷ playlist_file
      ∷ []

-- A published rendition. The interval is in nanoseconds, 0 if it is not positive.
pub record LiveRtmpOutput : Type 0 where
  pub rendition : AbrRendition
  pub url : Bytes
  pub keyframe_interval : ℕ

abbrev pub ten_seconds : ℕ
ten_seconds = 10000000000

-- strings.TrimSpace leaves nothing, on ASCII.
unfoldable pub is_blank : Bytes → Bool
unfolding all
is_blank s = all (λ c. c == 32 || (leb 9 c && leb c 13)) s

unfoldable pub is_h264 : Bytes → Bool
unfolding equal_fold
is_h264 codec = equal_fold codec (codes "h264") || equal_fold codec (codes "avc")

-- `seconds` prints the interval with three decimals.
unfoldable pub live_video_args :
    (ℕ → Bytes) → LiveRtmpOutput → Option AbrVideoSettings → HwProfile → ProbeResult → Result Args
unfolding hls_video_args build_live_filter_graph text_option is_h264
live_video_args seconds o none hw probe = ok (codes "-map" ∷ codes "0:a:0?" ∷ codes "-vn" ∷ [])
live_video_args seconds o (some v) hw probe = do
  reject (o.keyframe_interval == 0 || ltb ten_seconds o.keyframe_interval)
      (invalid "live keyframe interval must be between zero and ten seconds")
  reject (not (is_h264 v.codec)) (invalid "RTMP live outputs require H.264 video")
  ok (
      codes "-map" ∷ codes "0:v:0" ∷ codes "-map" ∷ codes "0:a:0?" ∷ hls_video_args v hw
      ++ codes "-force_key_frames"
        ∷ (codes "expr:gte(t,n_forced*" ++ seconds o.keyframe_interval ++ codes ")")
        ∷ text_option (codes "-vf") (build_live_filter_graph o.rendition hw probe))

-- The loop over the outputs, with the names that were seen.
unfoldable pub live_output_args :
    (ℕ → Bytes) → List Bytes → List LiveRtmpOutput → HwProfile → ProbeResult → Result Args
unfolding live_video_args build_hls_audio_args elem is_blank
live_output_args seconds seen [] hw probe = ok []
live_output_args seconds seen (o ∷ os) hw probe = do
  reject (is_blank o.rendition.name || is_blank o.url)
      (invalid "live output identity and URL are required")
  reject (elem o.rendition.name seen) (invalid "live output rendition names must be unique")
  video ← live_video_args seconds o o.rendition.video hw probe
  rest ← live_output_args seconds (o.rendition.name ∷ seen) os hw probe
  ok (video ++ build_hls_audio_args o.rendition ++ codes "-f" ∷ codes "flv" ∷ o.url ∷ rest)

-- LiveLadderCmdContext.
unfoldable pub live_ladder_cmd :
    (ℕ → Bytes) → Bytes → List LiveRtmpOutput → HwProfile → ProbeResult → Result Args
unfolding live_output_args build_hw_accel_input_args is_blank
live_ladder_cmd seconds input outputs hw probe = do
  reject (is_blank input || length outputs == 0)
      (invalid "live input and at least one output are required")
  rest ← live_output_args seconds [] outputs hw probe
  ok (
      codes "-hide_banner"
        ∷ codes "-loglevel"
        ∷ codes "error"
        ∷ codes "-nostats"
        ∷ codes "-progress"
        ∷ codes "pipe:2"
        ∷ codes "-fflags"
        ∷ codes "+nobuffer"
        ∷ codes "-flags"
        ∷ codes "+low_delay"
        ∷ build_hw_accel_input_args hw
      ++ codes "-i" ∷ input ∷ rest)

-- The time of the frame is its text, as `%.3f` prints it, and empty if it is not positive.
unfoldable pub thumbnail_cmd : Bytes → Bytes → Bytes → ℤ → ℤ → Args
unfolding text_option is_positive itoa
thumbnail_cmd input output seek w h =
    codes "-y" ∷ text_option (codes "-ss") seek
    ++ codes "-i"
      ∷ input
      ∷ codes "-vframes"
      ∷ codes "1"
      ∷ codes "-q:v"
      ∷ codes "2"
      ∷ (if is_positive w || is_positive h
          then codes "-vf"
            ∷ (codes "scale="
                ++ itoa (positive_or_auto w)
                ++ codes ":"
                ++ itoa (positive_or_auto h))
            ∷ []
          else [])
    ++ output ∷ []
