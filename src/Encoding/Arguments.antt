-- ===== src/Encoding/Arguments.antt =====
-- transcode-core/ffmpeg.go and hls.go: the arguments of ffmpeg for one output.
use livepeer_modules_transco.Prelude.{
  Bool, true, false, not, ◌||◌, Option, none, some, List, [], ◌∷◌, ◌++◌, if◌then◌else◌, Bytes,
  codes, str_eq, is_empty, contains,
}
use livepeer_modules_transco.Encoding.Number.{ℤ, is_positive, itoa}
use livepeer_modules_transco.Encoding.Hardware.{
  HwProfile, no_vendor, nvidia, intel, amd, has_hw_accel, encoder_for_codec,
}
use livepeer_modules_transco.Encoding.Presets.{Preset, AbrVideoSettings, AbrRendition}

abbrev pub Args : Type 0
Args = List Bytes

-- `if value != "" { args = append(args, flag, value) }`.
unfoldable pub text_option : Bytes → Bytes → Args
unfolding is_empty
text_option flag value = if is_empty value then [] else flag ∷ value ∷ []

-- `if value > 0 { args = append(args, flag, strconv.Itoa(value)) }`.
unfoldable pub int_option : Bytes → ℤ → Args
unfolding is_positive itoa
int_option flag value = if is_positive value then flag ∷ itoa value ∷ [] else []

-- What the probe of the input says of its size and colours.
pub record ProbeResult : Type 0 where
  pub width : ℤ
  pub height : ℤ
  pub color_transfer : Bytes

unfoldable pub is_hdr : ProbeResult → Bool
unfolding str_eq
is_hdr p =
    str_eq p.color_transfer (codes "smpte2084") || str_eq p.color_transfer (codes "arib-std-b67")

unfoldable pub vaapi_args : HwProfile → Args
unfolding text_option
vaapi_args hw =
    codes "-hwaccel"
    ∷ codes "vaapi"
    ∷ codes "-hwaccel_output_format"
    ∷ codes "vaapi"
    ∷ text_option (codes "-hwaccel_device") hw.device_path

unfoldable pub build_hw_accel_input_args : HwProfile → Args
unfolding has_hw_accel vaapi_args
build_hw_accel_input_args hw = elim hw.vendor [
  | nvidia ↦
      if has_hw_accel hw (codes "cuda")
      then codes "-hwaccel" ∷ codes "cuda" ∷ codes "-hwaccel_output_format" ∷ codes "cuda" ∷ []
      else []
  | intel ↦
      if has_hw_accel hw (codes "qsv")
      then codes "-hwaccel" ∷ codes "qsv" ∷ codes "-hwaccel_output_format" ∷ codes "qsv" ∷ []
      else []
  | amd ↦ if has_hw_accel hw (codes "vaapi") then vaapi_args hw else []
  | no_vendor ↦ []
]

unfoldable pub build_encoder_tuning_args : Bytes → Args
unfolding contains
build_encoder_tuning_args encoder =
    if contains encoder (codes "nvenc")
    then codes "-preset"
      ∷ codes "p4"
      ∷ codes "-tune"
      ∷ codes "hq"
      ∷ (if contains encoder (codes "h264") || contains encoder (codes "hevc")
          then codes "-rc" ∷ codes "vbr" ∷ []
          else [])
    else if contains encoder (codes "_qsv")
    then codes "-preset" ∷ codes "medium" ∷ codes "-look_ahead" ∷ codes "1" ∷ []
    else if contains encoder (codes "_vaapi")
    then codes "-rc_mode" ∷ codes "VBR" ∷ []
    else []

unfoldable pub build_quality_args : Bytes → ℤ → Args
unfolding contains is_positive itoa
build_quality_args encoder crf =
    if not (is_positive crf)
    then []
    else if contains encoder (codes "nvenc") || contains encoder (codes "_vaapi")
    then []
    else if contains encoder (codes "_qsv")
    then codes "-global_quality" ∷ itoa crf ∷ []
    else codes "-crf" ∷ itoa crf ∷ []

unfoldable pub is_hw_managed_pix_fmt : HwProfile → Bool
is_hw_managed_pix_fmt hw = elim hw.vendor [
  | nvidia ↦ true
  | intel ↦ true
  | amd ↦ true
  | no_vendor ↦ false
]

-- The arguments after the pixel format, of both builders for a preset.
unfoldable pub profile_args : Preset → Args
unfolding text_option int_option
profile_args p =
    text_option (codes "-profile:v") p.profile
    ++ text_option (codes "-tier") p.tier
    ++ int_option (codes "-r") p.fps

-- The arguments before the pixel format.
unfoldable pub rate_args : Preset → HwProfile → Args
unfolding encoder_for_codec build_encoder_tuning_args text_option build_quality_args
rate_args p hw =
    let encoder = encoder_for_codec p.video_codec hw in
    codes "-c:v" ∷ encoder ∷ build_encoder_tuning_args encoder
    ++ text_option (codes "-b:v") p.bitrate
    ++ text_option (codes "-maxrate") p.max_rate
    ++ text_option (codes "-bufsize") p.buf_size
    ++ build_quality_args encoder p.crf

unfoldable pub build_video_args_sw_decode : Preset → HwProfile → Args
unfolding rate_args text_option profile_args
build_video_args_sw_decode p hw =
    rate_args p hw ++ text_option (codes "-pix_fmt") p.pix_fmt ++ profile_args p

unfoldable pub build_video_args : Preset → HwProfile → Args
unfolding rate_args text_option profile_args is_hw_managed_pix_fmt
build_video_args p hw =
    rate_args p hw
    ++ (if is_hw_managed_pix_fmt hw then [] else text_option (codes "-pix_fmt") p.pix_fmt)
    ++ profile_args p

unfoldable pub audio_args : Bytes → Bytes → ℤ → ℤ → Args
unfolding is_empty text_option int_option
audio_args codec bitrate channels sample_rate =
    codes "-c:a"
      ∷ (if is_empty codec then codes "aac" else codec)
      ∷ text_option (codes "-b:a") bitrate
    ++ int_option (codes "-ac") channels
    ++ int_option (codes "-ar") sample_rate

unfoldable pub build_audio_args : Preset → Args
unfolding audio_args
build_audio_args p = audio_args p.audio_codec p.audio_bitrate p.audio_channels p.audio_sample_rate

unfoldable pub build_hls_audio_args : AbrRendition → Args
unfolding audio_args
build_hls_audio_args r =
    audio_args r.audio.codec r.audio.bitrate r.audio.channels r.audio.sample_rate

unfoldable pub hls_video_args : AbrVideoSettings → HwProfile → Args
unfolding encoder_for_codec build_encoder_tuning_args text_option is_hw_managed_pix_fmt
hls_video_args v hw =
    let encoder = encoder_for_codec v.codec hw in
    codes "-c:v" ∷ encoder ∷ build_encoder_tuning_args encoder
    ++ text_option (codes "-b:v") v.bitrate
    ++ text_option (codes "-maxrate") v.max_bitrate
    ++ text_option (codes "-bufsize") v.buf_size
    ++ (if is_hw_managed_pix_fmt hw then [] else text_option (codes "-pix_fmt") v.pix_fmt)
    ++ text_option (codes "-profile:v") v.profile
    ++ text_option (codes "-level") v.level

unfoldable pub build_hls_video_args : Option AbrVideoSettings → HwProfile → Args
unfolding hls_video_args
build_hls_video_args none hw = []
build_hls_video_args (some v) hw = hls_video_args v hw
