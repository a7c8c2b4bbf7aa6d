-- ===== src/Encoding/Hardware.antt =====
-- transcode-core/gpu.go and presets.go: what a GPU can encode, and the encoder that is chosen for a codec.
use livepeer_modules_transco.Prelude.{
  ℕ, ◌-◌, Bool, not, ◌&&◌, ◌||◌, List, [], ◌∷◌, ltb, leb, if◌then◌else◌, length, any, Bytes, codes,
  str_eq, is_empty, contains,
}
use livepeer_modules_transco.Contract.Details.{to_lower}

pub data Vendor : Type 0 where
  no_vendor nvidia intel amd : Vendor

pub record HwProfile : Type 0 where
  pub gpu_name : Bytes
  pub vendor : Vendor
  pub device_path : Bytes
  pub vram_mb : ℕ
  pub encoders : List Bytes
  pub decoders : List Bytes
  pub hw_accels : List Bytes
  pub max_sessions : ℕ

-- strings.EqualFold on ASCII.
unfoldable pub equal_fold : Bytes → Bytes → Bool
unfolding to_lower str_eq
equal_fold a b = str_eq (to_lower a) (to_lower b)

unfoldable pub has_named : List Bytes → Bytes → Bool
unfolding equal_fold any
has_named names name = any (λ n. equal_fold n name) names

unfoldable pub has_encoder : HwProfile → Bytes → Bool
unfolding has_named
has_encoder hw name = has_named hw.encoders name

unfoldable pub has_decoder : HwProfile → Bytes → Bool
unfolding has_named
has_decoder hw name = has_named hw.decoders name

unfoldable pub has_hw_accel : HwProfile → Bytes → Bool
unfolding has_named
has_hw_accel hw name = has_named hw.hw_accels name

unfoldable pub is_gpu_available : HwProfile → Bool
unfolding is_empty
is_gpu_available hw = not (is_empty hw.gpu_name) && ltb 0 (length hw.encoders)

-- strings.ToUpper on ASCII.
unfoldable pub to_upper : Bytes → Bytes
to_upper [] = []
to_upper (c ∷ s) = (if leb b'a' c && leb c b'z' then c - 32 else c) ∷ to_upper s

abbrev unlimited_models : List Bytes
unlimited_models =
    codes "QUADRO"
    ∷ codes "TESLA"
    ∷ codes "A100"
    ∷ codes "A10"
    ∷ codes "A30"
    ∷ codes "A40"
    ∷ codes "L4"
    ∷ codes "L40"
    ∷ codes "H100"
    ∷ codes "H200"
    ∷ codes "B200"
    ∷ []

-- maxSessionsForGPU: 0 is no limit.
unfoldable pub max_sessions_for_gpu : Bytes → Vendor → ℕ
unfolding contains to_upper any
max_sessions_for_gpu name intel = 8
max_sessions_for_gpu name amd = 8
max_sessions_for_gpu name nvidia =
    if any (λ m. contains (to_upper name) m) unlimited_models then 0 else 5
max_sessions_for_gpu name no_vendor = 5

-- The codecs of the switches in presets.go.
pub data CodecFamily : Type 0 where
  h264 h265 av1 vp9 other_codec : CodecFamily

unfoldable pub codec_family : Bytes → CodecFamily
unfolding to_lower str_eq
codec_family codec =
    let name = to_lower codec in
    if str_eq name (codes "h264") || str_eq name (codes "avc")
    then h264
    else if str_eq name (codes "h265") || str_eq name (codes "hevc")
    then h265
    else if str_eq name (codes "av1")
    then av1
    else if str_eq name (codes "vp9")
    then vp9
    else other_codec

-- The encoders of the GPU for a family, in the order in which they are preferred.
unfoldable pub gpu_encoders : CodecFamily → List Bytes
gpu_encoders h264 = codes "h264_nvenc" ∷ codes "h264_qsv" ∷ codes "h264_vaapi" ∷ []
gpu_encoders h265 = codes "hevc_nvenc" ∷ codes "hevc_qsv" ∷ codes "hevc_vaapi" ∷ []
gpu_encoders av1 = codes "av1_nvenc" ∷ codes "av1_qsv" ∷ codes "av1_vaapi" ∷ []
gpu_encoders vp9 = codes "vp9_vaapi" ∷ []
gpu_encoders other_codec = []

unfoldable pub software_encoder : CodecFamily → Bytes → Bytes
software_encoder h264 codec = codes "libx264"
software_encoder h265 codec = codes "libx265"
software_encoder av1 codec = codes "libsvtav1"
software_encoder vp9 codec = codes "libvpx-vp9"
software_encoder other_codec codec = codec

unfoldable pub software_encoder_for_codec : Bytes → Bytes
unfolding codec_family software_encoder
software_encoder_for_codec codec = software_encoder (codec_family codec) codec

unfoldable pub first_encoder : HwProfile → List Bytes → Bytes → Bytes
unfolding has_encoder
first_encoder hw [] fallback = fallback
first_encoder hw (name ∷ names) fallback =
    let rest = first_encoder hw names fallback in if has_encoder hw name then name else rest

unfoldable pub encoder_for_codec : Bytes → HwProfile → Bytes
unfolding first_encoder gpu_encoders codec_family software_encoder
encoder_for_codec codec hw =
    first_encoder hw (gpu_encoders (codec_family codec))
      (software_encoder (codec_family codec) codec)

-- The decoders of the GPU for a family, in order.
unfoldable pub gpu_decoders : CodecFamily → List Bytes
gpu_decoders h264 = codes "h264_cuvid" ∷ codes "h264_qsv" ∷ []
gpu_decoders h265 = codes "hevc_cuvid" ∷ codes "hevc_qsv" ∷ []
gpu_decoders av1 = codes "av1_cuvid" ∷ codes "av1_qsv" ∷ []
gpu_decoders vp9 = codes "vp9_cuvid" ∷ codes "vp9_qsv" ∷ []
gpu_decoders other_codec = []

unfoldable pub first_decoder : HwProfile → List Bytes → Bytes
unfolding has_decoder
first_decoder hw [] = []
first_decoder hw (name ∷ names) =
    let rest = first_decoder hw names in if has_decoder hw name then name else rest

unfoldable pub decoder_for_codec : Bytes → HwProfile → Bytes
unfolding first_decoder gpu_decoders codec_family
decoder_for_codec codec hw = first_decoder hw (gpu_decoders (codec_family codec))
