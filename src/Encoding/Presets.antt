-- ===== src/Encoding/Presets.antt =====
-- transcode-core/presets.go and abr_presets.go: the presets, and those that the GPU can run.
use livepeer_modules_transco.Prelude.{
  Bool, true, false, not, ◌&&◌, ◌||◌, Option, none, some, List, [], ◌∷◌, map, ◌==◌, if◌then◌else◌,
  length, any, all, Bytes, str_eq, invalid, Result, ok, ◌>>◌, reject,
}
use livepeer_modules_transco.Encoding.Number.{ℤ, pos, is_positive}
use livepeer_modules_transco.Encoding.Hardware.{
  HwProfile, equal_fold, is_gpu_available, encoder_for_codec, software_encoder_for_codec,
}

pub record Preset : Type 0 where
  pub name : Bytes
  pub description : Bytes
  pub video_codec : Bytes
  pub audio_codec : Bytes
  pub width : ℤ
  pub height : ℤ
  pub bitrate : Bytes
  pub max_rate : Bytes
  pub buf_size : Bytes
  pub crf : ℤ
  pub fps : ℤ
  pub pix_fmt : Bytes
  pub profile : Bytes
  pub tier : Bytes
  pub gpu_required : Bool
  pub audio_bitrate : Bytes
  pub audio_channels : ℤ
  pub audio_sample_rate : ℤ

pub record AbrVideoSettings : Type 0 where
  pub codec : Bytes
  pub width : ℤ
  pub height : ℤ
  pub bitrate : Bytes
  pub max_bitrate : Bytes
  pub buf_size : Bytes
  pub profile : Bytes
  pub level : Bytes
  pub pix_fmt : Bytes

pub record AbrAudioSettings : Type 0 where
  pub codec : Bytes
  pub bitrate : Bytes
  pub channels : ℤ
  pub sample_rate : ℤ

pub record AbrRendition : Type 0 where
  pub name : Bytes
  pub video : Option AbrVideoSettings
  pub audio : AbrAudioSettings

pub record AbrPreset : Type 0 where
  pub name : Bytes
  pub description : Bytes
  pub preset_type : Bytes
  pub format : Bytes
  pub hls_mode : Bytes
  pub segment_duration : ℤ
  pub renditions : List AbrRendition

-- The valid presets and the names of the skipped ones.
abbrev pub Sorted : Type 0 → Type 0
Sorted A = List A × List Bytes

-- LoadPresetsFromBytes on the presets that the YAML has.
unfoldable pub check_presets : List Preset → Result (List Preset)
check_presets presets = do
  reject (length presets == 0) (invalid "no presets found in YAML")
  ok presets

unfoldable pub with_duration : AbrPreset → AbrPreset
unfolding is_positive
with_duration p =
    if is_positive p.segment_duration then p else record p { segment_duration = pos 6 }

-- LoadABRPresetsFromBytes, likewise.
unfoldable pub check_abr_presets : List AbrPreset → Result (List AbrPreset)
unfolding with_duration any
check_abr_presets presets = do
  reject (length presets == 0) (invalid "no ABR presets found in YAML")
  reject (any (λ p. length p.renditions == 0) presets) (invalid "ABR preset has no renditions")
  ok (map with_duration presets)

-- The checks of ValidatePresets on one preset.
unfoldable pub is_skipped : HwProfile → Preset → Bool
unfolding is_gpu_available encoder_for_codec software_encoder_for_codec str_eq
is_skipped hw p =
    p.gpu_required
    && (not (is_gpu_available hw)
        || str_eq (encoder_for_codec p.video_codec hw) (software_encoder_for_codec p.video_codec))

unfoldable pub validate_presets : List Preset → HwProfile → Sorted Preset
unfolding is_skipped
validate_presets [] hw = ([], [])
validate_presets (p ∷ ps) hw =
    let rest = validate_presets ps hw in
    if is_skipped hw p then (rest.0, p.name ∷ rest.1) else (p ∷ rest.0, rest.1)

unfoldable pub can_encode_video : HwProfile → Option AbrVideoSettings → Bool
unfolding is_gpu_available encoder_for_codec software_encoder_for_codec str_eq
can_encode_video hw none = true
can_encode_video hw (some v) =
    is_gpu_available hw
    && not (str_eq (encoder_for_codec v.codec hw) (software_encoder_for_codec v.codec))

unfoldable pub can_encode : HwProfile → AbrPreset → Bool
unfolding can_encode_video all
can_encode hw p = all (λ r. can_encode_video hw r.video) p.renditions

unfoldable pub validate_abr_presets : List AbrPreset → HwProfile → Sorted AbrPreset
unfolding can_encode
validate_abr_presets [] hw = ([], [])
validate_abr_presets (p ∷ ps) hw =
    let rest = validate_abr_presets ps hw in
    if can_encode hw p then (p ∷ rest.0, rest.1) else (rest.0, p.name ∷ rest.1)

unfoldable pub find_preset : List Preset → Bytes → Option Preset
unfolding equal_fold
find_preset [] name = none
find_preset (p ∷ ps) name =
    let rest = find_preset ps name in if equal_fold p.name name then some p else rest

unfoldable pub find_abr_preset : List AbrPreset → Bytes → Option AbrPreset
unfolding equal_fold
find_abr_preset [] name = none
find_abr_preset (p ∷ ps) name =
    let rest = find_abr_preset ps name in if equal_fold p.name name then some p else rest

unfoldable pub rendition_names : AbrPreset → List Bytes
rendition_names p = map (λ r. r.name) p.renditions

abbrev has_video : AbrRendition → Bool
has_video r = elim r.video [ none ↦ false | some v ↦ true ]

unfoldable pub keep_video : List AbrRendition → List AbrRendition
keep_video [] = []
keep_video (r ∷ rs) = let rest = keep_video rs in if has_video r then r ∷ rest else rest

unfoldable pub video_renditions : AbrPreset → List AbrRendition
unfolding keep_video
video_renditions p = keep_video p.renditions
