-- ===== src/Encoding/Filters.antt =====
-- transcode-core/filters.go, hls.go, live.go and thumbnail.go: filter graphs and whole commands.
use livepeer_modules_transco.Prelude.{
  ℕ, Bool, not, ◌&&◌, ◌||◌, Option, none, some, [], ◌∷◌, ◌++◌, ◌==◌, if◌then◌else◌, Bytes, codes,
  str_eq, is_empty,
}
use livepeer_modules_transco.Contract.Details.{to_lower}
use livepeer_modules_transco.Encoding.Number.{ℤ, negsuc, is_positive, int_eq, itoa, join}
use livepeer_modules_transco.Encoding.Hardware.{
  HwProfile, no_vendor, nvidia, intel, amd, has_hw_accel,
}
use livepeer_modules_transco.Encoding.Presets.{Preset, AbrVideoSettings, AbrRendition}
use livepeer_modules_transco.Encoding.Arguments.{Args, ProbeResult}

-- TranscodeOptions. The scale of the watermark is its text, as `%.2f` prints it, and empty if it is
-- not positive.
pub record TranscodeOptions : Type 0 where
  pub subtitle_path : Bytes
  pub watermark_path : Bytes
  pub watermark_pos : Bytes
  pub watermark_scale : Bytes
  pub tone_map : Bool

unfoldable pub needs_software_decode : TranscodeOptions → Bool
unfolding is_empty
needs_software_decode o = not (is_empty o.subtitle_path) || not (is_empty o.watermark_path)

unfoldable pub needs_advanced_filters : TranscodeOptions → Bool
unfolding needs_software_decode
needs_advanced_filters o = needs_software_decode o || o.tone_map

abbrev pub positive_or_auto : ℤ → ℤ
positive_or_auto n = if is_positive n then n else negsuc 1

unfoldable pub build_sw_scale_filter : ℤ → ℤ → Bytes
unfolding is_positive itoa
build_sw_scale_filter w h =
    codes "scale=" ++ itoa (positive_or_auto w) ++ codes ":" ++ itoa (positive_or_auto h)

abbrev sized_filter : Bytes → ℤ → ℤ → Bytes
sized_filter name w h =
    name ++ codes "=w=" ++ itoa (positive_or_auto w) ++ codes ":h=" ++ itoa (positive_or_auto h)

unfoldable pub build_scale_filter : ℤ → ℤ → HwProfile → Bytes
unfolding is_positive itoa has_hw_accel build_sw_scale_filter
build_scale_filter w h hw = elim hw.vendor [
  | nvidia ↦
      if has_hw_accel hw (codes "cuda")
      then codes "scale_cuda="
        ++ itoa (positive_or_auto w)
        ++ codes ":"
        ++ itoa (positive_or_auto h)
      else build_sw_scale_filter w h
  | intel ↦
      if has_hw_accel hw (codes "qsv")
      then sized_filter (codes "scale_qsv") w h
      else build_sw_scale_filter w h
  | amd ↦
      if has_hw_accel hw (codes "vaapi")
      then sized_filter (codes "scale_vaapi") w h
      else build_sw_scale_filter w h
  | no_vendor ↦ build_sw_scale_filter w h
]

unfoldable pub needs_scale : ℤ → ℤ → ProbeResult → Bool
unfolding is_positive int_eq
needs_scale w h probe =
    not (not (is_positive w) && not (is_positive h))
    && not (int_eq w probe.width && int_eq h probe.height)

-- The filters that put frames on an AMD device.
abbrev amd_upload : HwProfile → Args
amd_upload hw =
    if has_hw_accel hw (codes "vaapi") then codes "format=nv12" ∷ codes "hwupload" ∷ [] else []

unfoldable pub build_filter_graph : Preset → HwProfile → ProbeResult → Bytes
unfolding needs_scale has_hw_accel build_scale_filter join
build_filter_graph p hw probe =
    if needs_scale p.width p.height probe
    then join (codes ",") (
        elim hw.vendor [ amd ↦ amd_upload hw | _ ↦ [] ]
        ++ build_scale_filter p.width p.height hw ∷ [])
    else []

-- The size of a rendition, if it has one that is not the input's.
unfoldable pub new_size : Option AbrVideoSettings → ProbeResult → Option (ℤ × ℤ)
unfolding is_positive int_eq
new_size none probe = none
new_size (some v) probe =
    if not (is_positive v.width)
      || (not (is_positive v.height) || int_eq v.width probe.width && int_eq v.height probe.height)
    then none
    else some (v.width, v.height)

-- What puts the frames on the device before the scaling of a rendition of a file.
unfoldable pub upload_filters : HwProfile → Args
unfolding has_hw_accel
upload_filters hw = elim hw.vendor [
  | nvidia ↦ if has_hw_accel hw (codes "cuda") then codes "hwupload" ∷ [] else []
  | amd ↦ amd_upload hw
  | _ ↦ []
]

unfoldable pub build_hls_filter_graph : AbrRendition → HwProfile → ProbeResult → Bytes
unfolding new_size upload_filters build_scale_filter join
build_hls_filter_graph r hw probe = elim (new_size r.video probe) [
  | none ↦ []
  | some (w, h) ↦ join (codes ",") (upload_filters hw ++ build_scale_filter w h hw ∷ [])
]

unfoldable pub build_live_filter_graph : AbrRendition → HwProfile → ProbeResult → Bytes
unfolding new_size build_scale_filter
build_live_filter_graph r hw probe = elim (new_size r.video probe) [
  | none ↦ []
  | some (w, h) ↦ build_scale_filter w h hw
]

abbrev pub tonemap_filter : Args
tonemap_filter =
    codes "zscale=t=linear:npl=100"
    ∷ codes "format=gbrpf32le"
    ∷ codes "zscale=p=bt709"
    ∷ codes "tonemap=tonemap=hable:desat=0"
    ∷ codes "zscale=t=bt709:m=bt709:r=tv"
    ∷ codes "format=yuv420p"
    ∷ []

unfoldable pub build_gpu_tonemap_filter : HwProfile → Bytes
build_gpu_tonemap_filter hw = elim hw.vendor [ amd ↦ codes "tonemap_vaapi=format=nv12" | _ ↦ [] ]

-- strings.ReplaceAll of one byte.
unfoldable pub replace_byte : ℕ → Bytes → Bytes → Bytes
replace_byte old new [] = []
replace_byte old new (c ∷ s) =
    let rest = replace_byte old new s in if c == old then new ++ rest else c ∷ rest

unfoldable pub build_subtitle_filter : Bytes → Bytes
unfolding replace_byte
build_subtitle_filter path =
    codes "subtitles='"
    ++ replace_byte b':' (codes "\\:") (replace_byte b'\'' (codes "'\\''") path)
    ++ codes "'"

unfoldable pub watermark_position : Bytes → Bytes × Bytes
unfolding to_lower str_eq
watermark_position place =
    let name = to_lower place in
    if str_eq name (codes "top-left")
    then (codes "10", codes "10")
    else if str_eq name (codes "top-right")
    then (codes "W-w-10", codes "10")
    else if str_eq name (codes "bottom-left")
    then (codes "10", codes "H-h-10")
    else if str_eq name (codes "center")
    then (codes "(W-w)/2", codes "(H-h)/2")
    else (codes "W-w-10", codes "H-h-10")

unfoldable pub build_watermark_overlay : Bytes → Bytes
unfolding watermark_position
build_watermark_overlay place =
    codes "overlay=" ++ (watermark_position place).0 ++ codes ":" ++ (watermark_position place).1

unfoldable pub watermark_scale_filter : Bytes → Bytes
unfolding is_empty
watermark_scale_filter scale =
    codes "scale=iw*" ++ (if is_empty scale then codes "0.15" else scale) ++ codes ":-1"
