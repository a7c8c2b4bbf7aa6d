-- ===== src/Encoding/Graphs.antt =====
-- transcode-core/filters.go: the graph of a transcode with subtitles, a watermark or tone mapping.
use livepeer_modules_transco.Prelude.{
  ℕ, ◌+◌, ◌&&◌, [], ◌∷◌, ◌++◌, ◌==◌, if◌then◌else◌, length, Bytes, codes, is_empty, format_uint,
}
use livepeer_modules_transco.Encoding.Number.{ℤ, join}
use livepeer_modules_transco.Encoding.Arguments.{Args, ProbeResult, is_hdr}
use livepeer_modules_transco.Encoding.Filters.{
  TranscodeOptions, needs_scale, build_sw_scale_filter, tonemap_filter, build_subtitle_filter,
  watermark_scale_filter, build_watermark_overlay,
}

-- The type of a filter argument: none, -vf or -filter_complex.
pub data FilterArg : Type 0 where
  no_filter : FilterArg
  simple_filter complex_filter : Bytes → FilterArg

unfoldable pub simple_filters : TranscodeOptions → ProbeResult → ℤ → ℤ → Args
unfolding is_hdr needs_scale build_sw_scale_filter build_subtitle_filter is_empty
simple_filters o probe w h =
    (if o.tone_map && is_hdr probe then tonemap_filter else [])
    ++ (if needs_scale w h probe then build_sw_scale_filter w h ∷ [] else [])
    ++ (if is_empty o.subtitle_path then [] else build_subtitle_filter o.subtitle_path ∷ [])

unfoldable pub build_simple_vf : TranscodeOptions → ProbeResult → ℤ → ℤ → FilterArg
unfolding simple_filters join
build_simple_vf o probe w h =
    let filters = simple_filters o probe w h in
    if length filters == 0 then no_filter else simple_filter (join (codes ",") filters)

-- A chain of the graph so far: its parts, its current stream, and the number for the next tag.
pub record Chain : Type 0 where
  pub parts : Args
  pub stream : Bytes
  pub tag : ℕ

-- `fmt.Sprintf("%s%s%s", currentStream, filter, tag)`, after which the tag is the stream.
abbrev pub link : Bytes → Bytes → Chain → Chain
link filter name chain = record {
  parts = chain.parts ++ (chain.stream ++ filter ++ name) ∷ [];
  stream = name;
  tag = chain.tag + 1;
}

unfoldable pub tonemap_chain : TranscodeOptions → ProbeResult → Chain → Chain
unfolding is_hdr join
tonemap_chain o probe chain =
    if o.tone_map && is_hdr probe
    then link (join (codes ",") tonemap_filter) (codes "[tm]") chain
    else chain

unfoldable pub scale_chain : ProbeResult → ℤ → ℤ → Chain → Chain
unfolding needs_scale build_sw_scale_filter format_uint
scale_chain probe w h chain =
    if needs_scale w h probe
    then link (build_sw_scale_filter w h) (codes "[s" ++ format_uint chain.tag ++ codes "]") chain
    else chain

unfoldable pub subtitle_chain : TranscodeOptions → Chain → Chain
unfolding build_subtitle_filter format_uint is_empty
subtitle_chain o chain =
    if is_empty o.subtitle_path
    then chain
    else link (build_subtitle_filter o.subtitle_path)
        (codes "[sub" ++ format_uint chain.tag ++ codes "]") chain

unfoldable pub build_filter_complex : TranscodeOptions → ProbeResult → ℤ → ℤ → FilterArg
unfolding tonemap_chain scale_chain subtitle_chain watermark_scale_filter build_watermark_overlay
    join
build_filter_complex o probe w h =
    let first : Chain = record { parts = []; stream = codes "[0:v]"; tag = 0 } in
    let chain = subtitle_chain o (scale_chain probe w h (tonemap_chain o probe first)) in
    complex_filter (
      join (codes ";") (
        chain.parts
        ++ (codes "[1:v]" ++ watermark_scale_filter o.watermark_scale ++ codes "[wm]")
          ∷ (chain.stream
              ++ codes "[wm]"
              ++ build_watermark_overlay o.watermark_pos
              ++ codes "[out]")
          ∷ []))

unfoldable pub build_advanced_filter_graph : TranscodeOptions → ProbeResult → ℤ → ℤ → FilterArg
unfolding build_filter_complex build_simple_vf is_empty
build_advanced_filter_graph o probe w h =
    if is_empty o.watermark_path
    then build_simple_vf o probe w h
    else build_filter_complex o probe w h

unfoldable pub advanced_filter_args : FilterArg → Args
unfolding is_empty
advanced_filter_args no_filter = []
advanced_filter_args (simple_filter graph) = codes "-vf" ∷ graph ∷ []
advanced_filter_args (complex_filter graph) =
    codes "-filter_complex"
    ∷ graph
    ∷ codes "-map"
    ∷ codes "[out]"
    ∷ codes "-map"
    ∷ codes "0:a?"
    ∷ []
