-- ===== src/Encoding/Usable.antt =====
-- transcode-core/abr_presets.go and live.go: the presets that are kept, and the live command's outputs.
use livepeer_modules_transco.Prelude.{
  ℕ, suc, ◌≤◌, ◌<◌, ◌≡◌, refl, sym, ap, ◌∙◌, ◌⊎◌, inl, inr, Bool, true, false, not, ◌||◌, Option,
  none, some, List, [], ◌∷◌, ◌++◌, codes, &&_intro, arith, ltb, ◌==◌, Bool-cases, &&_both, length,
  all, All, Bytes, str_eq, str_eq_refl, elem, ok,
}
use mathlib.Core.Bool.{false≢true}
use livepeer_modules_transco.Encoding.Hardware.{
  HwProfile, has_encoder, first_encoder, gpu_encoders, codec_family, software_encoder,
  encoder_for_codec, software_encoder_for_codec, is_gpu_available,
}
use livepeer_modules_transco.Encoding.Presets.{
  AbrVideoSettings, AbrRendition, AbrPreset, can_encode, can_encode_video, validate_abr_presets,
}
use livepeer_modules_transco.Encoding.Arguments.{ProbeResult}
use livepeer_modules_transco.Encoding.Arguments.{
  build_hls_audio_args, build_hw_accel_input_args, text_option, hls_video_args,
}
use livepeer_modules_transco.Encoding.Filters.{build_live_filter_graph}
use livepeer_modules_transco.Encoding.Commands.{
  LiveRtmpOutput, ten_seconds, is_blank, is_h264, live_video_args, live_output_args,
  live_ladder_cmd,
}

-- A rendition has no video, or the GPU has an encoder for it, which is the one that is chosen and
-- is not the software's.
abbrev pub IsOnGpu : HwProfile → Option AbrVideoSettings → Type 0
IsOnGpu hw none = Unit {0}
IsOnGpu hw (some v) =
    (is_gpu_available hw ≡ true)
    × (has_encoder hw (encoder_for_codec v.codec hw) ≡ true)
    × (str_eq (encoder_for_codec v.codec hw) (software_encoder_for_codec v.codec) ≡ false)

-- The choice is the GPU's, or the fallback.
first_encoder-cases :
    (hw : HwProfile) (names : List Bytes) (fallback : Bytes)
    → (has_encoder hw (first_encoder hw names fallback) ≡ true)
      ⊎ (first_encoder hw names fallback ≡ fallback)
unfolding first_encoder
first_encoder-cases hw [] fallback = inr refl
first_encoder-cases hw (name ∷ names) fallback = elim (Bool-cases (has_encoder hw name)) [
  | inl e ↦ rw e (inl e)
  | inr e ↦ rw e (first_encoder-cases hw names fallback)
]

apart_of_checked : (b : Bool) → not b ≡ true → b ≡ false
apart_of_checked true h = cc
apart_of_checked false h = refl

can_encode_video-IsOnGpu :
    (hw : HwProfile) (video : Option AbrVideoSettings)
    → can_encode_video hw video ≡ true
    → IsOnGpu hw video
unfolding can_encode_video encoder_for_codec software_encoder_for_codec
can_encode_video-IsOnGpu hw none h = tt
can_encode_video-IsOnGpu hw (some v) h =
    let (gpu, apart) = &&_both (is_gpu_available hw) _ h in
    elim (first_encoder-cases hw (gpu_encoders (codec_family v.codec))
      (software_encoder (codec_family v.codec) v.codec)) [
        | inl e ↦ (
          gpu,
          e,
          apart_of_checked
              (str_eq (encoder_for_codec v.codec hw) (software_encoder_for_codec v.codec)) apart,
        )
        | inr e ↦ absurd (
            false≢true (
              sym (
                ap not (
                  ap (λ x. str_eq x (software_encoder (codec_family v.codec) v.codec)) e
                  ∙ str_eq_refl (software_encoder (codec_family v.codec) v.codec)))
              ∙ apart))
      ]

all-IsOnGpu :
    (hw : HwProfile) (rs : List AbrRendition)
    → all (λ r. can_encode_video hw r.video) rs ≡ true
    → All (λ r. IsOnGpu hw r.video) rs
unfolding all
all-IsOnGpu hw [] h = tt
all-IsOnGpu hw (r ∷ rs) h =
    let (first, later) =
      &&_both (can_encode_video hw r.video) (all (λ q. can_encode_video hw q.video) rs) h in
    (can_encode_video-IsOnGpu hw r.video first, all-IsOnGpu hw rs later)

IsOnGpu-can_encode_video :
    (hw : HwProfile) (video : Option AbrVideoSettings)
    → IsOnGpu hw video
    → can_encode_video hw video ≡ true
unfolding can_encode_video
IsOnGpu-can_encode_video hw none h = refl
IsOnGpu-can_encode_video hw (some v) h = rw (h.0) (rw (h.2) refl)

all-can_encode_video :
    (hw : HwProfile) (rs : List AbrRendition)
    → All (λ r. IsOnGpu hw r.video) rs
    → all (λ r. can_encode_video hw r.video) rs ≡ true
unfolding all
all-can_encode_video hw [] h = refl
all-can_encode_video hw (r ∷ rs) h =
    &&_intro (can_encode_video hw r.video) (all (λ q. can_encode_video hw q.video) rs)
      (IsOnGpu-can_encode_video hw r.video (h.0)) (all-can_encode_video hw rs (h.1))

abbrev pub RunsOnGpu : HwProfile → AbrPreset → Type 0
RunsOnGpu hw p = All (λ r. IsOnGpu hw r.video) p.renditions

-- The presets in order: each that runs on the GPU is kept, and each other gives its name to the
-- skipped ones.
abbrev pub IsSorted : HwProfile → List AbrPreset → List AbrPreset → List Bytes → Type 0
IsSorted hw [] kept skipped = (kept ≡ []) × (skipped ≡ [])
IsSorted hw (p ∷ ps) kept skipped =
    ((ks : List AbrPreset) × (kept ≡ p ∷ ks) × RunsOnGpu hw p × IsSorted hw ps ks skipped)
    ⊎ ((ss : List Bytes) × (skipped ≡ p.name ∷ ss) × ¬ RunsOnGpu hw p × IsSorted hw ps kept ss)

-- ValidateABRPresets keeps, in their order, exactly the presets of which each video rendition is
-- encoded by an encoder that the GPU reports and that is not the software's, and skips the others by
-- their names, in their order.
pub validate_abr_presets-IsSorted :
    (ps : List AbrPreset) (hw : HwProfile)
    → IsSorted hw ps (validate_abr_presets ps hw).0 (validate_abr_presets ps hw).1
unfolding validate_abr_presets can_encode
validate_abr_presets-IsSorted [] hw = (refl, refl)
validate_abr_presets-IsSorted (p ∷ ps) hw =
    let rest = validate_abr_presets-IsSorted ps hw in
    elim (Bool-cases (can_encode hw p)) [
      | inl e ↦ rw e (inl (_, refl, all-IsOnGpu hw p.renditions e, rest))
      | inr e ↦
          let refused : ¬ RunsOnGpu hw p =
            λ h. false≢true (sym e ∙ all-can_encode_video hw p.renditions h) in
          rw e (inr (_, refl, refused, rest))
    ]

-- An output of the live command: named, with a URL, and of H.264 with a usable interval if it is video.
abbrev pub IsVideoPublishable : ℕ → Option AbrVideoSettings → Type 0
IsVideoPublishable interval none = Unit {0}
IsVideoPublishable interval (some v) =
    (0 < interval) × (interval ≤ ten_seconds) × (is_h264 v.codec ≡ true)

abbrev pub IsPublishable : LiveRtmpOutput → Type 0
IsPublishable o =
    (is_blank o.rendition.name ≡ false)
    × (is_blank o.url ≡ false)
    × IsVideoPublishable o.keyframe_interval o.rendition.video

-- No output has a name that was seen, or that of an earlier output.
abbrev pub AreFresh : List Bytes → List LiveRtmpOutput → Type 0
AreFresh seen [] = Unit {0}
AreFresh seen (o ∷ os) =
    (elem o.rendition.name seen ≡ false) × AreFresh (o.rendition.name ∷ seen) os

-- The stream that an output starts from.
abbrev pub stream_of : Option AbrVideoSettings → Bytes
stream_of none = codes "0:a:0?"
stream_of (some v) = codes "0:v:0"

-- The arguments are one block for each output, in order, and nothing else: a block maps the output's
-- stream first and ends with its URL as an FLV output.
abbrev pub Publishes : List LiveRtmpOutput → List Bytes → Type 0
Publishes [] args = args ≡ []
Publishes (o ∷ os) args =
    (options : List Bytes) × (rest : List Bytes) × (args
      ≡ codes "-map" ∷ stream_of o.rendition.video ∷ options
        ++ codes "-f" ∷ codes "flv" ∷ o.url ∷ rest)
    × Publishes os rest

live_video_args-ok :
    (seconds : ℕ → Bytes) (o : LiveRtmpOutput) (video : Option AbrVideoSettings) (hw : HwProfile)
    (probe : ProbeResult)
    → IsVideoPublishable o.keyframe_interval video
    → (options : List Bytes) × (live_video_args seconds o video hw probe
        ≡ ok (codes "-map" ∷ stream_of video ∷ options))
unfolding live_video_args
live_video_args-ok seconds o none hw probe h = (codes "-vn" ∷ [], refl)
live_video_args-ok seconds o (some v) hw probe (p, l, c) =
    let early : (o.keyframe_interval == 0 || ltb ten_seconds o.keyframe_interval) ≡ false =
      ground arith in
    (
      codes "-map" ∷ codes "0:a:0?" ∷ hls_video_args v hw
          ++ codes "-force_key_frames"
            ∷ (codes "expr:gte(t,n_forced*" ++ seconds o.keyframe_interval ++ codes ")")
            ∷ text_option (codes "-vf") (build_live_filter_graph o.rendition hw probe),
      rw (early, c) refl,
    )

live_output_args-ok :
    (seconds : ℕ → Bytes) (seen : List Bytes) (os : List LiveRtmpOutput) (hw : HwProfile)
    (probe : ProbeResult)
    → All IsPublishable os
    → AreFresh seen os
    → (args : List Bytes) × (live_output_args seconds seen os hw probe ≡ ok args)
      × Publishes os args
unfolding live_output_args
live_output_args-ok seconds seen [] hw probe h f = ([], refl, refl)
live_output_args-ok seconds seen (o ∷ os) hw probe ((named, located, video), later)
      (fresh, others) =
    let (options, mapped) = live_video_args-ok seconds o o.rendition.video hw probe video in
    let (rest, more, blocks) =
      live_output_args-ok seconds (o.rendition.name ∷ seen) os hw probe later others in
    let audio = build_hls_audio_args o.rendition in
    (
      (codes "-map" ∷ stream_of o.rendition.video ∷ options)
          ++ audio
          ++ codes "-f" ∷ codes "flv" ∷ o.url ∷ rest,
      rw (named, located, fresh, mapped, more) refl,
      (options ++ audio, rest, refl, blocks),
    )

-- The live command is built for any outputs that are publishable and have different names, and
-- publishes them.
pub live_ladder_cmd-Publishes :
    (seconds : ℕ → Bytes) (input : Bytes) (o : LiveRtmpOutput) (os : List LiveRtmpOutput)
    (hw : HwProfile) (probe : ProbeResult)
    → is_blank input ≡ false
    → All IsPublishable (o ∷ os)
    → AreFresh [] (o ∷ os)
    → (before : List Bytes) × (outputs : List Bytes) × (live_ladder_cmd seconds input
          (o ∷ os)
          hw
          probe
        ≡ ok (before ++ codes "-i" ∷ input ∷ outputs))
      × Publishes (o ∷ os) outputs
unfolding live_ladder_cmd
live_ladder_cmd-Publishes seconds input o os hw probe filled h f =
    let some_output : (suc (length os) == 0) ≡ false = ground arith in
    let (outputs, built, blocks) = live_output_args-ok seconds [] (o ∷ os) hw probe h f in
    (
      codes "-hide_banner"
          ∷ codes "-loglevel"
          ∷ codes "error"
          ∷ codes "-nostats"
          ∷ codes "-progress"
          ∷ codes "pipe:2"
          ∷ codes "-fflags"
          ∷ codes "+nobuffer"
          ∷ codes "-flags"
          ∷ codes "+low_delay"
          ∷ build_hw_accel_input_args hw,
      outputs,
      rw (filled, some_output, built) refl,
      blocks,
    )
