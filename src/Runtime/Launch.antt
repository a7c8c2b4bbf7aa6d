-- ===== src/Runtime/Launch.antt =====
-- live-runner/runtime.go and transcode-core/live.go: the command of a validated session.
use livepeer_modules_transco.Prelude.{
  ℕ, ◌≤◌, ◌<◌, ◌≡◌, refl, sym, ap, ◌∙◌, inl, inr, false, not, ◌||◌, Option, none, some, List, [],
  ◌∷◌, ◌++◌, map, arith, ◌==◌, if◌then◌else◌, Bool-cases, length, any, All, Bytes, codes, str_eq,
  is_empty, elem, subst, Result, ok, err, ◌>>◌, reject, reject-then,
}
use livepeer_modules_transco.Contract.Types.{SessionParams}
use livepeer_modules_transco.Contract.Details.{to_lower}
use livepeer_modules_transco.Encoding.Number.{ℤ, pos, negsuc}
use livepeer_modules_transco.Encoding.Hardware.{HwProfile, equal_fold}
use livepeer_modules_transco.Encoding.Presets.{AbrVideoSettings, AbrRendition, AbrPreset}
use livepeer_modules_transco.Encoding.Arguments.{ProbeResult}
use livepeer_modules_transco.Encoding.Commands.{LiveRtmpOutput, is_blank, live_ladder_cmd}
use livepeer_modules_transco.Encoding.Usable.{
  IsPublishable, IsVideoPublishable, AreFresh, Publishes, stream_of, live_ladder_cmd-Publishes,
}
use livepeer_modules_transco.Runtime.Coordinator.{
  bad_segment_duration, add_presets, find_profile, is_not_h264, check_profile_renditions,
  check_profile, validate_session, seconds_of, ladder_outputs,
}

-- The names of renditions, none blank, none twice.
abbrev pub AreNames : List Bytes → List AbrRendition → Type 0
AreNames seen [] = Unit {0}
AreNames seen (r ∷ rs) =
    (is_blank r.name ≡ false) × (elem r.name seen ≡ false) × AreNames (r.name ∷ seen) rs

-- A profile of the runtime has renditions and a segment duration from 1 to 10.
add_presets-found :
    (seen : List Bytes) (ps : List AbrPreset) (profile : Bytes) (p : AbrPreset)
    → add_presets seen ps ≡ ok tt
    → find_profile ps profile ≡ some p
    → ((length p.renditions == 0) ≡ false) × (bad_segment_duration p.segment_duration ≡ false)
unfolding add_presets find_profile
add_presets-found seen [] profile p h f = cc
add_presets-found seen (q ∷ ps) profile p h f =
    let refused =
      is_empty (to_lower q.name)
      || (length q.renditions == 0 || bad_segment_duration q.segment_duration) in
    let known = elem (to_lower q.name) seen in
    let (sound, unique_rest) = reject-then refused _ _ tt h in
    let (unique, rest) = reject-then known _ _ tt unique_rest in
    elim (Bool-cases (str_eq (to_lower q.name) (to_lower profile))) [
      | inl same ↦
          let here : some q ≡ some p =
            sym (ap (λ b. if b then some q else find_profile ps profile) same) ∙ f in
          let same_preset : q ≡ p = cc in
          subst
            (λ x.
              ((length x.renditions == 0) ≡ false)
              × (bad_segment_duration x.segment_duration ≡ false))
            same_preset (ground arith, ground arith)
      | inr other ↦
          add_presets-found (to_lower q.name ∷ seen) ps profile p rest
            (sym (ap (λ b. if b then some q else find_profile ps profile) other) ∙ f)
    ]

check_profile_renditions-All :
    (rs : List AbrRendition)
    → check_profile_renditions rs ≡ ok tt
    → All (λ r. is_not_h264 r.video ≡ false) rs
unfolding check_profile_renditions
check_profile_renditions-All [] h = tt
check_profile_renditions-All (r ∷ rs) h =
    let (video, audio_rest) = reject-then (is_not_h264 r.video) _ _ tt h in
    let (audio, rest) =
      reject-then (not (equal_fold r.audio.codec (codes "aac"))) _ _ tt audio_rest in
    (video, check_profile_renditions-All rs rest)

seconds_of-bounds :
    (n : ℤ) → bad_segment_duration n ≡ false → (0 < seconds_of n) × (seconds_of n ≤ 10000000000)
unfolding bad_segment_duration seconds_of
seconds_of-bounds (pos n) h = (ground arith, ground arith)
seconds_of-bounds (negsuc n) h = cc

is_not_h264-IsVideoPublishable :
    (n : ℕ) (video : Option AbrVideoSettings)
    → 0 < n
    → n ≤ 10000000000
    → is_not_h264 video ≡ false
    → IsVideoPublishable n video
unfolding is_not_h264
is_not_h264-IsVideoPublishable n none l u h = tt
is_not_h264-IsVideoPublishable n (some v) l u h = (l, u, ground arith)

abbrev output_of : (Bytes → Bytes) → ℕ → AbrRendition → LiveRtmpOutput
output_of url_of n r = record { rendition = r; url = url_of r.name; keyframe_interval = n }

-- The outputs of a sound profile with good names.
module _ (url_of : Bytes → Bytes) (n : ℕ) (low : 0 < n) (high : n ≤ 10000000000)
    (located : (name : Bytes) → is_blank (url_of name) ≡ false) where
  outputs-IsPublishable :
      (seen : List Bytes) (rs : List AbrRendition)
      → AreNames seen rs
      → All (λ r. is_not_h264 r.video ≡ false) rs
      → All IsPublishable (map (output_of url_of n) rs)
        × AreFresh seen (map (output_of url_of n) rs)
  outputs-IsPublishable seen [] names h264s = (tt, tt)
  outputs-IsPublishable seen (r ∷ rs) (named, fresh, names) (video, h264s) =
      let (rest, others) = outputs-IsPublishable (r.name ∷ seen) rs names h264s in
      (
        ((named, located r.name, is_not_h264-IsVideoPublishable n r.video low high video), rest),
        (fresh, others),
      )

-- A block for each rendition: the stream that it starts from, and its URL at the end.
abbrev pub ArePublished : (Bytes → Bytes) → List AbrRendition → List Bytes → Type 0
ArePublished url_of [] args = args ≡ []
ArePublished url_of (r ∷ rs) args =
    (options : List Bytes) × (rest : List Bytes) × (args
      ≡ codes "-map" ∷ stream_of r.video ∷ options
        ++ codes "-f" ∷ codes "flv" ∷ url_of r.name ∷ rest)
    × ArePublished url_of rs rest

published :
    (url_of : Bytes → Bytes) (n : ℕ) (rs : List AbrRendition) (args : List Bytes)
    → Publishes (map (output_of url_of n) rs) args
    → ArePublished url_of rs args
published url_of n [] args h = h
published url_of n (r ∷ rs) args (options, rest, block, more) =
    (options, rest, block, published url_of n rs rest more)

first_ok : (m k : Result (Unit {0})) → (m >> k) ≡ ok tt → m ≡ ok tt
first_ok (ok done) k h = refl
first_ok (err e) k h = cc

-- The command of the ladder can be built for each session that ValidateSession accepts, on presets
-- that the runtime accepts, where the profile's rendition names are different and none is blank, and
-- the input and the renditions have URLs. After the input, its arguments are one block for each
-- rendition of the profile, in order, and nothing else: a block maps the input's video, or its audio
-- where the rendition has no video, and ends with the rendition's URL as an FLV output.
pub validate_session-launches :
    (url_of : Bytes → Bytes) (digits : ℕ → Bytes) (presets : List AbrPreset)
    (params : SessionParams) (p : AbrPreset) (input : Bytes) (hw : HwProfile) (probe : ProbeResult)
    → add_presets [] presets ≡ ok tt
    → validate_session presets params ≡ ok tt
    → find_profile presets params.output_profile ≡ some p
    → AreNames [] p.renditions
    → ((name : Bytes) → is_blank (url_of name) ≡ false)
    → is_blank input ≡ false
    → (before : List Bytes) × (outputs : List Bytes) × (live_ladder_cmd digits input
          (ladder_outputs url_of p)
          hw
          probe
        ≡ ok (before ++ codes "-i" ∷ input ∷ outputs))
      × ArePublished url_of p.renditions outputs
unfolding validate_session check_profile ladder_outputs
validate_session-launches url_of digits presets params p input hw probe sound valid found names
      located filled =
    let (some_renditions, duration) =
      add_presets-found [] presets params.output_profile p sound found in
    let (low, high) = seconds_of-bounds p.segment_duration duration in
    let checked : check_profile (some p) params.metering_rendition ≡ ok tt =
      sym (ap (λ o. check_profile o params.metering_rendition) found) ∙ valid in
    let metered = any (λ r. str_eq r.name params.metering_rendition) p.renditions in
    let h264s =
      check_profile_renditions-All p.renditions (first_ok _ (reject (not metered) _) checked) in
    go p.renditions some_renditions names h264s low high
  where
    go :
        (rs : List AbrRendition)
        → ((length rs == 0) ≡ false)
        → AreNames [] rs
        → All (λ r. is_not_h264 r.video ≡ false) rs
        → 0 < seconds_of p.segment_duration
        → seconds_of p.segment_duration ≤ 10000000000
        → (before : List Bytes) × (outputs : List Bytes) × (live_ladder_cmd digits input
              (map (output_of url_of (seconds_of p.segment_duration)) rs)
              hw
              probe
            ≡ ok (before ++ codes "-i" ∷ input ∷ outputs))
          × ArePublished url_of rs outputs
    go [] some_names unique h264s low high = cc
    go (r ∷ rs) some_names unique h264s low high =
        let n = seconds_of p.segment_duration in
        let (good, fresh) =
          outputs-IsPublishable url_of n low high located [] (r ∷ rs) unique h264s in
        let (before, outputs, built, blocks) =
          live_ladder_cmd-Publishes digits input (output_of url_of n r)
            (map (output_of url_of n) rs) hw probe filled good fresh in
        (before, outputs, built, published url_of n (r ∷ rs) outputs blocks)
