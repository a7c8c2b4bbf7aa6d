-- ===== src/Vod/Ends.antt =====
-- transcode-runner/vod_v2.go: the bill for a video, and the journal that a run leaves.
use livepeer_modules_transco.Prelude.{
  ℕ, ◌*◌, ◌/◌, ◌%◌, ◌≡◌, ap, ◌∙◌, ◌⊎◌, true, false, not, Option, none, some, arith, ◌==◌, subst,
  Result, ok, ◌>>=◌, reject-then,
}
use livepeer_modules_transco.Contract.Event.{u64_limit}
use livepeer_modules_transco.Abr.Contract.{mul64}
use livepeer_modules_transco.Abr.Billing.{IsCeiling, ceiling, ceiling-IsCeiling}
use livepeer_modules_transco.Vod.Journal.{
  VodVideo, VodResult, in_progress, succeeded, failed, VodJournal, vod_units, vod_terminal_units,
}
use livepeer_modules_transco.Session.Check.{is_ok}
use livepeer_modules_transco.Vod.Execute.{
  VodEnvironment, reloads_prepared, saves_terminal, done, gave_up, panicked, has_vod_video, Step,
}

-- The pixels of a video, without bounds, 0 where there is none.
abbrev pub vod_pixels : Option VodVideo → ℕ
vod_pixels none = 0
vod_pixels (some v) = v.actual_frames * v.width * v.height

-- When vodUnitsV2 returns a bill, it is the least number of millions that covers the frames times
-- the width times the height of the video, computed without bounds, and 0 where there is no video.
pub vod_units-IsCeiling :
    (video : Option VodVideo) (units : ℕ)
    → vod_units video ≡ ok units
    → IsCeiling (vod_pixels video) units
unfolding vod_units mul64
vod_units-IsCeiling none units h = ground arith
vod_units-IsCeiling (some v) units h =
    let a = v.actual_frames * v.width % u64_limit in
    let p = a * v.height % u64_limit in
    let (narrow, tall_rest) =
      reject-then (not (v.actual_frames * v.width / u64_limit == 0)) _ _ units h in
    let (tall, billed) = reject-then (not (a * v.height / u64_limit == 0)) _ _ units tall_rest in
    let rows : a ≡ v.actual_frames * v.width = ground arith in
    let whole : p ≡ a * v.height = ground arith in
    let exact : p ≡ v.actual_frames * v.width * v.height = whole ∙ ap (λ n. n * v.height) rows in
    let bill : ceiling p ≡ units = cc in
    subst (λ n. IsCeiling n units) exact (subst (IsCeiling p) bill (ceiling-IsCeiling p))

-- A run, and what an upload that succeeds shows.
module _ (env : VodEnvironment) (D : Type 0) (sent : env.upload ≡ ok tt → D) where
  -- The journal is in progress, and if it is marked delivered then `D`.
  abbrev Running : VodJournal → Type 0
  Running j = (j.state ≡ in_progress) × (j.delivered ≡ true → D)

  -- The journal of a step is running, `Q` holds of it and of the value, and a panic is due to the
  -- reload.
  abbrev Yields : {A : Type 0} → (VodJournal → A → Type 0) → Step A → Type 0
  Yields Q (j, done a) = Running j × Q j a
  Yields Q (j, gave_up e) = Running j
  Yields Q (j, panicked) = Running j × (is_ok (env.store reloads_prepared) ≡ false)

  abbrev Anything : {A : Type 0} → VodJournal → A → Type 0
  Anything j a = Unit {0}

  -- A prepared output has a video, and an error that is passed on is that of the reload.
  abbrev IsPrepared : VodJournal → Result (Unit {0}) → Type 0
  IsPrepared j reloaded =
      (has_vod_video j.video ≡ true)
      × (is_ok reloaded ≡ false → is_ok (env.store reloads_prepared) ≡ false)

  abbrev IsMarked : VodJournal → Unit {0} → Type 0
  IsMarked j delivered_now = j.delivered ≡ true

  -- What a result claims of its journal.
  abbrev IsBilled : VodJournal → VodResult → Type 0
  IsBilled j result = (j.delivered ≡ true) × (vod_units j.video ≡ ok result.usage.units)

-- A workload that succeeded is delivered, so `D`, and bills its video; one that failed bills nothing.
abbrev pub HasEnded : Type 0 → VodJournal → Type 0
HasEnded D j =
    ((j.state ≡ succeeded)
      × (j.delivered ≡ true)
      × D
      × IsCeiling (vod_pixels j.video) (vod_terminal_units j))
    ⊎ ((j.state ≡ failed) × (vod_terminal_units j ≡ 0))

-- The workload has ended, or it is still in progress because the reload of the prepared journal or
-- the last call of the store failed.
abbrev pub Ends : VodEnvironment → Type 0 → VodJournal → Type 0
Ends env D j =
    HasEnded D j
    ⊎ ((j.state ≡ in_progress)
        × ((is_ok (env.store reloads_prepared) ≡ false)
            ⊎ (is_ok (env.store saves_terminal) ≡ false)))
