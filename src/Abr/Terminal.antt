-- ===== src/Abr/Terminal.antt =====
-- abr-runner/workload_store_v2.go: the results that RecordTerminalResult takes, and their bill.
use livepeer_modules_transco.Prelude.{
  str_eq_apart, ℕ, suc, ◌+◌, ◌≤◌, ◌<◌, ◌≡◌, refl, sym, ap, ◌∙◌, inl, inr, true, false, Option, none,
  some, List, [], ◌∷◌, map, arith, ltb, if◌then◌else◌, Bool-cases, length, All, Bytes, codes,
  str_eq, str_eq→eq, elem, subst, ok,
}
use livepeer_modules_transco.Contract.Event.{u64_limit}
use livepeer_modules_transco.Abr.Types.{DeliveredVideo, RenditionResult, TerminalResult}
use livepeer_modules_transco.Abr.Contract.{
  bad_video, check_renditions, calculate_units, validate_terminal_result,
}
use livepeer_modules_transco.Abr.Journal.{
  Journal, find_entry, same_video, prepared_matches_result, results_equal, has_checkpoint,
  check_checkpoints, record_terminal_result, finish, succeeded, result_payload,
}
use livepeer_modules_transco.Abr.Billing.{
  pixels_of, total_pixels, HasRows, IsCeiling, calculate_units-exact, is_ok,
}

-- The rendition results of the checkpoints.
abbrev pub results_of : List (Bytes × RenditionResult) → List RenditionResult
results_of delivered = map (λ entry. entry.1) delivered

remove_entry : Bytes → List (Bytes × RenditionResult) → List (Bytes × RenditionResult)
remove_entry name [] = []
remove_entry name ((key, r) ∷ entries) =
    if str_eq key name then entries else (key, r) ∷ remove_entry name entries

same_video-pixels :
    (v v' : Option DeliveredVideo) → same_video v v' ≡ true → pixels_of v ≡ pixels_of v'
unfolding same_video
same_video-pixels none none h = refl
same_video-pixels none (some v) h = cc
same_video-pixels (some v) none h = cc
same_video-pixels (some v) (some v') h =
    let frames : v.actual_frames ≡ v'.actual_frames = ground arith in
    let width : v.width ≡ v'.width = ground arith in
    let height : v.height ≡ v'.height = ground arith in cc

checkpoint-pixels :
    (c r : RenditionResult)
    → has_checkpoint (some c) r ≡ true
    → pixels_of c.video ≡ pixels_of r.video
unfolding has_checkpoint results_equal prepared_matches_result
checkpoint-pixels c r h = same_video-pixels c.video r.video (ground arith)

-- A checkpoint that is found counts once.
remove_entry-total :
    (name : Bytes) (entries : List (Bytes × RenditionResult)) (c : RenditionResult)
    → find_entry name entries ≡ some c
    → (total_pixels (results_of entries)
        ≡ pixels_of c.video + total_pixels (results_of (remove_entry name entries)))
      × (length entries ≡ suc (length (remove_entry name entries)))
unfolding find_entry remove_entry total_pixels
remove_entry-total name [] c h = cc
remove_entry-total name ((key, r) ∷ entries) c h = elim (Bool-cases (str_eq key name)) [
  | inl e ↦
      let same : r ≡ c = ground arith in
      rw e (ap (λ q. pixels_of q.video + total_pixels (results_of entries)) same, refl)
  | inr e ↦
      let found : find_entry name entries ≡ some c = ground arith in
      let rest = remove_entry-total name entries c found in
      rw e (omega (arith, rest.0), ap suc rest.1)
]

find_entry-remove_entry :
    (name other : Bytes) (entries : List (Bytes × RenditionResult))
    → str_eq other name ≡ false
    → find_entry other (remove_entry name entries) ≡ find_entry other entries
unfolding find_entry remove_entry
find_entry-remove_entry name other [] h = refl
find_entry-remove_entry name other ((key, r) ∷ entries) h = elim (Bool-cases (str_eq key name)) [
  | inl e ↦
      let apart : str_eq key other ≡ false =
        rw (str_eq→eq key name e) (str_eq_apart other name h) in
      rw (e, apart)
  | inr e ↦ rw e (
      ap (λ q. if str_eq key other then some r else q)
        (find_entry-remove_entry name other entries h))
]

-- A name is none of the names before.
abbrev Apart : List Bytes → RenditionResult → Type 0
Apart seen r = elem r.name seen ≡ false

rendition_parts :
    (seen : List Bytes) (r : RenditionResult) (rs : List RenditionResult)
    → check_renditions seen (r ∷ rs) ≡ ok tt
    → (elem r.name seen ≡ false)
      × (bad_video r.video ≡ false)
      × (check_renditions (r.name ∷ seen) rs ≡ ok tt)
unfolding check_renditions
rendition_parts seen r rs h = ground arith

earlier_names :
    (name : Bytes) (seen : List Bytes) (rs : List RenditionResult)
    → All (Apart (name ∷ seen)) rs
    → All (Apart seen) rs × All (λ r. str_eq r.name name ≡ false) rs
unfolding elem
earlier_names name seen [] h = (tt, tt)
earlier_names name seen (r ∷ rs) h =
    let rest = earlier_names name seen rs h.1 in ((ground arith, rest.0), (ground arith, rest.1))

rows : (r : RenditionResult) → bad_video r.video ≡ false → HasRows r
unfolding bad_video
rows r h v e = ground arith

check_renditions-Apart :
    (seen : List Bytes) (rs : List RenditionResult)
    → check_renditions seen rs ≡ ok tt
    → All (Apart seen) rs × All HasRows rs
check_renditions-Apart seen [] h = (tt, tt)
check_renditions-Apart seen (r ∷ rs) h =
    let parts = rendition_parts seen r rs h in
    let rest = check_renditions-Apart (r.name ∷ seen) rs parts.2 in
    ((parts.0, (earlier_names r.name seen rs rest.0).0), (rows r parts.1, rest.1))

check_checkpoints-remove_entry :
    (name : Bytes) (entries : List (Bytes × RenditionResult)) (rs : List RenditionResult)
    → All (λ r. str_eq r.name name ≡ false) rs
    → check_checkpoints entries rs ≡ ok tt
    → check_checkpoints (remove_entry name entries) rs ≡ ok tt
unfolding check_checkpoints
check_checkpoints-remove_entry name entries [] apart h = refl
check_checkpoints-remove_entry name entries (r ∷ rs) apart h =
    let same = find_entry-remove_entry name r.name entries apart.0 in
    rw same (ground (arith, check_checkpoints-remove_entry name entries rs apart.1))

found_by :
    (entries : List (Bytes × RenditionResult)) (r : RenditionResult)
    → has_checkpoint (find_entry r.name entries) r ≡ true
    → (c : RenditionResult) × (find_entry r.name entries ≡ some c)
      × (has_checkpoint (some c) r ≡ true)
unfolding has_checkpoint
found_by entries r h = go (find_entry r.name entries) refl
  where
    go :
        (found : Option RenditionResult)
        → find_entry r.name entries ≡ found
        → (c : RenditionResult) × (find_entry r.name entries ≡ some c)
          × (has_checkpoint (some c) r ≡ true)
    go none e = let missing = sym (ap (λ q. has_checkpoint q r) e) ∙ h in cc
    go (some c) e = (c, e, sym (ap (λ q. has_checkpoint q r) e) ∙ h)

-- Results with different names and a checkpoint each, as many as there are checkpoints, have the
-- checkpoints' pixels.
checkpoints-total :
    (seen : List Bytes) (entries : List (Bytes × RenditionResult)) (rs : List RenditionResult)
    → check_renditions seen rs ≡ ok tt
    → check_checkpoints entries rs ≡ ok tt
    → length rs ≡ length entries
    → total_pixels rs ≡ total_pixels (results_of entries)
unfolding total_pixels check_renditions check_checkpoints
checkpoints-total seen [] [] d h l = refl
checkpoints-total seen (e ∷ entries) [] d h l = omega arith
checkpoints-total seen entries (r ∷ rs) d h l =
    let parts = rendition_parts seen r rs d in
    let checked : has_checkpoint (find_entry r.name entries) r ≡ true = ground arith in
    let others : check_checkpoints entries rs ≡ ok tt = ground arith in
    let (c, found, same) = found_by entries r checked in
    let removed = remove_entry-total r.name entries c found in
    let apart =
      earlier_names r.name seen rs (check_renditions-Apart (r.name ∷ seen) rs parts.2).0 in
    let rest =
      checkpoints-total (r.name ∷ seen) (remove_entry r.name entries) rs parts.2
        (check_checkpoints-remove_entry r.name entries rs apart.1 others)
        (omega (arith, removed.1)) in
    omega (arith, removed.0, checkpoint-pixels c r same, rest)

-- A bill that is returned is exact.
billed :
    (rs : List RenditionResult) (units : ℕ)
    → (total_pixels rs < u64_limit
        → (n : ℕ) × (calculate_units rs ≡ ok n) × IsCeiling (total_pixels rs) n)
      × (u64_limit ≤ total_pixels rs → is_ok (calculate_units rs) ≡ false)
    → calculate_units rs ≡ ok units
    → (total_pixels rs < u64_limit) × IsCeiling (total_pixels rs) units
billed rs units exact h = elim (Bool-cases (ltb (total_pixels rs) u64_limit)) [
  | inl small ↦
      let below : total_pixels rs < u64_limit = ground arith in
      let (n, eq, covers) = exact.0 below in
      let same : n ≡ units = cc in (below, subst (IsCeiling (total_pixels rs)) same covers)
  | inr large ↦
      let fails = exact.1 (ground arith) in
      let succeeds : is_ok (calculate_units rs) ≡ true = ap is_ok h in cc
]

result_parts :
    (j j' : Journal) (v : TerminalResult)
    → record_terminal_result j v ≡ ok j'
    → (check_renditions [] v.renditions ≡ ok tt)
      × (check_checkpoints j.delivered v.renditions ≡ ok tt)
      × (length v.renditions ≡ length j.delivered)
      × (calculate_units v.renditions ≡ ok v.usage.units)
      × (j' ≡ finish j succeeded (codes "succeeded") (codes "result") (result_payload v))
unfolding record_terminal_result validate_terminal_result
result_parts j j' v h = ground arith

-- When the journal records a result, the claimed units are the least number of millions that covers
-- the pixels of the delivered checkpoints, whose count is below 2 ^ 64, each checkpoint counted
-- once; and the workload has succeeded with that result as its terminal event.
pub record_terminal_result-bills :
    (j j' : Journal) (v : TerminalResult)
    → record_terminal_result j v ≡ ok j'
    → (total_pixels (results_of j.delivered) < u64_limit)
      × IsCeiling (total_pixels (results_of j.delivered)) v.usage.units
      × (j'.state ≡ succeeded)
      × (j'.terminal_event
          ≡ some (record {
            sequence = j.next_sequence;
            event = codes "result";
            data_value = result_payload v;
          }))
unfolding finish
record_terminal_result-bills j j' v h =
    let parts = result_parts j j' v h in
    let exact =
      calculate_units-exact v.renditions (check_renditions-Apart [] v.renditions parts.0).1 in
    let same = checkpoints-total [] j.delivered v.renditions parts.0 parts.1 parts.2 in
    let (small, covers) = billed v.renditions v.usage.units exact parts.3 in
    (
      rw (← same) small,
      rw (← same) covers,
      ap (λ q. q.state) parts.4,
      ap (λ q. q.terminal_event) parts.4,
    )
