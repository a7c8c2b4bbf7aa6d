-- ===== src/Abr/Runs.antt =====
-- abr-runner/workload_store_v2.go: the operations of the journal as one step, and histories of them.
use livepeer_modules_transco.Prelude.{
  ℕ, ◌+◌, ◌%◌, ◌≤◌, ◌<◌, ◌≡◌, refl, sym, ap, ◌∙◌, true, false, not, ◌||◌, List, [], ◌∷◌, map, arith,
  ◌==◌, length, Bytes, str_eq, is_empty, Error, Result, ok, err, ◌>>◌, reject,
}
use livepeer_modules_transco.Contract.Ident.{opaque_id, work_id}
use livepeer_modules_transco.Contract.Event.{u64_limit}
use livepeer_modules_transco.Abr.Types.{
  Host, Float64, RenditionResult, TerminalResult, TerminalError,
}
use livepeer_modules_transco.Abr.Contract.{
  validate_progress, validate_terminal_result, validate_terminal_error, validate_artifact_uri,
  calculate_units,
}
use livepeer_modules_transco.Abr.Journal.{
  Journal, PreparedRendition, PreparedArtifact, append_progress, save_prepared, save_delivered,
  save_prepared_manifest, save_delivered_manifest, record_terminal_result, record_terminal_error,
  new_journal, is_in_progress, is_some, find_entry, bad_prepared, safe_path, has_prepared,
  check_checkpoints, finish,
}
use livepeer_modules_transco.Abr.Check.{validate_loaded}
use livepeer_modules_transco.Abr.Safe.{
  JournalInv, JournalInv-validate, Saves, Saves-reject, Saves-bind, append_progress-JournalInv,
  save_prepared-JournalInv, save_delivered-JournalInv, save_prepared_manifest-JournalInv,
  save_delivered_manifest-JournalInv, record_terminal_result-JournalInv,
  record_terminal_error-JournalInv, new_journal-JournalInv,
}

-- A call of the store on one workload.
pub data JournalCall : Type 0 where
  progresses : Bytes → Float64 → Bytes → ℕ → JournalCall
  prepares_rendition : PreparedRendition → JournalCall
  delivers_rendition : RenditionResult → JournalCall
  prepares_manifest : PreparedArtifact → JournalCall
  delivers_manifest : Bytes → JournalCall
  succeeds : TerminalResult → JournalCall
  fails : TerminalError → JournalCall

unfoldable pub perform : Host → Journal → JournalCall → Result Journal
perform w j (progresses phase progress rendition frames) =
    append_progress j phase progress rendition frames
perform w j (prepares_rendition p) = save_prepared w j p
perform w j (delivers_rendition r) = save_delivered j r
perform w j (prepares_manifest p) = save_prepared_manifest w j p
perform w j (delivers_manifest uri) = save_delivered_manifest j uri
perform w j (succeeds v) = record_terminal_result j v
perform w j (fails v) = record_terminal_error j v

-- The journal on disk after a call.
abbrev pub kept : Journal → Result Journal → Journal
kept j (ok j') = j'
kept j (err e) = j

unfoldable pub run_journal : Host → Journal → List JournalCall → Journal
unfolding perform
run_journal w j [] = j
run_journal w j (c ∷ cs) = run_journal w (kept j (perform w j c)) cs

perform-JournalInv :
    (w : Host) (j : Journal) (c : JournalCall)
    → JournalInv w j
    → j.next_sequence + 1 < u64_limit
    → Saves (JournalInv w) (perform w j c)
unfolding perform
perform-JournalInv w j (progresses phase progress rendition frames) v room =
    append_progress-JournalInv w j phase progress rendition frames v room
perform-JournalInv w j (prepares_rendition p) v room = save_prepared-JournalInv w j p v
perform-JournalInv w j (delivers_rendition r) v room = save_delivered-JournalInv w j r v
perform-JournalInv w j (prepares_manifest p) v room = save_prepared_manifest-JournalInv w j p v
perform-JournalInv w j (delivers_manifest uri) v room = save_delivered_manifest-JournalInv w j uri v
perform-JournalInv w j (succeeds result) v room =
    record_terminal_result-JournalInv w j result v room
perform-JournalInv w j (fails result) v room = record_terminal_error-JournalInv w j result v room

-- No call uses up more than one sequence number or changes the workload's identity.
abbrev Steps : Journal → Journal → Type 0
Steps j j' = (j'.next_sequence ≤ j.next_sequence + 1) × (j'.workload_id ≡ j.workload_id)

next_small : (n : ℕ) → (n + 1) % u64_limit ≤ n + 1
next_small n = omega arith

result-Steps : (j : Journal) (v : TerminalResult) → Saves (Steps j) (record_terminal_result j v)
unfolding record_terminal_result finish
result-Steps j v = Saves-bind (Steps j) (validate_terminal_result v) _ λ _ _.
    Saves-reject (Steps j) (not (is_in_progress j.state)) _ _ λ _.
      Saves-reject (Steps j)
        (not (str_eq v.workload_id j.workload_id) || not (str_eq v.request_sha256 j.request_sha256))
        _ _
        λ _. Saves-reject (Steps j) (not (str_eq v.manifest_uri j.manifest_delivered_uri)) _ _ λ _.
          Saves-reject (Steps j) (not (length v.renditions == length j.delivered)) _ _ λ _.
            Saves-bind (Steps j) (check_checkpoints j.delivered v.renditions) _
              λ _ _. (next_small j.next_sequence, refl)

error-Steps : (j : Journal) (v : TerminalError) → Saves (Steps j) (record_terminal_error j v)
unfolding record_terminal_error finish
error-Steps j v = Saves-bind (Steps j) (validate_terminal_error v) _ λ _ _.
    Saves-reject (Steps j) (not (is_in_progress j.state)) _ _ λ _.
      Saves-reject (Steps j)
        (not (str_eq v.workload_id j.workload_id) || not (str_eq v.request_sha256 j.request_sha256))
        _ _
        λ _.
          Saves-bind (Steps j) (calculate_units (map (λ entry. entry.1) j.delivered)) _ λ units _.
            Saves-reject (Steps j) (not (v.usage.units == units)) _ _
              λ _. (next_small j.next_sequence, refl)

perform-Steps : (w : Host) (j : Journal) (c : JournalCall) → Saves (Steps j) (perform w j c)
unfolding perform append_progress save_prepared save_delivered save_prepared_manifest
    save_delivered_manifest
perform-Steps w j (progresses phase progress rendition frames) =
    Saves-reject (Steps j) (not (is_in_progress j.state)) _ _
      λ _. Saves-bind (Steps j) (validate_progress _) _ λ _ _. (next_small j.next_sequence, refl)
perform-Steps w j (prepares_rendition p) =
    Saves-reject (Steps j) (not (is_in_progress j.state) || bad_prepared w p) _ _ λ _.
      Saves-reject (Steps j) (is_some (find_entry p.name j.delivered)) _ _ λ _. (omega arith, refl)
perform-Steps w j (delivers_rendition r) =
    Saves-reject (Steps j) (not (is_in_progress j.state)) _ _ λ _.
      Saves-reject (Steps j) (not (has_prepared (find_entry r.name j.prepared) r)) _ _ λ _.
        Saves-bind (Steps j) (validate_artifact_uri r.playlist_uri) _ λ _ _.
          Saves-bind (Steps j) (validate_artifact_uri r.stream_uri) _ λ _ _. (omega arith, refl)
perform-Steps w j (prepares_manifest p) =
    Saves-reject (Steps j)
      (not (is_in_progress j.state)
        || (not (is_empty j.manifest_delivered_uri)
            || (not (safe_path w p.path) || not (work_id p.sha256))))
      _ _ λ _. (omega arith, refl)
perform-Steps w j (delivers_manifest uri) =
    Saves-reject (Steps j) (not (is_in_progress j.state) || not (is_some j.manifest_prepared)) _ _
      λ _. Saves-bind (Steps j) (validate_artifact_uri uri) _ λ _ _. (omega arith, refl)
perform-Steps w j (succeeds v) = result-Steps j v
perform-Steps w j (fails v) = error-Steps j v

-- One call on a journal with room for its number.
kept-JournalInv :
    (w : Host) (j : Journal) (m : Result Journal)
    → JournalInv w j
    → Saves (JournalInv w) m
    → Saves (Steps j) m
    → JournalInv w (kept j m)
      × ((kept j m).next_sequence ≤ j.next_sequence + 1)
      × ((kept j m).workload_id ≡ j.workload_id)
kept-JournalInv w j (ok j') v h s = (h, s.0, s.1)
kept-JournalInv w j (err e) v h s = (v, omega arith, refl)

run_journal-JournalInv :
    (w : Host) (j : Journal) (cs : List JournalCall)
    → JournalInv w j
    → j.next_sequence + length cs < u64_limit
    → JournalInv w (run_journal w j cs) × ((run_journal w j cs).workload_id ≡ j.workload_id)
unfolding run_journal
run_journal-JournalInv w j [] v room = (v, refl)
run_journal-JournalInv w j (c ∷ cs) v room =
    let first =
      kept-JournalInv w j (perform w j c) v (perform-JournalInv w j c v (omega arith))
        (perform-Steps w j c) in
    let rest =
      run_journal-JournalInv w (kept j (perform w j c)) cs first.0 (omega (arith, first.1)) in
    (rest.0, rest.1 ∙ first.2)

-- After LoadOrCreate makes the journal of a workload, any history of fewer than 2 ^ 64 - 1 calls of
-- the store, failed calls included, leaves a journal that the next load of that workload accepts.
pub run_journal-validates :
    (w : Host) (id sha : Bytes) (cs : List JournalCall)
    → opaque_id id ≡ true
    → work_id sha ≡ true
    → 1 + length cs < u64_limit
    → validate_loaded w id (run_journal w (new_journal id sha) cs) ≡ ok tt
unfolding new_journal
run_journal-validates w id sha cs i s room =
    let last =
      run_journal-JournalInv w (new_journal id sha) cs (new_journal-JournalInv w id sha i s) room in
    ap (λ q. validate_loaded w q (run_journal w (new_journal id sha) cs)) (sym last.1)
    ∙ JournalInv-validate w (run_journal w (new_journal id sha) cs) last.0

refused_result :
    (j : Journal) (m : Result (Unit {0})) (e : Error) (k : Result Journal)
    → is_in_progress j.state ≡ false
    → kept j (m >> (reject (not (is_in_progress j.state)) e >> k)) ≡ j
refused_result j (err e) d k h = refl
refused_result j (ok u) d k h = rw h

perform_finished :
    (w : Host) (j : Journal) (c : JournalCall)
    → is_in_progress j.state ≡ false
    → kept j (perform w j c) ≡ j
unfolding perform append_progress save_prepared save_delivered save_prepared_manifest
    save_delivered_manifest record_terminal_result record_terminal_error
perform_finished w j (progresses phase progress rendition frames) h = rw h
perform_finished w j (prepares_rendition p) h = rw h
perform_finished w j (delivers_rendition r) h = rw h
perform_finished w j (prepares_manifest p) h = rw h
perform_finished w j (delivers_manifest uri) h = rw h
perform_finished w j (succeeds v) h = refused_result j (validate_terminal_result v) _ _ h
perform_finished w j (fails v) h = refused_result j (validate_terminal_error v) _ _ h

-- No history of calls changes the journal of a workload that is not in progress: its first terminal
-- event, with the bill in it, stays.
pub run_journal-finished :
    (w : Host) (j : Journal) (cs : List JournalCall)
    → is_in_progress j.state ≡ false
    → run_journal w j cs ≡ j
unfolding run_journal
run_journal-finished w j [] h = refl
run_journal-finished w j (c ∷ cs) h =
    let same = perform_finished w j c h in
    ap (λ q. run_journal w q cs) same ∙ run_journal-finished w j cs h
