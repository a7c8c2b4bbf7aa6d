-- ===== src/Abr/Check.antt =====
-- abr-runner/workload_store_v2.go: what loadLocked demands of a journal.
use livepeer_modules_transco.Prelude.{
  ℕ, Bool, true, false, not, ◌&&◌, ◌||◌, Option, none, some, List, leb, ◌==◌, if◌then◌else◌, all,
  Bytes, codes, str_eq, is_empty, invalid, Result, ok, ◌>>◌, reject,
}
use livepeer_modules_transco.Contract.Ident.{opaque_id, work_id}
use livepeer_modules_transco.Abr.Types.{Host, RenditionResult}
use livepeer_modules_transco.Abr.Contract.{validate_artifact_uri}
use livepeer_modules_transco.Abr.Journal.{
  Journal, PreparedRendition, PreparedArtifact, StoredEvent, is_in_progress, is_finished, is_some,
  find_entry, safe_path, has_prepared,
}

-- Equality of truth values.
abbrev pub is_same : Bool → Bool → Bool
is_same true b = b
is_same false b = not b

-- A terminal event whose number or name is wrong.
unfoldable pub bad_terminal : ℕ → Option StoredEvent → Bool
unfolding str_eq
bad_terminal next none = false
bad_terminal next (some e) =
    leb next e.sequence
    || (not (str_eq e.event (codes "result")) && not (str_eq e.event (codes "error")))

unfoldable pub check_prepared : Host → Bytes × PreparedRendition → Bool
unfolding str_eq safe_path
check_prepared w (name, p) =
    str_eq name p.name
    && (safe_path w p.playlist_path
        && (safe_path w p.stream_path && (work_id p.playlist_sha256 && work_id p.stream_sha256)))

unfoldable pub check_delivered : List (Bytes × PreparedRendition) → Bytes × RenditionResult → Bool
unfolding str_eq has_prepared find_entry
check_delivered prepared (name, r) = str_eq name r.name && has_prepared (find_entry name prepared) r

unfoldable pub check_artifact : Host → Option PreparedArtifact → Bool
unfolding safe_path
check_artifact w none = true
check_artifact w (some p) = safe_path w p.path && work_id p.sha256

unfoldable pub check_manifest : Journal → Result (Unit {0})
unfolding is_empty
check_manifest j = if is_empty j.manifest_delivered_uri then ok tt else (do
  reject (not (is_some j.manifest_prepared))
      (invalid "delivered manifest has no prepared checkpoint")
  validate_artifact_uri j.manifest_delivered_uri)

-- validateJournalLocked.
unfoldable pub validate_journal : Host → Journal → Result (Unit {0})
unfolding bad_terminal check_prepared check_delivered check_artifact check_manifest all
validate_journal w j = do
  reject (j.next_sequence == 0) (invalid "next event sequence must be positive")
  reject (not (is_in_progress j.state) && not (is_finished j.state))
      (invalid "unknown workload state")
  reject (not (is_same (is_finished j.state) (is_some j.terminal_event)))
      (invalid "terminal state and event disagree")
  reject (bad_terminal j.next_sequence j.terminal_event)
      (invalid "terminal event identity is invalid")
  reject (not (all (check_prepared w) j.prepared)) (invalid "prepared checkpoint is invalid")
  reject (not (all (check_delivered j.prepared) j.delivered))
      (invalid "delivered checkpoint is invalid")
  reject (not (check_artifact w j.manifest_prepared))
      (invalid "prepared manifest checkpoint is invalid")
  check_manifest j

-- The checks of loadLocked on the decoded journal.
unfoldable pub validate_loaded : Host → Bytes → Journal → Result (Unit {0})
unfolding validate_journal str_eq
validate_loaded w id j = do
  reject (not (opaque_id id)) (invalid "invalid workload ID")
  reject (not (j.version == 1) || (not (str_eq j.workload_id id) || not (work_id j.request_sha256)))
      (invalid "workload journal failed identity validation")
  validate_journal w j
