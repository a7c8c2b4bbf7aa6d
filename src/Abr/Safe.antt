-- ===== src/Abr/Safe.antt =====
-- abr-runner/workload_store_v2.go: the operations of the journal and the check of a load.
use livepeer_modules_transco.Prelude.{
  str_eq_apart, ℕ, ◌+◌, ◌%◌, ◌<◌, ◌≡◌, refl, ap, ◌⊎◌, inl, inr, Bool, true, false, not, ◌||◌,
  Option, none, some, List, [], ◌∷◌, map, arith, ◌==◌, if◌then◌else◌, Bool-cases, length, all,
  Bytes, codes, str_eq, str_eq_refl, str_eq→eq, is_empty, Error, Result, ok, err, ◌>>=◌, ◌>>◌,
  reject,
}
use livepeer_modules_transco.Contract.Ident.{opaque_id, work_id}
use livepeer_modules_transco.Contract.Event.{u64_limit}
use livepeer_modules_transco.Abr.Types.{
  Host, Float64, RenditionResult, TerminalResult, TerminalError,
}
use livepeer_modules_transco.Abr.Contract.{
  validate_artifact_uri, calculate_units, validate_terminal_result, validate_terminal_error,
  validate_progress,
}
use livepeer_modules_transco.Abr.Journal.{
  Journal, JournalState, in_progress, succeeded, failed, PreparedRendition, PreparedArtifact,
  StoredEvent, Payload, is_in_progress, is_finished, is_some, find_entry, put_entry, safe_path,
  bad_prepared, has_prepared, append_progress, save_prepared, save_delivered,
  save_prepared_manifest, save_delivered_manifest, record_terminal_result, record_terminal_error,
  finish, check_checkpoints, result_payload, error_payload, new_journal,
}
use livepeer_modules_transco.Abr.Check.{
  is_same, bad_terminal, check_prepared, check_delivered, check_artifact, check_manifest,
  validate_journal, validate_loaded,
}

-- The journal passes each check of a load under its own identity.
pub record JournalInv (w : Host) (j : Journal) : Type 0 where
  pub known : (opaque_id j.workload_id ≡ true) × (j.version ≡ 1) × (work_id j.request_sha256 ≡ true)
  pub counts : (0 < j.next_sequence) × (bad_terminal j.next_sequence j.terminal_event ≡ false)
  pub phased :
      ((is_in_progress j.state || is_finished j.state) ≡ true)
      × (is_same (is_finished j.state) (is_some j.terminal_event) ≡ true)
  pub prepares : all (check_prepared w) j.prepared ≡ true
  pub delivers : all (check_delivered j.prepared) j.delivered ≡ true
  pub manifest : (check_artifact w j.manifest_prepared ≡ true) × (check_manifest j ≡ ok tt)

pub JournalInv-validate :
    (w : Host) (j : Journal) → JournalInv w j → validate_loaded w j.workload_id j ≡ ok tt
unfolding validate_loaded validate_journal
JournalInv-validate w j v = ground (arith, str_eq_refl j.workload_id)

all_put {ℓ} :
    {A : Type ℓ} (check : Bytes × A → Bool) (name : Bytes) (a : A) (entries : List (Bytes × A))
    → check (name, a) ≡ true
    → all check entries ≡ true
    → all check (put_entry name a entries) ≡ true
unfolding all put_entry
all_put check name a [] h v = ground arith
all_put check name a ((key, old) ∷ entries) h v = elim (Bool-cases (str_eq key name)) [
  | inl e ↦ rw e (ground arith)
  | inr e ↦ rw e (ground (arith, all_put check name a entries h))
]

find_entry-put_entry {ℓ} :
    {A : Type ℓ} (name other : Bytes) (a : A) (entries : List (Bytes × A))
    → str_eq name other ≡ false
    → find_entry other (put_entry name a entries) ≡ find_entry other entries
unfolding find_entry put_entry
find_entry-put_entry name other a [] h = rw h
find_entry-put_entry name other a ((key, old) ∷ entries) h = elim (Bool-cases (str_eq key name)) [
  | inl e ↦ let apart : str_eq key other ≡ false = rw (str_eq→eq key name e) h in rw (e, h, apart)
  | inr e ↦ rw e (
      ap (λ q. if str_eq key other then some old else q)
        (find_entry-put_entry name other a entries h))
]

-- A checkpoint that was not delivered is prepared without harm to those that were.
delivered_put :
    (name : Bytes) (p : PreparedRendition) (prepared : List (Bytes × PreparedRendition))
    (entries : List (Bytes × RenditionResult))
    → is_some (find_entry name entries) ≡ false
    → all (check_delivered prepared) entries ≡ true
    → all (check_delivered (put_entry name p prepared)) entries ≡ true
unfolding all find_entry check_delivered
delivered_put name p prepared [] h v = refl
delivered_put name p prepared ((key, r) ∷ entries) h v = elim (Bool-cases (str_eq key name)) [
  | inl e ↦ let clash : is_some (some r) ≡ false = ground arith in cc
  | inr e ↦
      let same = find_entry-put_entry name key p prepared (str_eq_apart key name e) in
      rw same (ground (arith, delivered_put name p prepared entries))
]

-- `P` holds of whatever journal an operation saves.
abbrev pub Saves : (Journal → Type 0) → Result Journal → Type 0
Saves P (ok j) = P j
Saves P (err e) = Unit {0}

pub Saves-reject :
    (P : Journal → Type 0) (b : Bool) (e : Error) (k : Result Journal)
    → (b ≡ false → Saves P k)
    → Saves P (reject b e >> k)
Saves-reject P true e k h = tt
Saves-reject P false e k h = h refl

pub Saves-bind {ℓ} :
    {A : Type ℓ} (P : Journal → Type 0) (m : Result A) (k : A → Result Journal)
    → ((a : A) → m ≡ ok a → Saves P (k a))
    → Saves P (m >>= k)
Saves-bind P (err e) k h = tt
Saves-bind P (ok a) k h = h a refl

of_state : (s : JournalState) → is_in_progress s ≡ true → s ≡ in_progress
of_state s h = ground arith

of_event :
    (s : JournalState) (e : Option StoredEvent)
    → is_in_progress s ≡ true
    → is_same (is_finished s) (is_some e) ≡ true
    → e ≡ none
of_event s none h k = refl
of_event s (some e) h k = ground arith

-- A journal that is in progress has no terminal event.
running :
    (w : Host) (j : Journal)
    → JournalInv w j
    → is_in_progress j.state ≡ true
    → (j.state ≡ in_progress) × (j.terminal_event ≡ none)
running w j v h = (of_state j.state h, of_event j.state j.terminal_event h v.phased.1)

-- The next number of a journal with room.
next_counts :
    (w : Host) (j : Journal)
    → JournalInv w j
    → is_in_progress j.state ≡ true
    → j.next_sequence + 1 < u64_limit
    → (0 < (j.next_sequence + 1) % u64_limit)
      × (bad_terminal ((j.next_sequence + 1) % u64_limit) j.terminal_event ≡ false)
unfolding bad_terminal
next_counts w j v going room = (omega arith, rw ((running w j v going).1))

pub append_progress-JournalInv :
    (w : Host) (j : Journal) (phase : Bytes) (progress : Float64) (rendition : Bytes) (frames : ℕ)
    → JournalInv w j
    → j.next_sequence + 1 < u64_limit
    → Saves (JournalInv w) (append_progress j phase progress rendition frames)
unfolding append_progress check_manifest
append_progress-JournalInv w j phase progress rendition frames v room =
    Saves-reject (JournalInv w) (not (is_in_progress j.state)) _ _ λ going.
      Saves-bind (JournalInv w) (validate_progress _) _ λ _ _. record {
        known = v.known;
        counts = next_counts w j v (ground arith) room;
        phased = v.phased;
        prepares = v.prepares;
        delivers = v.delivers;
        manifest = v.manifest;
      }

prepared_checks :
    (w : Host) (p : PreparedRendition)
    → bad_prepared w p ≡ false
    → check_prepared w (p.name, p) ≡ true
unfolding bad_prepared check_prepared
prepared_checks w p h = ground (arith, str_eq_refl p.name)

pub save_prepared-JournalInv :
    (w : Host) (j : Journal) (p : PreparedRendition)
    → JournalInv w j
    → Saves (JournalInv w) (save_prepared w j p)
unfolding save_prepared check_manifest
save_prepared-JournalInv w j p v =
    Saves-reject (JournalInv w) (not (is_in_progress j.state) || bad_prepared w p) _ _ λ good.
      Saves-reject (JournalInv w) (is_some (find_entry p.name j.delivered)) _ _ λ fresh. record {
        known = v.known;
        counts = v.counts;
        phased = v.phased;
        prepares =
            all_put (check_prepared w) p.name p j.prepared (prepared_checks w p (ground arith))
              v.prepares;
        delivers = delivered_put p.name p j.prepared j.delivered fresh v.delivers;
        manifest = v.manifest;
      }

delivered_checks :
    (prepared : List (Bytes × PreparedRendition)) (r : RenditionResult)
    → not (has_prepared (find_entry r.name prepared) r) ≡ false
    → check_delivered prepared (r.name, r) ≡ true
unfolding check_delivered
delivered_checks prepared r h = ground (arith, str_eq_refl r.name)

pub save_delivered-JournalInv :
    (w : Host) (j : Journal) (r : RenditionResult)
    → JournalInv w j
    → Saves (JournalInv w) (save_delivered j r)
unfolding save_delivered check_manifest
save_delivered-JournalInv w j r v =
    Saves-reject (JournalInv w) (not (is_in_progress j.state)) _ _ λ _.
      Saves-reject (JournalInv w) (not (has_prepared (find_entry r.name j.prepared) r)) _ _ λ good.
        Saves-bind (JournalInv w) (validate_artifact_uri r.playlist_uri) _ λ _ _.
          Saves-bind (JournalInv w) (validate_artifact_uri r.stream_uri) _ λ _ _. record {
            known = v.known;
            counts = v.counts;
            phased = v.phased;
            prepares = v.prepares;
            delivers =
                all_put (check_delivered j.prepared) r.name r j.delivered
                  (delivered_checks j.prepared r good) v.delivers;
            manifest = v.manifest;
          }

pub save_prepared_manifest-JournalInv :
    (w : Host) (j : Journal) (p : PreparedArtifact)
    → JournalInv w j
    → Saves (JournalInv w) (save_prepared_manifest w j p)
unfolding save_prepared_manifest check_manifest check_artifact
save_prepared_manifest-JournalInv w j p v =
    Saves-reject (JournalInv w)
      (not (is_in_progress j.state)
        || (not (is_empty j.manifest_delivered_uri)
            || (not (safe_path w p.path) || not (work_id p.sha256))))
      _ _
      λ good. record {
        known = v.known;
        counts = v.counts;
        phased = v.phased;
        prepares = v.prepares;
        delivers = v.delivers;
        manifest = (ground arith, ground arith);
      }

pub save_delivered_manifest-JournalInv :
    (w : Host) (j : Journal) (uri : Bytes)
    → JournalInv w j
    → Saves (JournalInv w) (save_delivered_manifest j uri)
unfolding save_delivered_manifest check_manifest
save_delivered_manifest-JournalInv w j uri v =
    Saves-reject (JournalInv w) (not (is_in_progress j.state) || not (is_some j.manifest_prepared))
      _ _
      λ good. Saves-bind (JournalInv w) (validate_artifact_uri uri) _ λ _ stable. record {
        known = v.known;
        counts = v.counts;
        phased = v.phased;
        prepares = v.prepares;
        delivers = v.delivers;
        manifest = (v.manifest.0, ground arith);
      }

-- A finished journal.
finish-JournalInv :
    (w : Host) (j : Journal) (state : JournalState) (phase name : Bytes) (payload : Payload)
    → JournalInv w j
    → j.next_sequence + 1 < u64_limit
    → is_finished state ≡ true
    → (str_eq name (codes "result") ≡ true) ⊎ (str_eq name (codes "error") ≡ true)
    → JournalInv w (finish j state phase name payload)
unfolding finish check_manifest bad_terminal
finish-JournalInv w j state phase name payload v room over called = record {
  known = v.known;
  counts = (omega arith, ground arith);
  phased = (ground arith, rw over);
  prepares = v.prepares;
  delivers = v.delivers;
  manifest = v.manifest;
}

pub record_terminal_result-JournalInv :
    (w : Host) (j : Journal) (result : TerminalResult)
    → JournalInv w j
    → j.next_sequence + 1 < u64_limit
    → Saves (JournalInv w) (record_terminal_result j result)
unfolding record_terminal_result str_eq
record_terminal_result-JournalInv w j result v room =
    Saves-bind (JournalInv w) (validate_terminal_result result) _ λ _ _.
      Saves-reject (JournalInv w) (not (is_in_progress j.state)) _ _ λ _.
        Saves-reject (JournalInv w)
          (not (str_eq result.workload_id j.workload_id)
            || not (str_eq result.request_sha256 j.request_sha256))
          _ _
          λ _.
            Saves-reject (JournalInv w) (not (str_eq result.manifest_uri j.manifest_delivered_uri))
              _ _
              λ _.
                Saves-reject (JournalInv w) (not (length result.renditions == length j.delivered)) _
                  _
                  λ _.
                    Saves-bind (JournalInv w) (check_checkpoints j.delivered result.renditions) _
                      λ _ _.
                        finish-JournalInv w j succeeded (codes "succeeded") (codes "result")
                          (result_payload result) v room refl (inl refl)

pub record_terminal_error-JournalInv :
    (w : Host) (j : Journal) (result : TerminalError)
    → JournalInv w j
    → j.next_sequence + 1 < u64_limit
    → Saves (JournalInv w) (record_terminal_error j result)
unfolding record_terminal_error str_eq
record_terminal_error-JournalInv w j result v room =
    Saves-bind (JournalInv w) (validate_terminal_error result) _ λ _ _.
      Saves-reject (JournalInv w) (not (is_in_progress j.state)) _ _ λ _.
        Saves-reject (JournalInv w)
          (not (str_eq result.workload_id j.workload_id)
            || not (str_eq result.request_sha256 j.request_sha256))
          _ _
          λ _.
            Saves-bind (JournalInv w) (calculate_units (map (λ entry. entry.1) j.delivered)) _
              λ units _. Saves-reject (JournalInv w) (not (result.usage.units == units)) _ _ λ _.
                finish-JournalInv w j failed (codes "failed") (codes "error") (error_payload result)
                  v room refl (inr refl)

pub new_journal-JournalInv :
    (w : Host) (id sha : Bytes)
    → opaque_id id ≡ true
    → work_id sha ≡ true
    → JournalInv w (new_journal id sha)
unfolding new_journal check_manifest check_artifact bad_terminal all is_empty
new_journal-JournalInv w id sha i s = record {
  known = (i, refl, s);
  counts = (omega arith, refl);
  phased = (refl, refl);
  prepares = refl;
  delivers = refl;
  manifest = (refl, refl);
}
