-- ===== src/Session/Laws/Creation.antt =====
-- live-runner/store.go and create_recovery.go: the record at creation, and the fence.
use livepeer_modules_transco.Prelude.{
  ℕ, ◌≤◌, ◌≡◌, refl, ap, ◌∙◌, inl, inr, Bool, true, not, some, List, [], ◌∷◌, arith, Bool-cases,
  length, Bytes, str_eq, is_empty, not_exist, Result, ok, err, ◌>>=◌,
}
use livepeer_modules_transco.Contract.Types.{RunnerCreateRequest, RunnerCreateResponse, Grant}
use livepeer_modules_transco.Contract.Ident.{
  opaque_id, is_time, valid_state, valid_output_state, valid_ladder_failure_code,
}
use livepeer_modules_transco.Contract.World.{
  World, create_fingerprint, valid_url, http_schemes, rtmp_schemes,
}
use livepeer_modules_transco.Contract.Request.{
  validate_create_request, validate_create_response, validate_grants, check_operations,
}
use livepeer_modules_transco.Session.Record.{Change, saved, SavesOnly}
use livepeer_modules_transco.Session.Keys.{
  IsSealed, SessionSecrets, Envelope, with_envelope, open_secrets,
}
use livepeer_modules_transco.Session.Create.{
  new_record, new_secrets, Loaded, Created, replay_create, create_new, create_after_load,
  create_or_replay, CreateResolution, fenced_off, reconcile_after_load, reconcile_create,
}
use livepeer_modules_transco.Session.Check.{
  check_envelope, check_times, check_health_cursor, check_grant, check_terminal, check_stopping,
  check_activation, check_delivery, check_segments,
}
use livepeer_modules_transco.Session.Invariant.{Inv}
use livepeer_modules_transco.Session.Safe.Rules.{SavesOnly-reject, SavesOnly-bind}

abbrev IsGranted : World → RunnerCreateResponse → Grant → Type 0
IsGranted w v g =
    (opaque_id v.runner_session_id ≡ true)
    × (valid_url w rtmp_schemes v.runtime.public.rtmp_url ≡ true)
    × (valid_url w http_schemes v.runtime.public.hls_url ≡ true)
    × (valid_url w http_schemes v.runtime.public.key_issue_url ≡ true)
    × (opaque_id g.id ≡ true)
    × (check_operations g.operations ≡ true)
    × (is_time g.expires_at ≡ true)

granted_by :
    (gs : List Grant) (g : Grant)
    → validate_grants gs ≡ ok g
    → (opaque_id g.id ≡ true)
      × (check_operations g.operations ≡ true)
      × (is_time g.expires_at ≡ true)
unfolding validate_grants
granted_by [] g h = cc
granted_by (x ∷ []) g h = ground arith
granted_by (x ∷ y ∷ gs) g h = cc

response-IsGranted :
    (w : World) (v : RunnerCreateResponse) (g : Grant)
    → validate_create_response w v ≡ ok g
    → IsGranted w v g
unfolding validate_create_response
response-IsGranted w v g h = ground (arith, granted_by v.runtime.grants g)

pub new_record-Inv :
    (w : World) (request : RunnerCreateRequest) (response : RunnerCreateResponse) (g : Grant)
    (now : ℕ) (e : Envelope)
    → IsGranted w response g
    → length response.runner_session_id ≤ 107
    → IsSealed e
    → Inv w (with_envelope (new_record w request response g now) e)
unfolding new_record with_envelope check_envelope check_times check_health_cursor check_grant
    check_terminal check_stopping check_activation check_delivery check_segments valid_output_state
    valid_ladder_failure_code valid_state create_fingerprint is_empty
new_record-Inv w request response g now e h short sealed = record {
  fixed = (
    refl,
    h.0,
    short,
    w.sha256_hex-work_id _,
    rw (w.sha256_hex-work_id g.secret, h.4, h.5) refl,
    h.6,
    h.1,
    h.2,
    h.3,
  );
  envelope = ground arith;
  healthy = (refl, refl, refl, refl);
  phased = (refl, refl, refl, refl);
  ordered = ((omega arith, omega arith), tt, omega arith, (λ h. omega arith), inl refl);
  metered = (omega arith, (λ h. omega arith), refl);
  delivery = refl;
  letters = (omega arith, omega arith, tt);
}

create_after_load-Inv :
    (w : World) (seal : SessionSecrets → Result Envelope) (request : RunnerCreateRequest)
    (response : RunnerCreateResponse) (g : Grant) (loaded : Loaded) (fenced : Result Bool) (now : ℕ)
    → IsGranted w response g
    → length response.runner_session_id ≤ 107
    → ((s : SessionSecrets) (e : Envelope) → seal s ≡ ok e → IsSealed e)
    → SavesOnly (Inv w) (create_after_load w seal request response g loaded fenced now)
unfolding create_after_load replay_create create_new
create_after_load-Inv w seal request response g (ok (r, secrets)) fenced now h short sealed =
    SavesOnly-reject (Inv w) (not (str_eq r.create_fingerprint (create_fingerprint w request))) _ _
      λ _. SavesOnly-bind (Inv w) (open_secrets r secrets) _ λ _ _. tt
create_after_load-Inv w seal request response g (err not_exist) fenced now h short sealed =
    SavesOnly-bind (Inv w) fenced _ λ is_fenced _. SavesOnly-reject (Inv w) is_fenced _ _ λ _.
      SavesOnly-bind (Inv w) (seal (new_secrets request response)) _
        λ e eq. new_record-Inv w request response g now e h short (sealed _ e eq)
create_after_load-Inv w seal request response g (err e) fenced now h short sealed = tt

-- CreateOrReplay saves only records with the invariant, when the runner's identity has at most 107
-- bytes and sealing yields four non-empty texts.
pub create-Inv :
    (w : World) (seal : SessionSecrets → Result Envelope) (request : RunnerCreateRequest)
    (response : RunnerCreateResponse) (loaded : Loaded) (fenced : Result Bool) (now : ℕ)
    → length response.runner_session_id ≤ 107
    → ((s : SessionSecrets) (e : Envelope) → seal s ≡ ok e → IsSealed e)
    → SavesOnly (Inv w) (create_or_replay w seal request response loaded fenced now)
unfolding create_or_replay
create-Inv w seal request response loaded fenced now short sealed =
    SavesOnly-bind (Inv w) (validate_create_request w request) _ λ _ _.
      SavesOnly-bind (Inv w) (validate_create_response w response) _ λ g h.
        create_after_load-Inv w seal request response g loaded fenced now
          (response-IsGranted w response g h) short sealed

-- A session's file and its fence, as the two calls that race for them see them.
pub record Slot : Type 0 where
  pub loaded : Loaded
  pub fence : Bool

-- A create with all it is given, or a reconcile, under the store's lock.
pub data SlotCall : Type 0 where
  creates : RunnerCreateRequest → RunnerCreateResponse → ℕ → SlotCall
  reconciles : Bytes → SlotCall

abbrev keep_created : Slot → Result (Change Created) → Slot
keep_created s (ok (saved r (r', secrets, b))) = record s { loaded = ok (r, some secrets) }
keep_created s _ = s

abbrev keep_fence : Slot → Result (CreateResolution × Bool) → Slot
keep_fence s (ok (resolution, true)) = record s { fence = true }
keep_fence s _ = s

-- The slot after a call whose writes succeed.
unfoldable pub call : World → (SessionSecrets → Result Envelope) → Slot → SlotCall → Slot
call w seal s (creates request response now) =
    keep_created s (create_or_replay w seal request response s.loaded (ok s.fence) now)
call w seal s (reconciles id) = keep_fence s (reconcile_create id s.loaded (ok s.fence))

unfoldable pub calls : World → (SessionSecrets → Result Envelope) → Slot → List SlotCall → Slot
unfolding call
calls w seal s [] = s
calls w seal s (c ∷ cs) = calls w seal (call w seal s c) cs

-- The session does not exist and its creation is fenced off.
abbrev fenced_slot : Slot
fenced_slot = record { loaded = err not_exist; fence = true }

create-fenced :
    (w : World) (seal : SessionSecrets → Result Envelope) (request : RunnerCreateRequest)
    (response : RunnerCreateResponse) (now : ℕ)
    → call w seal fenced_slot (creates request response now) ≡ fenced_slot
unfolding call create_or_replay create_after_load create_new
create-fenced w seal request response now =
    go (validate_create_request w request) (validate_create_response w response)
  where
    go :
        (a : Result (Unit {0})) (b : Result Grant)
        → keep_created fenced_slot (
            a >>= λ _. b >>= λ grant.
            create_after_load w seal request response grant (err not_exist) (ok true) now)
          ≡ fenced_slot
    go (err e) b = refl
    go (ok u) (err e) = refl
    go (ok u) (ok g) = refl

reconcile-fenced :
    (w : World) (seal : SessionSecrets → Result Envelope) (id : Bytes)
    → call w seal fenced_slot (reconciles id) ≡ fenced_slot
unfolding call reconcile_create reconcile_after_load
reconcile-fenced w seal id = elim (Bool-cases (opaque_id id)) [ inl e ↦ rw e | inr e ↦ rw e ]

-- A session that does not exist and is fenced stays so, whatever calls follow.
calls-fenced :
    (w : World) (seal : SessionSecrets → Result Envelope) (cs : List SlotCall)
    → calls w seal fenced_slot cs ≡ fenced_slot
unfolding calls
calls-fenced w seal [] = refl
calls-fenced w seal (creates request response now ∷ cs) =
    ap (λ q. calls w seal q cs) (create-fenced w seal request response now) ∙ calls-fenced w seal cs
calls-fenced w seal (reconciles id ∷ cs) =
    ap (λ q. calls w seal q cs) (reconcile-fenced w seal id) ∙ calls-fenced w seal cs

fenced_by :
    (loaded : Loaded) (fence b : Bool)
    → reconcile_after_load loaded (ok fence) ≡ ok (fenced_off, b)
    → (loaded ≡ err not_exist) × (b ≡ not fence)
unfolding reconcile_after_load
fenced_by (ok (r, secrets)) fence b h = cc
fenced_by (err not_exist) fence b h = ground arith
fenced_by (err e) fence b h = cc

fence_answer :
    (s : Slot) (id : Bytes) (b : Bool)
    → reconcile_create id s.loaded (ok s.fence) ≡ ok (fenced_off, b)
    → keep_fence s (ok (fenced_off, b)) ≡ fenced_slot
unfolding reconcile_create
fence_answer s id b h = elim (Bool-cases (opaque_id id)) [
  | inl e ↦ ground (arith, fenced_by s.loaded s.fence b)
  | inr e ↦ ground arith
]

-- When ReconcileCreate answers that a session is fenced off, no later calls of CreateOrReplay and
-- ReconcileCreate, in any order, create it.
pub reconcile-fences :
    (w : World) (seal : SessionSecrets → Result Envelope) (s : Slot) (id : Bytes) (b : Bool)
    (cs : List SlotCall)
    → reconcile_create id s.loaded (ok s.fence) ≡ ok (fenced_off, b)
    → (calls w seal (call w seal s (reconciles id)) cs).loaded ≡ err not_exist
unfolding call
reconcile-fences w seal s id b cs h =
    let fenced : call w seal s (reconciles id) ≡ fenced_slot =
      ap (keep_fence s) h ∙ fence_answer s id b h in
    ap (λ q. (calls w seal q cs).loaded) fenced ∙ ap (λ q. q.loaded) (calls-fenced w seal cs)
