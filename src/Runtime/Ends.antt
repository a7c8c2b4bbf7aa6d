-- ===== src/Runtime/Ends.antt =====
-- live-runner/runtime.go and recovery.go: the end of a session, the exits of a ladder and the restart pause.
use livepeer_modules_transco.Prelude.{
  ℕ, zero, suc, ◌-◌, ◌*◌, ◌<◌, ◌≡◌, refl, sym, ap, ◌∙◌, ◌≢◌, inl, inr, Bool, true, false, not, ◌&&◌,
  ◌||◌, List, [], arith, ltb, if◌then◌else◌, Bool-cases, All, Bytes, codes, str_eq, subst, invalid,
  ok, ◌>>◌, reject,
}
use livepeer_modules_transco.Contract.Types.{State, active, ended, failed}
use livepeer_modules_transco.Contract.Ident.{
  is_active, is_ended, is_failed, valid_close_reason, valid_ladder_failure_code,
  ladder_failure_codes,
}
use livepeer_modules_transco.Session.Record.{
  World, SessionRecord, Change, unchanged, saved, after, u64_max, SavesOnly,
}
use livepeer_modules_transco.Session.Lifecycle.{
  begin_terminal, begin_stopping, begin_termination, begin_failure, finalize_termination,
}
use livepeer_modules_transco.Session.Invariant.{Inv}
use livepeer_modules_transco.Session.Safe.Lifecycle.{begin_terminal-Inv}
use livepeer_modules_transco.Session.Laws.Ending.{
  ended_record, finalize-closes, stopping_parts, valid_running,
}
use livepeer_modules_transco.Session.Laws.Delivery.{backoff, doubled, at_least}
use livepeer_modules_transco.Runtime.Ladder.{
  ExitError, classify_ladder_exit, grow_backoff, restart_backoff,
}
use livepeer_modules_transco.Runtime.Finish.{
  Cleanup, begin_finish, clean_up, finish_begun, finish_session, complete_termination,
}

-- The state in which a reason leaves the session.
abbrev pub target_of : Bytes → State
target_of reason = if str_eq reason (codes "publisher_disconnect") then ended else failed

-- The record once a termination is fenced: the first termination stands.
abbrev pub fenced : SessionRecord → Bytes → SessionRecord
fenced r reason = if r.stopping then r else begin_stopping r reason (target_of reason)

begin_finish-terminal :
    (r : SessionRecord) (reason : Bytes)
    → begin_finish r reason ≡ begin_terminal r reason (target_of reason)
unfolding begin_finish begin_termination begin_failure
begin_finish-terminal r reason = elim (Bool-cases (str_eq reason (codes "publisher_disconnect"))) [
  | inl e ↦ rw e refl
  | inr e ↦ rw e refl
]

target_final :
    (reason : Bytes) → (is_ended (target_of reason) || is_failed (target_of reason)) ≡ true
target_final reason = elim (Bool-cases (str_eq reason (codes "publisher_disconnect"))) [
  | inl e ↦ rw e refl
  | inr e ↦ rw e refl
]

begin_terminal-fenced :
    (r : SessionRecord) (reason : Bytes) (target : State)
    → r.state ≡ active
    → valid_close_reason reason ≡ true
    → (is_ended target || is_failed target) ≡ true
    → begin_terminal r reason target
      ≡ ok (
          if r.stopping
          then unchanged (r, false)
          else saved (begin_stopping r reason target) (begin_stopping r reason target, true))
unfolding begin_terminal
begin_terminal-fenced r reason target busy valid final = rw (valid, final, busy) refl

-- What the begin of a termination does to the record, by whether one had begun.
abbrev begun : SessionRecord → Bytes → Bool → Change (SessionRecord × Bool)
begun r reason true = unchanged (r, false)
begun r reason false =
    saved (begin_stopping r reason (target_of reason))
      (begin_stopping r reason (target_of reason), true)

begun-choice :
    (r : SessionRecord) (reason : Bytes) (b : Bool)
    → (if b
        then unchanged (r, false)
        else saved
            (begin_stopping r reason (target_of reason))
            (begin_stopping r reason (target_of reason), true))
      ≡ begun r reason b
begun-choice r reason true = refl
begun-choice r reason false = refl

begin_terminal-begun :
    (r : SessionRecord) (reason : Bytes)
    → r.state ≡ active
    → valid_close_reason reason ≡ true
    → begin_terminal r reason (target_of reason) ≡ ok (begun r reason r.stopping)
begin_terminal-begun r reason busy valid =
    begin_terminal-fenced r reason (target_of reason) busy valid (target_final reason)
    ∙ ap ok (begun-choice r reason r.stopping)

-- A fenced record and the two ways in which its session ends.
module _ (w : World) (s : SessionRecord) (v : Inv w s) (stopping : s.stopping ≡ true)
    (room : s.last_sequence < u64_max) (id : s.broker_session_id ≢ []) where
  clean_up-ends :
      (cleanup : Cleanup) (now : ℕ)
      → 0 < now
      → clean_up s cleanup now
        ≡ (if cleanup.kicked && cleanup.joined then ended_record s now else s)
  unfolding clean_up
  clean_up-ends cleanup now time = go cleanup.kicked cleanup.joined
    where
      go :
          (k j : Bool)
          → (if not k || not j then s else after s (finalize_termination s now))
            ≡ (if k && j then ended_record s now else s)
      go true true = ap (after s) (finalize-closes w s now v stopping room time id)
      go true false = refl
      go false j = refl

  complete_termination-ends :
      (later : ℕ)
      → 0 < later
      → complete_termination s (ok tt) later ≡ ok (saved (ended_record s later) tt)
  unfolding complete_termination
  complete_termination-ends later time =
      let parts = stopping_parts s v.phased.2 stopping in
      let running = valid_running s.state v.phased.0 parts.2 parts.3 in
      let guards : (not (is_active s.state)
            || (not s.stopping || not (valid_close_reason s.pending_close_reason)))
          ≡ false =
        ground (arith, ap is_active running) in
      ap
        (λ b.
          reject b (invalid "live termination state is invalid") >> finalize_termination s later)
        guards
      ∙ finalize-closes w s later v stopping room time id

fenced-Inv :
    (w : World) (r : SessionRecord) (reason : Bytes)
    → Inv w r
    → r.state ≡ active
    → valid_close_reason reason ≡ true
    → Inv w (fenced r reason)
fenced-Inv w r reason v busy valid = go r.stopping (
    subst (SavesOnly (Inv w)) (begin_terminal-begun r reason busy valid)
      (begin_terminal-Inv w r reason (target_of reason) v))
  where
    go :
        (b : Bool)
        → SavesOnly (Inv w) (ok (begun r reason b))
        → Inv w (if b then r else begin_stopping r reason (target_of reason))
    go true kept = v
    go false kept = kept

fenced-fields :
    (r : SessionRecord) (reason : Bytes)
    → ((fenced r reason).stopping ≡ true)
      × ((fenced r reason).last_sequence ≡ r.last_sequence)
      × ((fenced r reason).broker_session_id ≡ r.broker_session_id)
unfolding begin_stopping
fenced-fields r reason = go r.stopping refl
  where
    go :
        (b : Bool)
        → r.stopping ≡ b
        → let s = if b then r else begin_stopping r reason (target_of reason) in
          (s.stopping ≡ true)
          × (s.last_sequence ≡ r.last_sequence)
          × (s.broker_session_id ≡ r.broker_session_id)
    go true eq = (eq, refl, refl)
    go false eq = (refl, refl, refl)

finish_session-fenced :
    (r : SessionRecord) (reason : Bytes) (cleanup : Cleanup) (now : ℕ)
    → r.state ≡ active
    → valid_close_reason reason ≡ true
    → finish_session r reason cleanup now ≡ clean_up (fenced r reason) cleanup now
unfolding finish_session finish_begun begin_stopping
finish_session-fenced r reason cleanup now busy valid =
    ap (finish_begun r cleanup now)
      (begin_finish-terminal r reason ∙ begin_terminal-begun r reason busy valid)
    ∙ go r.stopping refl
  where
    go :
        (b : Bool)
        → r.stopping ≡ b
        → finish_begun r cleanup now (ok (begun r reason b))
          ≡ clean_up (if b then r else begin_stopping r reason (target_of reason)) cleanup now
    go true eq = ap (λ b. if not b then r else clean_up r cleanup now) eq
    go false eq = refl

-- finishSession on a stored active session that is not short of sequence numbers, with a known reason:
-- the first termination is fenced, with its reason and its target. If the publisher is kicked and the
-- ladder joined, the session is over with that reason and target; if not, the record still waits,
-- and CompleteLiveTerminationV1 ends it in the same way at any later time, once the runtime
-- terminates it.
pub finish_session-ends :
    (w : World) (r : SessionRecord) (reason : Bytes) (cleanup : Cleanup) (now later : ℕ)
    → Inv w r
    → r.state ≡ active
    → valid_close_reason reason ≡ true
    → r.last_sequence < u64_max
    → r.broker_session_id ≢ []
    → 0 < now
    → 0 < later
    → let s = fenced r reason in
      (finish_session r reason cleanup now
        ≡ (if cleanup.kicked && cleanup.joined then ended_record s now else s))
      × (complete_termination s (ok tt) later ≡ ok (saved (ended_record s later) tt))
finish_session-ends w r reason cleanup now later v busy valid room id tn tl =
    let s = fenced r reason in
    let f = fenced-fields r reason in
    let sv = fenced-Inv w r reason v busy valid in
    let sroom : s.last_sequence < u64_max = subst (λ n. n < u64_max) (sym f.1) room in
    let sid : s.broker_session_id ≢ [] = λ h. id (sym f.2 ∙ h) in
    (
      finish_session-fenced r reason cleanup now busy valid
          ∙ clean_up-ends w s sv f.0 sroom sid cleanup now tn,
      complete_termination-ends w s sv f.0 sroom sid later tl,
    )

code_choice :
    (b : Bool) (x y : Bytes)
    → valid_ladder_failure_code x false ≡ true
    → valid_ladder_failure_code y false ≡ true
    → valid_ladder_failure_code (if b then x else y) false ≡ true
code_choice true x y p q = p
code_choice false x y p q = q

known_codes : All (λ code. valid_ladder_failure_code code false ≡ true) ladder_failure_codes
unfolding valid_ladder_failure_code
known_codes = (refl, (refl, (refl, (refl, (refl, (refl, tt))))))

-- Whatever the process wrote and however it ended, the code of its exit is one that the store's
-- RecordLadderRestart takes.
pub classify_ladder_exit-valid :
    (e : ExitError) (tail : List Bytes)
    → valid_ladder_failure_code (classify_ladder_exit e tail) false ≡ true
unfolding classify_ladder_exit
classify_ladder_exit-valid e tail =
    let (encoder, (hwaccel, (input, (output, (killed, (other, none_left)))))) = known_codes in
    code_choice _ _ _ killed (
      code_choice _ _ _ encoder
        (code_choice _ _ _ hwaccel (code_choice _ _ _ input (code_choice _ _ _ output other))))

clipped_backoff :
    (rounds pause maximum : ℕ)
    → 0 < pause
    → (if ltb maximum (grow_backoff rounds pause maximum)
        then maximum
        else grow_backoff rounds pause maximum)
      ≡ backoff rounds pause maximum
unfolding grow_backoff backoff
clipped_backoff zero pause maximum h = ground arith
clipped_backoff (suc rounds) pause maximum h =
    let twice = doubled pause rounds in
    let more = at_least (pause * 2) rounds in
    rw twice (elim (Bool-cases (ltb pause maximum)) [
      | inl below ↦ rw below (clipped_backoff rounds (pause * 2) maximum (omega arith))
      | inr top ↦ rw top (ground arith)
    ])

-- The pause before a restart is the initial one, doubled for each attempt after the first, or the
-- maximum if that is less.
pub restart_backoff-exact :
    (attempts initial maximum : ℕ)
    → 0 < initial
    → restart_backoff attempts initial maximum ≡ backoff (attempts - 1) initial maximum
unfolding restart_backoff
restart_backoff-exact attempts initial maximum h = clipped_backoff (attempts - 1) initial maximum h
