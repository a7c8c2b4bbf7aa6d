-- ===== src/Runtime/Finish.antt =====
-- live-runner/runtime.go and recovery.go: how the runtime ends a session, and how a restart ends it.
use livepeer_modules_transco.Prelude.{
  ℕ, Bool, not, ◌||◌, if◌then◌else◌, Bytes, codes, str_eq, invalid, Result, ok, err, ◌>>◌, reject,
}
use livepeer_modules_transco.Contract.Ident.{is_active, valid_close_reason}
use livepeer_modules_transco.Session.Record.{SessionRecord, Change, unchanged, saved, after}
use livepeer_modules_transco.Session.Lifecycle.{
  begin_termination, begin_failure, finalize_termination,
}

-- What the media router and the ladder answer at the end of a session.
pub record Cleanup : Type 0 where
  pub kicked : Bool
  pub joined : Bool

-- The termination of finishSession, with the reason.
unfoldable pub begin_finish : SessionRecord → Bytes → Result (Change (SessionRecord × Bool))
unfolding begin_termination begin_failure str_eq
begin_finish r reason =
    if str_eq reason (codes "publisher_disconnect")
    then begin_termination r reason
    else begin_failure r reason

abbrev pub returned : SessionRecord → Change (SessionRecord × Bool) → SessionRecord
returned r (unchanged (r', began)) = r'
returned r (saved stored_record (r', began)) = r'

-- finishSession after the termination began: the record that is left on disk.
unfoldable pub clean_up : SessionRecord → Cleanup → ℕ → SessionRecord
unfolding finalize_termination
clean_up r cleanup now =
    if not cleanup.kicked || not cleanup.joined then r else after r (finalize_termination r now)

-- The rest of finishSession, from the result of the termination's begin.
unfoldable pub finish_begun :
    SessionRecord → Cleanup → ℕ → Result (Change (SessionRecord × Bool)) → SessionRecord
unfolding clean_up
finish_begun r cleanup now (err e) = r
finish_begun r cleanup now (ok change) =
    if not (returned r change).stopping
    then after r (ok change)
    else clean_up (after r (ok change)) cleanup now

-- finishSession: the record that is left on disk.
unfoldable pub finish_session : SessionRecord → Bytes → Cleanup → ℕ → SessionRecord
unfolding begin_finish finish_begun
finish_session r reason cleanup now = finish_begun r cleanup now (begin_finish r reason)

-- CompleteLiveTerminationV1. The runtime's TerminateSession is a result.
unfoldable pub complete_termination :
    SessionRecord → Result (Unit {0}) → ℕ → Result (Change (Unit {0}))
unfolding finalize_termination valid_close_reason
complete_termination r terminated now = do
  reject
      (not (is_active r.state)
        || (not r.stopping || not (valid_close_reason r.pending_close_reason)))
      (invalid "live termination state is invalid")
  terminated
  finalize_termination r now
