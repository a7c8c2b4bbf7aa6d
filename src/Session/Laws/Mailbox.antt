-- ===== src/Session/Laws/Mailbox.antt =====
-- live-runner/callback.go: an abstract mailbox, and that of a session.
use livepeer_modules_transco.Prelude.{
  ℕ, ◌+◌, ◌-◌, ◌/◌, ◌≡◌, refl, inl, inr, Bool, true, false, ◌||◌, Option, none, some, List, [], ◌∷◌,
  ◌++◌, map, arith, ◌==◌, if◌then◌else◌, Bool-cases, &&_both, length, drop, all, Bytes,
}
use livepeer_modules_transco.Contract.Types.{RunnerEvent}
use livepeer_modules_transco.Contract.Ident.{callback_error_code, is_lower}
use livepeer_modules_transco.Contract.EventId.{format_uint-all, format_uint-length}
use livepeer_modules_transco.Prelude.{is_digit}
use livepeer_modules_transco.Session.Record.{SessionRecord}
use livepeer_modules_transco.Session.Callback.{tail}
use livepeer_modules_transco.Session.Delivery.{
  Response, transport_failed, answered, safe_broker_code, http_code, body_code,
  safe_callback_error_code,
}

-- What a receiver makes of an event: it takes it, refuses it for good, or may take it later.
pub data Verdict : Type 0 where
  accepts refuses defers : Verdict

-- By the status: 2xx, 408, 429, 5xx, or another one; no answer is like 5xx.
unfoldable pub verdict : Response → Verdict
verdict transport_failed = defers
verdict (answered status body) =
    if status / 100 == 2
    then accepts
    else if status / 100 == 5 || (status == 408 || status == 429)
    then defers
    else refuses

-- The events that wait, in order; the last 32 that were refused; and how many were refused.
pub record Mailbox : Type 0 where
  pub waiting_events : List RunnerEvent
  pub refused_events : List RunnerEvent
  pub refused_count : ℕ

abbrev pub last_32 : List RunnerEvent → List RunnerEvent
last_32 es = drop (length es - 32) es

-- The receiver's verdict on the first event that waits.
unfoldable pub offer : Verdict → Mailbox → Mailbox
offer accepts m = record m { waiting_events = tail m.waiting_events }
offer defers m = m
offer refuses m = refuse m m.waiting_events
  where
    refuse : Mailbox → List RunnerEvent → Mailbox
    refuse m [] = m
    refuse m (e ∷ es) = record {
      waiting_events = es;
      refused_events = last_32 (m.refused_events ++ e ∷ []);
      refused_count = m.refused_count + 1;
    }

unfoldable pub mailbox : SessionRecord → Mailbox
mailbox r = record {
  waiting_events = r.pending_events;
  refused_events = map (λ letter. letter.event) r.callback_dead_letters;
  refused_count = r.callback_rejected_total;
}

http_code-IsValid : (status : ℕ) → callback_error_code (http_code status) ≡ true
unfolding callback_error_code all
http_code-IsValid status = ground (
  arith,
  format_uint-length status,
  format_uint-all (λ d. is_lower d || (is_digit d || (d == b'_' || (d == b'.' || d == b'-'))))
      (λ d b. ground arith) status,
)

code_choice :
    (b : Bool) (x y : Bytes)
    → callback_error_code x ≡ true
    → callback_error_code y ≡ true
    → callback_error_code (if b then x else y) ≡ true
code_choice true x y p q = p
code_choice false x y p q = q

body_code-IsValid :
    (status : ℕ) (body : Option (Bytes × Bytes))
    → callback_error_code (body_code status body) ≡ true
unfolding body_code safe_broker_code
body_code-IsValid status none = http_code-IsValid status
body_code-IsValid status (some (x, y)) = elim (Bool-cases (safe_broker_code x)) [
  | inl first ↦ rw first (&&_both _ _ first).0
  | inr no_first ↦ elim (Bool-cases (safe_broker_code y)) [
    | inl second ↦ rw (no_first, second) (&&_both _ _ second).0
    | inr no_second ↦ rw (no_first, no_second) (http_code-IsValid status)
  ]
]

-- Whatever the answer is, the code that is stored is a well-formed error code.
pub safe_callback_error_code-IsValid :
    (status : ℕ) (body : Option (Bytes × Bytes))
    → callback_error_code (safe_callback_error_code status body) ≡ true
unfolding safe_callback_error_code callback_error_code all
safe_callback_error_code-IsValid status body =
    code_choice (status == 401 || status == 403) _ _ refl
      (code_choice (status == 404 || status == 410) _ _ refl (body_code-IsValid status body))
