-- ===== src/Tests/Contract.antt =====
-- Runs of the event identities.
use livepeer_modules_transco.Prelude.{◌≡◌, ◌&&◌, ◌==◌, arith, codes, str_eq}
use livepeer_modules_transco.Contract.Ident.{event_id}
use livepeer_modules_transco.Contract.EventId.{event_id-exact}

-- Without the `:` these two would be one.
event_id-exact_example :
    str_eq (event_id (codes "run-1") 12) (event_id (codes "run-11") 2)
    ≡ (str_eq (codes "run-1") (codes "run-11") && (12 == 2))
event_id-exact_example =
    event_id-exact (codes "run-1") (codes "run-11") 12 2 (omega arith) (omega arith)
