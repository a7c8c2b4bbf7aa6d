-- ===== src/Tests/Admission.antt =====
-- Runs of the GPU admission, and the concrete instances of its theorems.
use livepeer_modules_transco.Prelude.{
  ℕ, ◌≡◌, refl, ◌≢◌, ◌⊎◌, List, [], ◌∷◌, ◌++◌, codes, gpu_capacity,
}
use livepeer_modules_transco.Admission.Gate.{
  Gate, batch, live, opposing, quiet_host, holding, entered, refused, gpu_admission_batch,
  gpu_admission_live,
}
use livepeer_modules_transco.Admission.Exclusion.{Event, begins, advances, closes, ends, run_host}
use livepeer_modules_transco.Admission.Apart.{run_host-apart}
use livepeer_modules_transco.Admission.Outcome.{
  finish_acquire, finish_acquire-exact, IsFree, IsTaken,
}

abbrev shared_gpu : Gate
shared_gpu = record { base_path = codes "/run/gpu.lock" }

abbrev five_steps : ℕ → List Event
five_steps i = advances i ∷ advances i ∷ advances i ∷ advances i ∷ advances i ∷ []

-- Two batch runners share the GPU, and a live runner asks for it between them.
abbrev two_batches : List Event
two_batches =
    begins 0 shared_gpu gpu_admission_batch
    ∷ begins 1 shared_gpu gpu_admission_live
    ∷ advances 0
    ∷ advances 1
    ∷ advances 0
    ∷ advances 0
    ∷ advances 0
    ∷ advances 0
    ∷ begins 2 shared_gpu gpu_admission_batch
    ∷ five_steps 2

batch_holds : (run_host two_batches quiet_host).calls 2 ≡ holding batch
unfolding run_host
batch_holds = refl

live_waits_then_fails :
    (run_host (two_batches ++ five_steps 1) quiet_host).calls 1 ≡ refused gpu_capacity
unfolding run_host
live_waits_then_fails = refl

-- The live runner is let in when one batch runner has closed its lease and the other has crashed.
live_after_batches :
    (run_host (two_batches ++ closes 0 ∷ ends 2 ∷ five_steps 1) quiet_host).calls 1 ≡ holding live
unfolding run_host
live_after_batches = refl

run_host-apart_example : (run_host two_batches quiet_host).calls 1 ≢ holding live
run_host-apart_example = run_host-apart two_batches batch 2 1 batch_holds

live_enters : (run_host (two_batches ++ advances 1 ∷ []) quiet_host).calls 1 ≡ entered live
unfolding run_host
live_enters = refl

finish_acquire-exact_example :
    let h = run_host (two_batches ++ advances 1 ∷ []) quiet_host in
    IsFree (finish_acquire 1 h)
    × ((((finish_acquire 1 h).calls 1 ≡ holding live)
          × ((j : ℕ) → h.calls j ≢ holding (opposing live)))
        ⊎ (((finish_acquire 1 h).calls 1 ≡ refused gpu_capacity) × IsTaken live h))
finish_acquire-exact_example =
    finish_acquire-exact (two_batches ++ advances 1 ∷ []) 1 live live_enters
