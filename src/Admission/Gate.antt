-- ===== src/Admission/Gate.antt =====
-- transcode-core/gpu_admission.go: the gate, and a call of Acquire as the steps that other calls may interleave with.
use livepeer_modules_transco.Prelude.{
  ℕ, Bool, true, false, not, ◌||◌, Option, none, some, List, [], ◌∷◌, ◌++◌, ◌==◌, if◌then◌else◌,
  all, Bytes, codes, str_eq, is_empty, has_prefix, Error, gpu_capacity, io_error, invalid, Result,
  ok, err, ◌>>◌, reject,
}
use livepeer_modules_transco.Admission.Flock.{
  FileLock, unlocked_file, unlock, lock_exclusive, lock_shared,
}

abbrev pub gpu_admission_batch : ℕ
gpu_admission_batch = 1

abbrev pub gpu_admission_live : ℕ
gpu_admission_live = 2

pub data Cohort : Type 0 where
  batch live : Cohort

abbrev pub opposing : Cohort → Cohort
opposing batch = live
opposing live = batch

-- GPUAdmissionGate: the path of the lock file, empty where admission is off.
pub record Gate : Type 0 where
  pub base_path : Bytes

unfoldable pub configured : Gate → Bool
unfolding is_empty
configured g = not (is_empty g.base_path)

unfoldable pub gpu_admission_paths : Bytes → List Bytes
gpu_admission_paths path =
    (path ++ codes ".mutex") ∷ (path ++ codes ".batch") ∷ (path ++ codes ".live") ∷ []

-- What the process finds in the file system: a path's parent, whether it is a directory, whether a
-- lock file opens, and filepath.Clean and filepath.Base.
pub record Files : Type 0 where
  pub clean : Bytes → Bytes
  pub base : Bytes → Bytes
  pub parent_is_directory : Bytes → Option Bool
  pub opens : Bytes → Bool

unfoldable pub check_parent : Option Bool → Result (Unit {0})
check_parent none = err (invalid "GPU admission directory is unavailable")
check_parent (some false) = err (invalid "GPU admission parent is not a directory")
check_parent (some true) = ok tt

-- NewGPUAdmissionGate.
unfoldable pub new_gate : Files → Bytes → Result Gate
unfolding is_empty has_prefix str_eq all gpu_admission_paths check_parent
new_gate files path = if is_empty path then ok (record { base_path = [] }) else (do
  reject
      (not (has_prefix path (codes "/"))
        || (not (str_eq (files.clean path) path) || str_eq (files.base path) (codes "/")))
      (invalid "GPU admission lock must be a clean absolute file path")
  check_parent (files.parent_is_directory path)
  reject (not (all files.opens (gpu_admission_paths path)))
      (invalid "GPU admission lock is unavailable")
  ok (record { base_path = path }))

-- Where a call of Acquire stands, up to the end of its lease.
pub data Phase : Type 0 where
  idle : Phase
  -- Before LOCK_EX on the mutex.
  waiting : Cohort → Phase
  -- The mutex is held: before the probe, with the probe's lock, after it, and with the lease's lock.
  entered probing probed leasing : Cohort → Phase
  -- The mutex is held and an error is to be returned.
  declined : Error → Phase
  -- Acquire has returned: a lease, a lease without a file, an error.
  holding : Cohort → Phase
  unguarded : Phase
  refused : Error → Phase
  -- The lease is closed, or the process has ended.
  closed : Phase

-- The three files of one lock path, and the calls of every process that uses them.
pub record GpuHost : Type 0 where
  pub mutex : FileLock
  pub batch_file : FileLock
  pub live_file : FileLock
  pub calls : ℕ → Phase

abbrev pub quiet_host : GpuHost
quiet_host = record {
  mutex = unlocked_file;
  batch_file = unlocked_file;
  live_file = unlocked_file;
  calls = λ i. idle;
}

abbrev pub cohort_file : Cohort → GpuHost → FileLock
cohort_file batch h = h.batch_file
cohort_file live h = h.live_file

abbrev pub put_cohort_file : Cohort → FileLock → GpuHost → GpuHost
put_cohort_file batch f h = record h { batch_file = f }
put_cohort_file live f h = record h { live_file = f }

abbrev pub put_call : ℕ → Phase → (ℕ → Phase) → ℕ → Phase
put_call i p calls j = if i == j then p else calls j

abbrev pub move : ℕ → Phase → GpuHost → GpuHost
move i p h = record h { calls = put_call i p h.calls }

-- The start of Acquire, up to the open of the mutex.
unfoldable pub begin_acquire : Gate → ℕ → Phase
unfolding configured
begin_acquire g cohort =
    if not (configured g)
    then unguarded
    else if cohort == gpu_admission_batch
    then waiting batch
    else if cohort == gpu_admission_live
    then waiting live
    else refused (invalid "invalid GPU admission cohort")

-- LOCK_EX on the mutex: a call that cannot have it waits.
unfoldable pub enter : ℕ → Cohort → Option FileLock → GpuHost → GpuHost
enter i c none h = h
enter i c (some f) h = move i (entered c) (record h { mutex = f })

-- The probe: LOCK_EX with LOCK_NB on the opposing file.
unfoldable pub probe : ℕ → Cohort → Option FileLock → GpuHost → GpuHost
probe i c none h = move i (declined gpu_capacity) h
probe i c (some f) h = move i (probing c) (put_cohort_file (opposing c) f h)

-- LOCK_SH with LOCK_NB on the own file.
unfoldable pub lease : ℕ → Cohort → Option FileLock → GpuHost → GpuHost
lease i c none h = move i (declined gpu_capacity) h
lease i c (some f) h = move i (leasing c) (put_cohort_file c f h)

-- The next system call of Acquire, the deferred release of the mutex included.
unfoldable pub step_acquire : ℕ → Phase → GpuHost → GpuHost
unfolding enter probe lease lock_exclusive lock_shared unlock
step_acquire i (waiting c) h = enter i c (lock_exclusive i h.mutex) h
step_acquire i (entered c) h = probe i c (lock_exclusive i (cohort_file (opposing c) h)) h
step_acquire i (probing c) h =
    move i (probed c) (put_cohort_file (opposing c) (unlock i (cohort_file (opposing c) h)) h)
step_acquire i (probed c) h = lease i c (lock_shared i (cohort_file c h)) h
step_acquire i (leasing c) h = move i (holding c) (record h { mutex = unlock i h.mutex })
step_acquire i (declined e) h = move i (refused e) (record h { mutex = unlock i h.mutex })
step_acquire i _ h = h

-- A system call of Acquire that fails: LOCK_EX on the mutex, an open, or another error of a lock.
unfoldable pub fault : ℕ → Phase → GpuHost → GpuHost
fault i (waiting c) h = move i (refused io_error) h
fault i (entered c) h = move i (declined io_error) h
fault i (probed c) h = move i (declined io_error) h
fault i _ h = h

-- Close of a lease, whose second call does nothing.
unfoldable pub close_lease : ℕ → Phase → GpuHost → GpuHost
unfolding unlock
close_lease i (holding c) h = move i closed (put_cohort_file c (unlock i (cohort_file c h)) h)
close_lease i unguarded h = move i closed h
close_lease i _ h = h

-- The end of the process: the kernel drops the call's locks.
unfoldable pub release_all : ℕ → GpuHost → GpuHost
unfolding unlock
release_all i h = record {
  mutex = unlock i h.mutex;
  batch_file = unlock i h.batch_file;
  live_file = unlock i h.live_file;
  calls = put_call i closed h.calls;
}
