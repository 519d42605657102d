-- ===== src/Main/Runtime.antt =====
-- The runtime and the log that src/main.rs sets up.
use cncnet_server.Base.{
  ℕ, ◌*◌, ◌%◌, ◌≤◌, ◌<◌, ◌≡◌, Bool, true, false, not, Option, none, some, List, ltb, if◌then◌else◌,
  slice_eq,
}
use cncnet_server.Config.{Args}
use cncnet_server.Text.{codes}

-- What `main` sets of the runtime; the package chooses what is not set.
pub record Builder : Type 0 where
  pub worker_threads : Option ℕ
  pub max_blocking_threads : Option ℕ
  pub thread_stack_size : Option ℕ
  pub thread_name : Option (List ℕ)
  -- The processor that the thread with a number is bound to.
  pub on_thread_start : Option (ℕ → ℕ)

abbrev pub arm_worker_threads : ℕ → Args → ℕ
arm_worker_threads cpus args =
    if ltb 0 args.workers then args.workers else if ltb 4 cpus then 4 else cpus

unfoldable pub configure_runtime : Bool → ℕ → Args → Builder
configure_runtime aarch64 cpus args =
    if aarch64
    then (record {
      worker_threads = some (arm_worker_threads cpus args);
      max_blocking_threads = some (arm_worker_threads cpus args * 2);
      thread_stack_size = some (2 * 1024 * 1024);
      thread_name = some (codes "cncnet-worker");
      on_thread_start = some (λ tid. tid % cpus);
    })
    else (record {
      worker_threads = if ltb 0 args.workers then some args.workers else none;
      max_blocking_threads = none;
      thread_stack_size = none;
      thread_name = none;
      on_thread_start = none;
    })

-- The layer of the log.
pub record Tracing : Type 0 where
  pub filter : List ℕ
  pub json : Bool
  pub current_span : Bool
  pub target : Bool
  pub thread_ids : Bool
  pub line_number : Bool

-- The filter of the environment, where it has one that parses, comes before the argument.
unfoldable pub init_tracing : Option (List ℕ) → List ℕ → List ℕ → Tracing
init_tracing env_filter level format =
    let filter : List ℕ = elim env_filter [ none ↦ level | some f ↦ f ] in
    let json = slice_eq format (codes "json") in
    record {
      filter = filter;
      json = json;
      current_span = json;
      target = false;
      thread_ids = not json;
      line_number = not json;
    }

-- What a thread with a number is bound to, of `cpus` processors: one that there is, and each of the
-- first `cpus` threads to one of its own.
pub record Pinned (cpus : ℕ) (b : Builder) : Type 0 where
  pub cpu : ℕ → ℕ
  pub set : b.on_thread_start ≡ some cpu
  pub exists : (tid : ℕ) → cpu tid < cpus
  pub apart : (tid tid' : ℕ) → tid < cpus → tid' < cpus → cpu tid ≡ cpu tid' → tid ≡ tid'

-- The threads of a runtime for aarch64.
pub record Arm (cpus : ℕ) (args : Args) (b : Builder) : Type 0 where
  pub threads : ℕ
  pub set : b.worker_threads ≡ some threads
  pub positive : 0 < threads
  pub asked : 0 < args.workers → threads ≡ args.workers
  pub unasked : args.workers ≡ 0 → (threads ≤ 4) × (threads ≤ cpus)
  -- With fewer than four processors there is a thread for each.
  pub all_used : args.workers ≡ 0 → cpus ≤ 4 → threads ≡ cpus
  pub blocking : b.max_blocking_threads ≡ some (threads * 2)
  pub stack : b.thread_stack_size ≡ some 2097152
  pub named : b.thread_name ≡ some (codes "cncnet-worker")
  pub pinned : Pinned cpus b

-- And for other targets, where the package chooses all but what the argument says.
pub record Other (args : Args) (b : Builder) : Type 0 where
  pub asked : 0 < args.workers → b.worker_threads ≡ some args.workers
  pub unasked : args.workers ≡ 0 → b.worker_threads ≡ none
  pub blocking : b.max_blocking_threads ≡ none
  pub stack : b.thread_stack_size ≡ none
  pub unpinned : b.on_thread_start ≡ none

abbrev pub Configured : Bool → ℕ → Args → Builder → Type 0
Configured true cpus args b = Arm cpus args b
Configured false cpus args b = Other args b
