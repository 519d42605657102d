-- ===== src/V2/Race.antt =====
-- Requests for ids at the same time: `handle_request` of src/tunnel_v2.rs one access to the map at a
-- time. Each HTTP connection is a task, which may ask again once it has been answered.
use cncnet_server.Base.{
  ℕ, zero, suc, ◌+◌, ◌*◌, ◌≤◌, ◌<◌, ◌≡◌, refl, not, ◌&&◌, ◌||◌, List, [], ◌∷◌, ltb, ◌==◌,
  if◌then◌else◌, if_cases, length, length-set, get_or, set, arith, All,
}
use cncnet_server.Deps.{Deps}
use cncnet_server.V2.{timeout_seconds}

-- A task: without a request, drawing so many ids more, or about to insert an id that it found free,
-- with so many more to draw afterwards.
pub data Task : Type 0 where
  waiting : Task
  drawing : ℕ → Task
  inserting : ℕ → ℕ → Task

module _ (d : Deps) where
  open d use {Map, insert, contains_key, len, TunnelClient, client_new, get, len-insert}

  pub record Race : Type 0 where
    pub mappings : Map TunnelClient
    pub tasks : List Task

  -- The next access of a task. The input is the number of clients asked for, the random id, or not used.
  unfoldable pub task_step : ℕ → ℕ → Race → ℕ → ℕ → Task → Race
  task_step max_clients clock r i input waiting =
      if ltb input 2 || ltb 8 input || ltb max_clients (len r.mappings + input)
      then r
      else record r { tasks = set r.tasks i (drawing input) }
  task_step max_clients clock r i input (drawing zero) = record r { tasks = set r.tasks i waiting }
  task_step max_clients clock r i input (drawing (suc left)) =
      if not (input == 0) && not (contains_key input r.mappings)
      then record r { tasks = set r.tasks i (inserting input left) }
      else r
  task_step max_clients clock r i input (inserting client_id left) = record r {
    mappings = insert client_id (client_new timeout_seconds clock) r.mappings;
    tasks = set r.tasks i (drawing left);
  }

  -- A task makes its next access; a task gives up, and takes ids away; or something else changes the
  -- map without adding an id.
  pub data RaceStep (max_clients : ℕ) (r : Race) : Race → Type 0 where
    access :
        (i input clock : ℕ)
        → i < length r.tasks
        → RaceStep max_clients r (task_step max_clients clock r i input (get_or r.tasks i waiting))
    give_up :
        (i : ℕ) (m : Map TunnelClient)
        → i < length r.tasks
        → len m ≤ len r.mappings
        → RaceStep max_clients r (record { mappings = m; tasks = set r.tasks i waiting })
    other :
        (m : Map TunnelClient)
        → len m ≤ len r.mappings
        → RaceStep max_clients r (record r { mappings = m })

  pub data RaceReach (max_clients : ℕ) (r : Race) : Race → Type 0 where
    race_here : RaceReach max_clients r r
    race_next :
        {u v : Race}
        → RaceReach max_clients r u
        → RaceStep max_clients u v
        → RaceReach max_clients r v

  pub length-task_step :
      (max_clients clock : ℕ) (r : Race) (i input : ℕ) (t : Task)
      → length (task_step max_clients clock r i input t).tasks ≡ length r.tasks
  unfolding task_step
  length-task_step max_clients clock r i input waiting =
      ground (arith, length-set r.tasks i (drawing input))
  length-task_step max_clients clock r i input (drawing zero) = length-set r.tasks i waiting
  length-task_step max_clients clock r i input (drawing (suc left)) =
      ground (arith, length-set r.tasks i (inserting input left))
  length-task_step max_clients clock r i input (inserting client_id left) =
      length-set r.tasks i (drawing left)

  -- The ids that a task can still add.
  abbrev pending : Task → ℕ
  pending waiting = 0
  pending (drawing left) = left
  pending (inserting client_id left) = suc left

  abbrev pub all_pending : List Task → ℕ
  all_pending [] = 0
  all_pending (t ∷ ts) = pending t + all_pending ts

  abbrev IsShort : Task → Type 0
  IsShort t = pending t ≤ 8

  all_pending-set :
      (ts : List Task) (i : ℕ) (t : Task)
      → i < length ts
      → pending (get_or ts i waiting) + all_pending (set ts i t) ≡ pending t + all_pending ts
  all_pending-set [] i t inside = absurd (omega arith)
  all_pending-set (x ∷ ts) zero t inside = omega arith
  all_pending-set (x ∷ ts) (suc i) t inside = omega (arith, all_pending-set ts i t (omega arith))

  all_pending-le : (ts : List Task) → All IsShort ts → all_pending ts ≤ 8 * length ts
  all_pending-le [] h = omega arith
  all_pending-le (x ∷ ts) h = omega (arith, h.0, all_pending-le ts h.1)

  -- What the other tasks can add.
  others-le :
      (ts : List Task) (i : ℕ) (t : Task)
      → i < length ts
      → All IsShort ts
      → all_pending (set ts i t) + 8 ≤ pending t + 8 * length ts
  others-le [] i t inside h = absurd (omega arith)
  others-le (x ∷ ts) zero t inside h = omega (arith, all_pending-le ts h.1)
  others-le (x ∷ ts) (suc i) t inside h = omega (arith, h.0, others-le ts i t (omega arith) h.1)

  IsShort-set :
      (ts : List Task) (i : ℕ) (t : Task) → All IsShort ts → IsShort t → All IsShort (set ts i t)
  IsShort-set [] i t h k = tt
  IsShort-set (x ∷ ts) zero t h k = (k, h.1)
  IsShort-set (x ∷ ts) (suc i) t h k = (h.0, IsShort-set ts i t h.1 k)

  IsShort-get_or : (ts : List Task) (i : ℕ) → All IsShort ts → IsShort (get_or ts i waiting)
  IsShort-get_or [] i h = omega arith
  IsShort-get_or (x ∷ ts) zero h = h.0
  IsShort-get_or (x ∷ ts) (suc i) h = IsShort-get_or ts i h.1

  -- The clients there are and those that can still come, with `k` tasks.
  pub record Room (max_clients k : ℕ) (r : Race) : Type 0 where
    pub working : length r.tasks ≡ k
    pub short : All IsShort r.tasks
    pub bounded : len r.mappings + all_pending r.tasks + 8 ≤ max_clients + 8 * k

  module _ (max_clients k : ℕ) where
    -- A task is set to another that can add `added` fewer ids, where as many have been added.
    set-Room :
        (r : Race) (m : Map TunnelClient) (i : ℕ) (t : Task)
        → i < length r.tasks
        → pending t ≤ pending (get_or r.tasks i waiting)
        → pending t + len m ≤ pending (get_or r.tasks i waiting) + len r.mappings
        → Room max_clients k r
        → Room max_clients k (record { mappings = m; tasks = set r.tasks i t })
    set-Room r m i t inside fewer moved v = record {
      working = omega (arith, length-set r.tasks i t, v.working);
      short =
          IsShort-set r.tasks i t v.short (omega (arith, fewer, IsShort-get_or r.tasks i v.short));
      bounded = omega (arith, moved, all_pending-set r.tasks i t inside, v.bounded);
    }

    access-Room :
        (r : Race) (clock i input : ℕ) (t : Task)
        → get_or r.tasks i waiting ≡ t
        → i < length r.tasks
        → Room max_clients k r
        → Room max_clients k (task_step max_clients clock r i input t)
    unfolding task_step
    access-Room r clock i input waiting e inside v =
        if_cases (Room max_clients k)
          (ltb input 2 || ltb 8 input || ltb max_clients (len r.mappings + input)) _ _ (λ _. v)
          (λ fits. record {
            working = omega (arith, length-set r.tasks i (drawing input), v.working);
            short = IsShort-set r.tasks i (drawing input) v.short (ground (arith, fits));
            bounded =
                ground (arith, fits, others-le r.tasks i (drawing input) inside v.short, v.working);
          })
    access-Room r clock i input (drawing zero) e inside v =
        set-Room r r.mappings i waiting inside (omega arith) (omega arith) v
    access-Room r clock i input (drawing (suc left)) e inside v =
        if_cases (Room max_clients k) (not (input == 0) && not (contains_key input r.mappings)) _ _
          (λ _.
            set-Room r r.mappings i (inserting input left) inside (ground (arith, e))
              (ground (arith, e)) v)
          (λ _. v)
    access-Room r clock i input (inserting client_id left) e inside v =
        let client = client_new timeout_seconds clock in
        set-Room r (insert client_id client r.mappings) i (drawing left) inside (ground (arith, e))
          (ground (arith, e, len-insert client_id client r.mappings)) v

    Step-Room :
        {r r' : Race} → RaceStep max_clients r r' → Room max_clients k r → Room max_clients k r'
    Step-Room {r} (access i input clock inside) v =
        access-Room r clock i input (get_or r.tasks i waiting) refl inside v
    Step-Room {r} (give_up i m inside fewer) v =
        set-Room r m i waiting inside (omega arith) (omega (arith, fewer)) v
    Step-Room {r} (other m fewer) v = record {
      working = v.working;
      short = v.short;
      bounded = omega (arith, fewer, v.bounded);
    }

    Reach-Room :
        {r r' : Race} → RaceReach max_clients r r' → Room max_clients k r → Room max_clients k r'
    Reach-Room race_here v = v
    Reach-Room (race_next s t) v = Step-Room t (Reach-Room s v)

  -- So many tasks without a request.
  abbrev pub idle_tasks : ℕ → List Task
  idle_tasks zero = []
  idle_tasks (suc n) = waiting ∷ idle_tasks n

  length-idle_tasks : (n : ℕ) → length (idle_tasks n) ≡ n
  length-idle_tasks zero = refl
  length-idle_tasks (suc n) = omega (arith, length-idle_tasks n)

  idle_tasks-IsShort : (n : ℕ) → All IsShort (idle_tasks n) × (all_pending (idle_tasks n) ≡ 0)
  idle_tasks-IsShort zero = (tt, refl)
  idle_tasks-IsShort (suc n) =
      ((omega arith, (idle_tasks-IsShort n).0), omega (arith, (idle_tasks-IsShort n).1))

  -- The test of the limit and the insertions are not one step, so requests at the same time can go
  -- above `max_clients`, but not far: with `k + 1` connections, whatever the order of their accesses to
  -- the map and of whatever removes ids, the clients that there are and those still to be inserted are
  -- at most `max_clients + 8 k`. With one connection, the limit holds.
  pub race_bounded :
      (max_clients k : ℕ) (m : Map TunnelClient) (r : Race)
      → len m ≤ max_clients
      → RaceReach max_clients (record { mappings = m; tasks = idle_tasks (suc k) }) r
      → len r.mappings + all_pending r.tasks ≤ max_clients + 8 * k
  race_bounded max_clients k m r within s =
      let v = Reach-Room max_clients (suc k) s (record {
        working = length-idle_tasks (suc k);
        short = (idle_tasks-IsShort (suc k)).0;
        bounded = omega (arith, within, (idle_tasks-IsShort (suc k)).1);
      }) in
      omega (arith, v.bounded)
