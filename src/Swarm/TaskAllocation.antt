-- ===== src/Swarm/TaskAllocation.antt =====
-- swarm/task_allocation.py: tasks are handed to rovers in turn. A task object is held by the
-- dictionary under its own id, so a change of the object is a change of that entry.
pub mod Allocate
use autonomous_rover_swarm_c.Common.{
  ℕ, zero, suc, ◌+◌, ◌%◌, String, string_eq, Bool, true, false, ◌||◌, Option, none, some, List, [],
  ◌∷◌, ◌++◌, eqb, length, if◌then◌else◌,
}
use autonomous_rover_swarm_c.Common.Dict
use autonomous_rover_swarm_c.Common.Dict.{Dict, lookup, insert, values}
use autonomous_rover_swarm_c.Crdt.Base.{Timestamp}
use autonomous_rover_swarm_c.Types.{
  Task, TaskType, TaskStatus, pending, assigned, in_progress, completed, failed, cancelled,
}

-- `TaskAssignment`; its `status` is always "assigned"
pub record TaskAssignment : Type 0 where
  pub task_id : String
  pub rover_id : String
  pub task_type : TaskType
  pub assigned_at : Timestamp

-- `TaskAllocationEngine`; `P` is the type of a payload.
pub record Engine {ℓ} (P : Type ℓ) : Type ℓ where
  pub node_id : String
  pub tasks : Dict String (Task P)
  pub assignments : Dict String TaskAssignment

-- `status == TaskStatus.PENDING` and `status == TaskStatus.FAILED`
abbrev pub is_pending : TaskStatus → Bool
is_pending pending = true
is_pending _ = false

abbrev pub is_failed : TaskStatus → Bool
is_failed failed = true
is_failed _ = false

-- `rovers[i]`
abbrev pub get_or : List String → ℕ → String → String
get_or [] i d = d
get_or (x ∷ xs) zero d = x
get_or (x ∷ xs) (suc i) d = get_or xs i d

-- The rover of the i-th pending task.
unfoldable pub rover_at : List String → ℕ → String
rover_at rovers i = get_or rovers (i % length rovers) ""

-- `self._assignments[task.task_id] = assignment`, for each
unfoldable pub store_all :
    List TaskAssignment → Dict String TaskAssignment → Dict String TaskAssignment
store_all [] d = d
store_all (a ∷ more) d = store_all more (insert a.task_id a d)

module _ {ℓ} {P : Type ℓ} where
  unfoldable pub new : String → Engine P
  new node_id = record { node_id = node_id; tasks = []; assignments = [] }

  unfoldable pub add_task : Task P → Engine P → Engine P
  add_task task s = record s { tasks = insert task.task_id task s.tasks }

  unfoldable pub remove_task : String → Engine P → Engine P
  remove_task task_id s = record s {
    tasks = Dict.remove task_id s.tasks;
    assignments = Dict.remove task_id s.assignments;
  }

  -- `sum(1 for t in tasks if test(t.status))`
  unfoldable pub count_status : (TaskStatus → Bool) → List (Task P) → ℕ
  count_status test [] = 0
  count_status test (t ∷ ts) = (if test t.status then 1 else 0) + count_status test ts

  unfoldable pub pending_count : Engine P → ℕ
  unfolding count_status
  pending_count s = count_status is_pending (values s.tasks)

  -- The loop over the pending tasks, made along the dictionary: `i` is the counter of `enumerate`,
  -- and `clock i` is the time that its round reads. The dictionary after it, and the assignments.
  unfoldable pub allocate_loop :
      List String
      → (ℕ → Timestamp)
      → ℕ
      → Dict String (Task P)
      → Dict String (Task P) × List TaskAssignment
  unfolding rover_at
  allocate_loop rovers clock i [] = ([], [])
  allocate_loop rovers clock i ((key, task) ∷ d) =
      let rover_id = rover_at rovers i in
      let skipped = allocate_loop rovers clock i d in
      let handed = allocate_loop rovers clock (suc i) d in
      if is_pending task.status
      then (
        (key, record task { status = assigned; assigned_to = some rover_id }) ∷ handed.0,
        record {
          task_id = task.task_id;
          rover_id = rover_id;
          task_type = task.task_type;
          assigned_at = clock i;
        }
            ∷ handed.1,
      )
      else ((key, task) ∷ skipped.0, skipped.1)

  unfoldable pub allocate :
      List String → (ℕ → Timestamp) → Engine P → Engine P × List TaskAssignment
  unfolding allocate_loop store_all pending_count
  allocate rovers clock s =
      let (tasks, made) = allocate_loop rovers clock 0 s.tasks in
      if eqb (pending_count s) 0 || eqb (length rovers) 0
      then (s, [])
      else (record s { tasks = tasks; assignments = store_all made s.assignments }, made)

  set_status : TaskStatus → Option (Task P) → String → Dict String (Task P) → Dict String (Task P)
  set_status status none task_id d = d
  set_status status (some task) task_id d = insert task_id (record task { status = status }) d

  -- `task = self._tasks.get(task_id)`, then `task.status = status`
  unfoldable pub update_status : TaskStatus → String → Dict String (Task P) → Dict String (Task P)
  unfolding set_status
  update_status status task_id d = set_status status (lookup task_id d) task_id d

  unfoldable pub complete_task : String → Engine P → Engine P
  unfolding update_status
  complete_task task_id s = record s { tasks = update_status completed task_id s.tasks }

  unfoldable pub fail_task : String → Engine P → Engine P
  unfolding update_status
  fail_task task_id s = record s { tasks = update_status failed task_id s.tasks }

  -- The ids of the failed tasks, which are the keys that hold them.
  unfoldable pub failed_keys : Dict String (Task P) → List String
  failed_keys [] = []
  failed_keys ((key, task) ∷ d) =
      let rest = failed_keys d in if is_failed task.status then key ∷ rest else rest

  -- The loop of `reallocate_failed`: each failed task is made pending, and then every pending task
  -- is allocated afresh. `clock j i` is the time read in round i of the j-th allocation.
  unfoldable pub reallocate_loop :
      List String
      → (ℕ → ℕ → Timestamp)
      → ℕ
      → List String
      → Engine P
      → Engine P × List TaskAssignment
  unfolding update_status allocate
  reallocate_loop rovers clock j [] s = (s, [])
  reallocate_loop rovers clock j (key ∷ keys) s =
      let reset = record s { tasks = update_status pending key s.tasks } in
      let (s', made) = allocate rovers (clock j) reset in
      let (s'', more) = reallocate_loop rovers clock (suc j) keys s' in (s'', made ++ more)

  unfoldable pub reallocate_failed :
      List String → (ℕ → ℕ → Timestamp) → Engine P → Engine P × List TaskAssignment
  unfolding failed_keys reallocate_loop
  reallocate_failed rovers clock s = reallocate_loop rovers clock 0 (failed_keys s.tasks) s

  -- `task_summary`: total, pending, assigned, completed, failed
  unfoldable pub task_summary : Engine P → ℕ × ℕ × ℕ × ℕ × ℕ
  unfolding pending_count count_status
  task_summary s =
      let ts = values s.tasks in
      (
        length s.tasks,
        pending_count s,
        count_status (λ status. elim status [ assigned ↦ true | _ ↦ false ]) ts,
        count_status (λ status. elim status [ completed ↦ true | _ ↦ false ]) ts,
        count_status is_failed ts,
      )
