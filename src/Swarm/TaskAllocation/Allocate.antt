-- ===== src/Swarm/TaskAllocation/Allocate.antt =====
-- What one allocation does to the tasks, and to whom it hands them.
use mathlib.Core.Option.{some-injective}
use autonomous_rover_swarm_c.Common.{
  ℕ, zero, suc, ◌+◌, String, string_eq, true, false, ◌≡◌, ◌≢◌, refl, ap, Option, none, some, List,
  [], ◌∷◌, arith, length, Bool-cases, inl, inr, eqb, if◌then◌else◌, ◌==◌,
}
use autonomous_rover_swarm_c.Common.Dict.{
  Dict, lookup, values, keys, insert, first_some, lookup-insert,
}
use autonomous_rover_swarm_c.Crdt.Base.{Timestamp}
use autonomous_rover_swarm_c.Types.{Task, assigned}
use autonomous_rover_swarm_c.Swarm.TaskAllocation.{
  Engine, TaskAssignment, is_pending, rover_at, count_status, pending_count, allocate_loop,
  allocate, store_all,
}

-- The i-th element, if there is one.
abbrev pub at {ℓ} : {A : Type ℓ} → ℕ → List A → Option A
at i [] = none
at zero (x ∷ xs) = some x
at (suc i) (x ∷ xs) = at i xs

-- The last assignment of a task among these.
abbrev pub last_of : String → List TaskAssignment → Option TaskAssignment
last_of id [] = none
last_of id (a ∷ made) = first_some (last_of id made) (if a.task_id == id then some a else none)

lookup-store_all :
    (id : String) (made : List TaskAssignment) (d : Dict String TaskAssignment)
    → lookup id (store_all made d) ≡ first_some (last_of id made) (lookup id d)
unfolding store_all
lookup-store_all id [] d = refl
lookup-store_all id (a ∷ made) d =
    ground (arith, lookup-store_all id made (insert a.task_id a d), lookup-insert a.task_id id a d)

module _ {ℓ} {P : Type ℓ} where
  -- The pending tasks, in the order of the dictionary.
  abbrev pub pending_tasks : Dict String (Task P) → List (Task P)
  pending_tasks [] = []
  pending_tasks ((key, t) ∷ d) =
      if is_pending t.status then t ∷ pending_tasks d else pending_tasks d

  module _ (rovers : List String) (clock : ℕ → Timestamp) where
    -- The assignment of the i-th pending task: the rovers are taken in turn.
    abbrev pub assignment_of : ℕ → Task P → TaskAssignment
    assignment_of i t = record {
      task_id = t.task_id;
      rover_id = rover_at rovers i;
      task_type = t.task_type;
      assigned_at = clock i;
    }

    abbrev pub assignments_from : ℕ → List (Task P) → List TaskAssignment
    assignments_from i [] = []
    assignments_from i (t ∷ ts) = assignment_of i t ∷ assignments_from (suc i) ts

    -- What becomes of a task: one that is not pending stays as it is, and a pending one is assigned to
    -- the rover of the assignment of its own that was made.
    abbrev pub TaskAfter : ℕ → List (Task P) → Task P → Option (Task P) → Type ℓ
    TaskAfter first waiting t after =
        (is_pending t.status ≡ false → after ≡ some t)
        × (is_pending t.status ≡ true
            → (i : ℕ) × (at i waiting ≡ some t)
              × (after
                  ≡ some (record t {
                    status = assigned;
                    assigned_to = some (rover_at rovers (first + i));
                  })))

    loop-made :
        (i : ℕ) (d : Dict String (Task P))
        → (allocate_loop rovers clock i d).1 ≡ assignments_from i (pending_tasks d)
    unfolding allocate_loop
    loop-made i [] = refl
    loop-made i ((k, t) ∷ d) = ground (arith, loop-made i d, loop-made (suc i) d)

    loop-keys :
        (i : ℕ) (d : Dict String (Task P)) → keys (allocate_loop rovers clock i d).0 ≡ keys d
    unfolding allocate_loop keys
    loop-keys i [] = refl
    loop-keys i ((k, t) ∷ d) = ground (arith, loop-keys i d, loop-keys (suc i) d)

    loop-pending :
        (i : ℕ) (d : Dict String (Task P))
        → count_status is_pending (values (allocate_loop rovers clock i d).0) ≡ 0
    unfolding allocate_loop count_status values
    loop-pending i [] = refl
    loop-pending i ((k, t) ∷ d) = ground (arith, loop-pending i d, loop-pending (suc i) d)

    -- A task that comes after a pending one waits one place later.
    TaskAfter-suc :
        (first : ℕ) (u : Task P) (waiting : List (Task P)) (t : Task P) (after : Option (Task P))
        → TaskAfter (suc first) waiting t after
        → TaskAfter first (u ∷ waiting) t after
    TaskAfter-suc first u waiting t after (still, waits) = (
      still,
      λ h.
          let (i, found, changed) = waits h in
          let next : suc first + i ≡ first + suc i = omega arith in
          (suc i, found, rw changed (rw next refl)),
    )

    loop-TaskAfter :
        (first : ℕ) (d : Dict String (Task P)) (key : String) (t : Task P)
        → lookup key d ≡ some t
        → TaskAfter first (pending_tasks d) t (lookup key (allocate_loop rovers clock first d).0)
    unfolding allocate_loop lookup
    loop-TaskAfter first [] key t found = absurd (ground (arith, found))
    loop-TaskAfter first ((k, u) ∷ d) key t found = elim (Bool-cases (is_pending u.status)) [
      | inl waits ↦ elim (Bool-cases (k == key)) [
        | inl here ↦
            let same : u ≡ t = some-injective u t (ground (arith, found, here)) in
            let zero_more : first ≡ first + 0 = omega arith in
            rw waits (
              rw here (
                λ still. absurd (ground (arith, waits, still, ap (λ x. is_pending x.status) same)),
                λ h. (0, rw same refl, rw same (rw (← zero_more) refl)),
              ))
        | inr there ↦ rw waits (
            rw there (
              TaskAfter-suc first u (pending_tasks d) t
                (lookup key (allocate_loop rovers clock (suc first) d).0)
                (loop-TaskAfter (suc first) d key t (ground (arith, found, there)))))
      ]
      | inr busy ↦ elim (Bool-cases (k == key)) [
        | inl here ↦
            let same : u ≡ t = some-injective u t (ground (arith, found, here)) in
            rw busy (
              rw here (
                λ still. rw same refl,
                λ h. absurd (ground (arith, busy, h, ap (λ x. is_pending x.status) same)),
              ))
        | inr there ↦
            rw busy (rw there (loop-TaskAfter first d key t (ground (arith, found, there))))
      ]
    ]

  none_pending :
      (d : Dict String (Task P)) → count_status is_pending (values d) ≡ 0 → pending_tasks d ≡ []
  unfolding count_status values
  none_pending [] h = refl
  none_pending ((k, t) ∷ d) h = ground (arith, none_pending d)

  none_pending_at :
      (d : Dict String (Task P)) (key : String) (t : Task P)
      → count_status is_pending (values d) ≡ 0
      → lookup key d ≡ some t
      → is_pending t.status ≡ false
  unfolding count_status values lookup
  none_pending_at [] key t h found = absurd (ground (arith, found))
  none_pending_at ((k, u) ∷ d) key t h found = ground (arith, none_pending_at d key t)

  allocate_idle :
      (rovers : List String) (clock : ℕ → Timestamp) (s : Engine P)
      → pending_count s ≡ 0
      → allocate rovers clock s ≡ (s, [])
  unfolding allocate
  allocate_idle rovers clock s h = rw h refl

  -- The engine and the assignments after an allocation that has something to do.
  abbrev allocated : List String → (ℕ → Timestamp) → Engine P → Engine P × List TaskAssignment
  allocated rovers clock s =
      let (tasks, made) = allocate_loop rovers clock 0 s.tasks in
      (record s { tasks = tasks; assignments = store_all made s.assignments }, made)

  allocate_busy :
      (r : String) (rovers : List String) (clock : ℕ → Timestamp) (s : Engine P)
      → eqb (pending_count s) 0 ≡ false
      → allocate (r ∷ rovers) clock s ≡ allocated (r ∷ rovers) clock s
  unfolding allocate
  allocate_busy r rovers clock s h =
      let some_rover : eqb (length (r ∷ rovers)) 0 ≡ false = ground arith in
      rw h (rw some_rover refl)

  -- What an allocation with at least one rover does, of the engine before it and after it, and of the
  -- assignments that it returns.
  abbrev pub AllocatesAll :
      List String → (ℕ → Timestamp) → Engine P → Engine P × List TaskAssignment → Type ℓ
  AllocatesAll rovers clock s (s', made) =
      (pending_count s' ≡ 0)
      × (made ≡ assignments_from rovers clock 0 (pending_tasks s.tasks))
      × (keys s'.tasks ≡ keys s.tasks)
      × ((key : String) (t : Task P)
          → lookup key s.tasks ≡ some t
          → TaskAfter rovers clock 0 (pending_tasks s.tasks) t (lookup key s'.tasks))
      × ((id : String)
          → lookup id s'.assignments ≡ first_some (last_of id made) (lookup id s.assignments))

  -- With at least one rover, an allocation leaves no task pending. It returns one assignment for each
  -- pending task, in the order of the dictionary, with the id and the type of the task and the rover
  -- whose turn it is. A task that was not pending stays as it is; a pending one becomes assigned, to
  -- the rover of its own assignment, and changes in nothing else. The engine then holds the last
  -- assignment made of each task, and the one it held of every other.
  pub allocate_all_pending :
      (rovers : List String) (clock : ℕ → Timestamp) (s : Engine P)
      → rovers ≢ []
      → AllocatesAll rovers clock s (allocate rovers clock s)
  allocate_all_pending [] clock s some_rover = absurd (some_rover refl)
  allocate_all_pending (r ∷ rovers) clock s some_rover =
      elim (Bool-cases (eqb (pending_count s) 0)) [
        | inl idle ↦
            let zero_pending : pending_count s ≡ 0 = ground arith in
            let nothing : count_status is_pending (values s.tasks) ≡ 0 =
              unfold pending_count in zero_pending in
            rw (allocate_idle (r ∷ rovers) clock s zero_pending) (
              zero_pending,
              rw (none_pending s.tasks nothing) refl,
              refl,
              λ key t found. (
                λ still. found,
                λ waits.
                    absurd (ground (arith, waits, none_pending_at s.tasks key t nothing found)),
              ),
              λ id. refl,
            )
        | inr busy ↦ rw (allocate_busy r rovers clock s busy) (
          unfold pending_count in loop-pending (r ∷ rovers) clock 0 s.tasks,
          loop-made (r ∷ rovers) clock 0 s.tasks,
          loop-keys (r ∷ rovers) clock 0 s.tasks,
          λ key t found. loop-TaskAfter (r ∷ rovers) clock 0 s.tasks key t found,
          λ id. lookup-store_all id (allocate_loop (r ∷ rovers) clock 0 s.tasks).1 s.assignments,
        )
      ]

  -- With no rover an allocation assigns nothing and changes nothing.
  pub allocate_no_rovers : (clock : ℕ → Timestamp) (s : Engine P) → allocate [] clock s ≡ (s, [])
  unfolding allocate
  allocate_no_rovers clock s = ground arith
