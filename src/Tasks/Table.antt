-- ===== src/Tasks/Table.antt =====
-- kernel/tasks.c: the task table as tasks begin and end.
use quad_os.Base.{
  ℕ, zero, suc, ◌+◌, ◌≤◌, ◌<◌, ◌≡◌, ◌≢◌, ◌⊎◌, refl, sym, ap, ◌∙◌, Bool, true, false, List, [], ◌∷◌,
  none, some, ◌==◌, ==_iff, if◌then◌else◌, Bool-cases, Option-cases, inl, inr, length, length-set,
  length-replicate, get_or-set_self, get_or-set_ne, get_or-replicate, set, replicate, add32,
  Delivers, Delivers-bind, Delivers-stop, kernel_assert, arith,
}
use quad_os.Tasks.{
  Task, Tasks, Memory, task_at, no_task, new_task, dead, ready, idle, max_tasks, kernel_stack_size,
  find_task_from, find_available_task_slot, setup_tasks, create_task, create_kernel_task,
}

-- How many tasks of a table are not dead.
unfoldable pub alive : List Task → ℕ
alive [] = 0
alive (t ∷ ts) = (if t.state == dead then 0 else 1) + alive ts

-- The invariant: 64 slots; the tasks that are not dead are counted; ids follow from the slots, and a
-- dead slot has none.
pub record IsTasks {S : Type 0} (t : Tasks S) : Type 0 where
  pub table : length t.tasks ≡ max_tasks
  pub counted : t.num_tasks ≡ alive t.tasks
  pub ids :
      (i : ℕ)
      → i < max_tasks
      → (task_at t.tasks i).id ≡ (if (task_at t.tasks i).state == dead then 0 else i + 1000)

alive-set :
    (ts : List Task) (i : ℕ) (t : Task)
    → i < length ts
    → alive (set ts i t) + (if (task_at ts i).state == dead then 0 else 1)
      ≡ alive ts + (if t.state == dead then 0 else 1)
unfolding alive
alive-set [] i t h = elim h [ ]
alive-set (x ∷ xs) zero t h = omega arith
alive-set (x ∷ xs) (suc i) t h = omega (arith, alive-set xs i t)

alive-le : (ts : List Task) → alive ts ≤ length ts
unfolding alive
alive-le [] = omega arith
alive-le (x ∷ xs) = ground (arith, alive-le xs)

-- A task that is not dead is counted, and no more than the slots are.
pub alive-pos :
    (ts : List Task) (i : ℕ)
    → i < length ts
    → (task_at ts i).state ≢ dead
    → (0 < alive ts) × (alive ts ≤ length ts)
unfolding alive
alive-pos [] i h living = elim h [ ]
alive-pos (x ∷ xs) zero h living = ground (arith, alive-le xs)
alive-pos (x ∷ xs) (suc i) h living = ground (arith, alive-pos xs i (omega arith) living)

alive-replicate : (n : ℕ) → alive (replicate n no_task) ≡ 0
unfolding alive replicate
alive-replicate zero = refl
alive-replicate (suc n) = omega (arith, alive-replicate n)

-- The first dead slot.
pub record FirstDead (ts : List Task) (i k : ℕ) : Type 0 where
  pub offset : ℕ
  pub index : k ≡ i + offset
  pub inside : offset < length ts
  pub is_dead : (task_at ts offset).state ≡ dead
  pub lowest : (j : ℕ) → j < offset → (task_at ts j).state ≢ dead

find_task_from-FirstDead :
    (i : ℕ) (ts : List Task) (k : ℕ) → find_task_from i ts ≡ some k → FirstDead ts i k
unfolding find_task_from
find_task_from-FirstDead i [] k h = absurd (cc h)
find_task_from-FirstDead i (t ∷ ts) k h = elim (Bool-cases (t.state == dead)) [
  | inl e ↦ record {
    offset = 0;
    index = ground arith;
    inside = omega arith;
    is_dead = ground arith;
    lowest = λ j lt. absurd (omega arith);
  }
  | inr ne ↦
      let f = find_task_from-FirstDead (i + 1) ts k (rw ne at h) in
      record {
        offset = suc f.offset;
        index = omega (arith, f.index);
        inside = omega (arith, f.inside);
        is_dead = f.is_dead;
        lowest = λ j lt. lower t ts f.offset j ne f.lowest lt;
      }
]
  where
    lower :
        (t : Task) (ts : List Task) (n j : ℕ)
        → (t.state == dead) ≡ false
        → ((j : ℕ) → j < n → (task_at ts j).state ≢ dead)
        → j < suc n
        → (task_at (t ∷ ts) j).state ≢ dead
    lower t ts n zero ne below lt = ground arith
    lower t ts n (suc j) ne below lt = below j (omega arith)

find_task_from-none : (i : ℕ) (ts : List Task) → find_task_from i ts ≡ none → alive ts ≡ length ts
unfolding find_task_from alive
find_task_from-none i [] h = refl
find_task_from-none i (t ∷ ts) h = ground (arith, find_task_from-none (i + 1) ts)

find_available_task_slot-FirstDead :
    (ts : List Task)
    → Delivers (alive ts ≡ length ts) (find_available_task_slot ts) (λ k. FirstDead ts 0 k)
unfolding find_available_task_slot
find_available_task_slot-FirstDead ts = elim (Option-cases (find_task_from 0 ts)) [
  | inl e ↦ rw (e, find_available_task_slot) (find_task_from-none 0 ts e)
  | inr (k, e) ↦ rw (e, find_available_task_slot) (find_task_from-FirstDead 0 ts k e)
]

-- Writing one slot, with the count of the tasks put right, keeps the invariant.
pub IsTasks-set :
    {S : Type 0} (t t' : Tasks S) (i : ℕ) (new : Task)
    → IsTasks t
    → i < max_tasks
    → t'.tasks ≡ set t.tasks i new
    → t'.num_tasks + (if (task_at t.tasks i).state == dead then 0 else 1)
      ≡ t.num_tasks + (if new.state == dead then 0 else 1)
    → new.id ≡ (if new.state == dead then 0 else i + 1000)
    → IsTasks t'
IsTasks-set t t' i new v small e count id = record {
  table = rw e (length-set t.tasks i new ∙ v.table);
  counted = rw e (omega (arith, count, v.counted, v.table, alive-set t.tasks i new));
  ids = λ j lt. rw e (elim (Bool-cases (i == j)) [
    | inl same ↦
        let same' = (==_iff i j).0 same in
        rw (← same', get_or-set_self t.tasks i new no_task (omega (arith, v.table))) id
    | inr ne ↦
        let ne' : i ≢ j = ground arith in
        rw (get_or-set_ne t.tasks i j new no_task ne') (v.ids j lt)
  ]);
}

module _ {S : Type 0} where
  -- After `setup_tasks` the invariant holds, and the root task, which is idle, is the only one.
  pub setup_tasks-IsTasks :
      (pagedir : ℕ) (t : Tasks S)
      → IsTasks (setup_tasks pagedir t) × ((setup_tasks pagedir t).num_tasks ≡ 1)
  unfolding setup_tasks
  setup_tasks-IsTasks pagedir t =
      let blank : Tasks S = record t { tasks = replicate max_tasks no_task; num_tasks = 0 } in
      let root : Task = record no_task { id = 1000; state = idle; pagedir = pagedir } in
      (
        IsTasks-set blank (setup_tasks pagedir t) 0 root
            (record {
              table = length-replicate {0} max_tasks no_task;
              counted = sym (alive-replicate max_tasks);
              ids = λ i lt. rw (get_or-replicate max_tasks i no_task) refl;
            })
            (omega arith) refl refl refl,
        refl,
      )

module _ (M : Memory) where
  open M use {
    State, Exhausted, kmalloc, kfree, mem_free_page_dir, sharedmem_destroy, shmem_owner,
    destroy_events, kmalloc_steady, kfree_steady, free_dir_steady, destroy_steady, events_steady,
    clear_pool,
  }

  record Placed (index : ℕ) (kernel_task : Bool) (pagedir : ℕ) (t t' : Tasks State) : Type 0 where
    pub stack : ℕ
    pub placed : t'.tasks ≡ set t.tasks index (new_task index kernel_task pagedir stack)
    pub same_count : t'.num_tasks ≡ t.num_tasks

  create_task-Placed :
      (index eip : ℕ) (kernel_task : Bool) (pagedir : ℕ) (t : Tasks State)
      → ((task_at t.tasks index).id == 0) ≡ true
      → Delivers Exhausted
          (create_task M index eip kernel_task pagedir t)
          (Placed index kernel_task pagedir t)
  unfolding create_task
  create_task-Placed index eip kernel_task pagedir t free =
      rw (free, kernel_assert)
        (Delivers-bind _ (kmalloc kernel_stack_size (clear_pool index t.memory)) _ _ _
          (kmalloc_steady _ _)
          (λ r _. record { stack = add32 r.0 kernel_stack_size; placed = refl; same_count = refl }))

  -- What the creation of a kernel task at `func` has done when it returns `id`.
  pub record Spawned (page_dir func : ℕ) (t : Tasks State) (id : ℕ) (t' : Tasks State)
      : Type 0 where
    pub table : IsTasks t'
    pub index : ℕ
    pub named : id ≡ index + 1000
    pub inside : index < max_tasks
    pub was_dead : (task_at t.tasks index).state ≡ dead
    pub lowest : (j : ℕ) → j < index → (task_at t.tasks j).state ≢ dead
    pub runs :
        ((task_at t'.tasks index).state ≡ ready)
        × ((task_at t'.tasks index).pagedir ≡ page_dir)
        × ((task_at t'.tasks index).is_kernel_task ≡ true)
    pub others : (j : ℕ) → j ≢ index → task_at t'.tasks j ≡ task_at t.tasks j
    pub counted : t'.num_tasks ≡ t.num_tasks + 1

  -- From a valid table, `create_kernel_task` takes the first dead slot, makes the task there ready
  -- and counts it; no other task changes. It stops the machine only if no slot is dead or the kernel
  -- heap stops it.
  pub create_kernel_task-Spawned :
      (page_dir func : ℕ) (t : Tasks State)
      → IsTasks t
      → Delivers
          (Exhausted ⊎ (t.num_tasks ≡ max_tasks))
          (create_kernel_task M page_dir func t)
          (λ r. Spawned page_dir func t r.0 r.1)
  unfolding create_kernel_task
  create_kernel_task-Spawned page_dir func t v =
      Delivers-bind _ (find_available_task_slot t.tasks) _ _ _
        (Delivers-stop _ _ (find_available_task_slot t.tasks) _
          (λ full. inr (omega (arith, full, v.counted, v.table)))
          (find_available_task_slot-FirstDead t.tasks))
        (λ index f.
          let same : index ≡ f.offset = omega (arith, f.index) in
          let small : index < max_tasks = omega (arith, f.index, f.inside, v.table) in
          let was_dead : (task_at t.tasks index).state ≡ dead =
            ap (λ (n : ℕ). (task_at t.tasks n).state) same ∙ f.is_dead in
          let free : ((task_at t.tasks index).id == 0) ≡ true =
            ground (arith, v.ids index small, was_dead) in
          Delivers-bind _
            (create_task M index func true page_dir (record t { num_tasks = t.num_tasks + 1 })) _ _
            _
            (Delivers-stop _ _
              (create_task M index func true page_dir (record t { num_tasks = t.num_tasks + 1 })) _
              (λ e. inl e)
              (create_task-Placed index func true page_dir
                (record t { num_tasks = t.num_tasks + 1 }) free))
            (λ t' made.
              let new = new_task index true page_dir made.stack in
              let here : task_at t'.tasks index ≡ new =
                ap (λ (ts : List Task). task_at ts index) made.placed
                ∙ get_or-set_self t.tasks index new no_task (omega (arith, v.table)) in
              record {
                table =
                    IsTasks-set t t' index new v small made.placed
                      (ground (arith, was_dead, made.same_count)) refl;
                index = index;
                named = ap (λ (n : Task). n.id) here;
                inside = small;
                was_dead = was_dead;
                lowest = λ j lt. f.lowest j (omega (arith, same));
                runs = (
                  ap (λ (n : Task). n.state) here,
                  ap (λ (n : Task). n.pagedir) here,
                  ap (λ (n : Task). n.is_kernel_task) here,
                );
                others = λ j ne.
                    ap (λ (ts : List Task). task_at ts j) made.placed
                    ∙ get_or-set_ne t.tasks index j new no_task (λ e. ne (sym e));
                counted = made.same_count;
              }))
