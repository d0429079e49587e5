-- ===== src/Shmem/Create.antt =====
-- kernel/sharedmem.c: a new shared memory object.
use quad_os.Base.{
  ℕ, zero, suc, ◌+◌, ◌*◌, ◌^◌, ◌≤◌, ◌<◌, ◌≡◌, ◌≢◌, ◌⊎◌, refl, sym, ap, ◌∙◌, false, List, [], ◌∷◌,
  none, some, ◌==◌, Bool-cases, Option-cases, inl, inr, length, get_or-set_self, get_or-set_ne, set,
  mul32, ceil_div, page_size, Delivers, Delivers-bind, Delivers-stop, kernel_assert, arith,
}
use quad_os.Pools.{SharedMemory, no_object, size_of, find_shmem_from, find_available_shmem_slot}
use quad_os.Shmem.{Pages, Shared, object_at, alloc_frames, sharedmem_create}

-- The first slot without an object.
pub record FirstUnused (objs : List SharedMemory) (i k : ℕ) : Type 0 where
  pub offset : ℕ
  pub index : k ≡ i + offset
  pub inside : offset < length objs
  pub unused : size_of objs offset ≡ 0
  pub lowest : (j : ℕ) → j < offset → size_of objs j ≢ 0

find_shmem_from-FirstUnused :
    (i : ℕ) (objs : List SharedMemory) (k : ℕ)
    → find_shmem_from i objs ≡ some k
    → FirstUnused objs i k
unfolding find_shmem_from
find_shmem_from-FirstUnused i [] k h = absurd (cc h)
find_shmem_from-FirstUnused i (obj ∷ objs) k h = elim (Bool-cases (obj.size_in_pages == 0)) [
  | inl e ↦ record {
    offset = 0;
    index = ground arith;
    inside = omega arith;
    unused = ground arith;
    lowest = λ j lt. absurd (omega arith);
  }
  | inr ne ↦
      let f = find_shmem_from-FirstUnused (i + 1) objs k (rw ne at h) in
      record {
        offset = suc f.offset;
        index = omega (arith, f.index);
        inside = omega (arith, f.inside);
        unused = f.unused;
        lowest = λ j lt. lower obj objs f.offset j ne f.lowest lt;
      }
]
  where
    lower :
        (obj : SharedMemory) (objs : List SharedMemory) (n j : ℕ)
        → (obj.size_in_pages == 0) ≡ false
        → ((j : ℕ) → j < n → size_of objs j ≢ 0)
        → j < suc n
        → size_of (obj ∷ objs) j ≢ 0
    lower obj objs n zero ne below lt = ground arith
    lower obj objs n (suc j) ne below lt = below j (omega arith)

find_shmem_from-none :
    (i : ℕ) (objs : List SharedMemory)
    → find_shmem_from i objs ≡ none
    → (j : ℕ) → j < length objs
    → size_of objs j ≢ 0
unfolding find_shmem_from
find_shmem_from-none i [] h j lt = elim lt [ ]
find_shmem_from-none i (obj ∷ objs) h zero lt = ground arith
find_shmem_from-none i (obj ∷ objs) h (suc j) lt = elim (Bool-cases (obj.size_in_pages == 0)) [
  | inl e ↦ absurd (cc (rw e at h))
  | inr ne ↦ find_shmem_from-none (i + 1) objs (rw ne at h) j (omega arith)
]

-- All slots have an object.
abbrev pub AllUsed : List SharedMemory → Type 0
AllUsed objs = (j : ℕ) → j < length objs → size_of objs j ≢ 0

find_available_shmem_slot-FirstUnused :
    (objs : List SharedMemory)
    → Delivers (AllUsed objs) (find_available_shmem_slot objs) (λ k. FirstUnused objs 0 k)
unfolding find_available_shmem_slot
find_available_shmem_slot-FirstUnused objs = elim (Option-cases (find_shmem_from 0 objs)) [
  | inl e ↦ rw (e, find_available_shmem_slot) (find_shmem_from-none 0 objs e)
  | inr (k, e) ↦ rw (e, find_available_shmem_slot) (find_shmem_from-FirstUnused 0 objs k e)
]

module _ (P : Pages) where
  open P use {State, Exhausted, kmalloc, alloc_frame, kmalloc_steady, alloc_steady}

  alloc_frames-length :
      (n : ℕ) (m : State) → Delivers Exhausted (alloc_frames P n m) (λ r. length r.0 ≡ n)
  unfolding alloc_frames
  alloc_frames-length zero m = refl
  alloc_frames-length (suc n) m = Delivers-bind _ (alloc_frame m) _ _ _ (alloc_steady m) (λ r _.
      Delivers-bind _ (alloc_frames P n r.1) _ _ _ (alloc_frames-length n r.1)
        (λ r' e. omega (arith, e)))

  -- What the creation of an object of `size` bytes has done when it returns `id`.
  pub record Created (size owner : ℕ) (t : Shared State) (id : ℕ) (t' : Shared State) : Type 0 where
    pub inside : id < length t.shmem
    pub was_unused : size_of t.shmem id ≡ 0
    pub lowest : (j : ℕ) → j < id → size_of t.shmem j ≢ 0
    pub pages :
        (size ≤ size_of t'.shmem id * page_size)
        × (size_of t'.shmem id * page_size < size + page_size)
    pub frames : length (object_at t'.shmem id).frames ≡ size_of t'.shmem id
    pub owned : (object_at t'.shmem id).owner_task_id ≡ owner
    pub others : (j : ℕ) → j ≢ id → object_at t'.shmem j ≡ object_at t.shmem j
    pub pools : (t'.kernel_shmem_mappings ≡ t.kernel_shmem_mappings) × (t'.tasks ≡ t.tasks)

  -- With interrupts off, creating an object of at least one byte, and not within a page of 2 ^ 32,
  -- takes the first slot without an object, with as many page frames as the size needs; no other
  -- object and no mapping changes. It stops the machine only if all slots are in use or the page
  -- allocation stops it.
  pub sharedmem_create-Created :
      (size owner : ℕ) (t : Shared State)
      → t.interrupts_enabled ≡ false
      → 0 < size
      → size + page_size ≤ 2 ^ 32
      → Delivers
          (Exhausted ⊎ AllUsed t.shmem)
          (sharedmem_create P size owner t)
          (λ r. Created size owner t r.0 r.1)
  unfolding sharedmem_create
  sharedmem_create-Created size owner t off some_bytes fits =
      let pages = ceil_div size page_size in
      let nonempty : (size == 0) ≡ false = ground arith in
      rw (off, nonempty, kernel_assert)
        (Delivers-bind _ (find_available_shmem_slot t.shmem) _ _ _
          (Delivers-stop _ _ (find_available_shmem_slot t.shmem) _ (λ full. inr full)
            (find_available_shmem_slot-FirstUnused t.shmem))
          (λ id f.
            let same : id ≡ f.offset = omega (arith, f.index) in
            let inside : id < length t.shmem = omega (arith, f.index, f.inside) in
            Delivers-bind _ (kmalloc (mul32 pages 4) t.memory) _ _ _
              (Delivers-stop _ _ (kmalloc (mul32 pages 4) t.memory) _ (λ e. inl e)
                (kmalloc_steady _ _))
              (λ r₁ _.
                Delivers-bind _ (alloc_frames P pages r₁.1) _ _ _
                  (Delivers-stop _ _ (alloc_frames P pages r₁.1) _ (λ e. inl e)
                    (alloc_frames-length pages r₁.1))
                  (λ r₂ n.
                    let obj : SharedMemory = record {
                      size_in_pages = pages;
                      physical_pages = r₁.0;
                      frames = r₂.0;
                      owner_task_id = owner;
                    } in
                    let here : object_at (set t.shmem id obj) id ≡ obj =
                      get_or-set_self t.shmem id obj no_object inside in
                    let size_here : size_of (set t.shmem id obj) id ≡ pages =
                      ap (λ (o : SharedMemory). o.size_in_pages) here in
                    record {
                      inside = inside;
                      was_unused = ap (λ (k : ℕ). size_of t.shmem k) same ∙ f.unused;
                      lowest = λ j lt. f.lowest j (omega (arith, same));
                      pages = (
                        omega (arith, size_here, fits, some_bytes),
                        omega (arith, size_here, fits, some_bytes),
                      );
                      frames =
                          ap (λ (o : SharedMemory). length o.frames) here ∙ (n ∙ sym size_here);
                      owned = ap (λ (o : SharedMemory). o.owner_task_id) here;
                      others = λ j ne. get_or-set_ne t.shmem id j obj no_object (λ e. ne (sym e));
                      pools = (refl, refl);
                    }))))
