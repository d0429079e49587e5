-- ===== src/Kmalloc/Examples.antt =====
-- kernel/kmalloc.c over the frames of kernel/physalloc.c.
use quad_os.Base.{
  ℕ, ◌≡◌, ◌/◌, ◌==◌, if◌then◌else◌, refl, ◌∙◌, true, false, [], ◌∷◌, Outcome, ok, ◌>>=◌, page_size,
  Delivers, Delivers-bind, Delivers-known, kernel_assert, arith,
}
use quad_os.PhysAlloc.{
  Pmm, pmm_alloc_pageframe, is_pf_used, byte_at, take_slot, free_slot, free_bit, with_bit,
}
use quad_os.PhysAlloc.Valid.{IsValid}
use quad_os.PhysAlloc.Alloc.{alloc-steady, alloc-Allocated}
use quad_os.Malloc.{Headers, malloc, fit_from, real_size, ensure_room, change_heap_size, place}
use quad_os.Malloc.Chunks.{chunk}
use quad_os.Malloc.Layout.{Layout}
use quad_os.Kmalloc.{Paging, Kernel, kmalloc, change_pages, map_pages}

-- The frames, and for each virtual page the frame and the flags.
abbrev Memory : Type 0
Memory = Pmm × (ℕ → ℕ × ℕ)

abbrev take_frame : Memory → Outcome (ℕ × Memory)
take_frame s = do (addr, pmm) ← pmm_alloc_pageframe s.0; ok (addr, (pmm, s.1))

abbrev enter_page : ℕ → ℕ → ℕ → Memory → Outcome Memory
enter_page v p flags s = ok (s.0, λ w. if w == v then (p, flags) else s.1 w)

abbrev TakesFrame : Memory → ℕ × Memory → Type 0
TakesFrame s r =
    IsValid r.1.0
    × (¬ (is_pf_used s.0 (r.0 / page_size) ≡ true))
    × (is_pf_used r.1.0 (r.0 / page_size) ≡ true)
    × ((f : ℕ) → is_pf_used s.0 (f / page_size) ≡ true → is_pf_used r.1.0 (f / page_size) ≡ true)
    × ((v f flags : ℕ) → s.1 v ≡ (f, flags) → r.1.1 v ≡ (f, flags))

take_frame_lem : (s : Memory) → IsValid s.0 → Delivers Unit (take_frame s) (TakesFrame s)
take_frame_lem s valid =
    Delivers-bind Unit (pmm_alloc_pageframe s.0) _ (λ t. TakesFrame s (t.0, (t.1, s.1))) _
      (Delivers-known Unit Unit (pmm_alloc_pageframe s.0) (λ t. Unit) _ (alloc-steady s.0) (λ e. tt)
        (λ t e.
          let a = alloc-Allocated s.0 valid e in
          let frame = t.0 / page_size in
          (
            a.1,
            λ used. ground (arith, a.0.was_free, used),
            ground (arith, a.0.marked frame),
            λ f used. ground (arith, a.0.marked (f / page_size), used),
            λ v f flags there. there,
          )))
      (λ t d. d)

-- The frames are those of the bitmap.
abbrev frames : Paging
frames = record {
  State = Memory;
  Exhausted = Unit;
  IsReady = λ s. IsValid s.0;
  Allocated = λ f s. is_pf_used s.0 (f / page_size) ≡ true;
  Mapped = λ v f flags s. s.1 v ≡ (f, flags);
  alloc_frame = take_frame;
  map_page = enter_page;
  alloc_frame_lem = take_frame_lem;
  map_page_lem = λ v p flags s valid.
      (valid, ground arith, λ f used. used, λ w f g ne there. (ground (arith, ne)) ∙ there);
}

-- The frame at 0x1000 is in use, for the first page of the heap.
abbrev memory : Pmm
memory = record {
  bitmap = 2 ∷ (0 ∷ []);
  page_frame_min = 0;
  page_frame_max = 16;
  total_allocated = 1;
}

abbrev no_headers : Headers
no_headers = λ a. chunk 0 false

abbrev ready : Kernel Memory
ready = record {
  heap = record {
    headers = no_headers;
    heap_start = 0xd000_0000;
    heap_size = 0x1000;
    threshold = 0;
    pages = (memory, λ v. if v == 0xd000_0000 then (0x1000, 2) else (0, 0));
  };
  kmalloc_initialized = true;
}

-- A request that takes a second page: it is mapped to the lowest free frame.
grown_run : Delivers ⊥ (kmalloc frames 1 5000 ready) (λ r. r.1.heap.pages.1 0xd000_1000 ≡ (0, 2))
unfolding kmalloc malloc fit_from real_size ensure_room change_heap_size place change_pages
    map_pages pmm_alloc_pageframe take_slot free_slot free_bit byte_at with_bit kernel_assert
grown_run = refl
