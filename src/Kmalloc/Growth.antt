-- ===== src/Kmalloc/Growth.antt =====
-- kernel/kmalloc.c, `change_heap_size`: every page of the heap is mapped, each to a frame of its own.
use quad_os.Base.{
  ℕ, zero, suc, ◌+◌, ◌-◌, ◌*◌, ◌/◌, ◌^◌, ◌≤◌, ◌<◌, ◌≡◌, ◌≢◌, inl, inr, refl, sym, ◌∙◌, subst, ◌==◌,
  if◌then◌else◌, ltb, Bool-cases, ℕ_discrete, add32, page_size, ceil_div, Delivers, Delivers-bind,
  Delivers-map, arith,
}
use quad_os.Kmalloc.{Paging, kernel_malloc, page_flag_write, map_pages, change_pages, new_top}

module _ (P : Paging) where
  open P use {
    State, Exhausted, IsReady, Allocated, Mapped, alloc_frame, map_page, alloc_frame_lem,
    map_page_lem,
  }

  -- The first `n` pages of the heap are mapped to be written, each to an allocated frame of its own.
  pub record HasPages (n : ℕ) (s : State) : Type 0 where
    pub frames : ℕ → ℕ
    pub mapped :
        (i : ℕ) → i < n → Mapped (kernel_malloc + i * page_size) (frames i) page_flag_write s
    pub allocated : (i : ℕ) → i < n → Allocated (frames i) s
    pub distinct : (i j : ℕ) → i < n → j < n → frames i ≡ frames j → i ≡ j

  -- The page `n` more, in a frame that was free.
  one_more :
      (n f : ℕ) (s s₁ s₂ : State)
      → HasPages n s
      → (¬ Allocated f s)
      → Allocated f s₁
      → ((g : ℕ) → Allocated g s → Allocated g s₁)
      → ((v g flags : ℕ) → Mapped v g flags s → Mapped v g flags s₁)
      → Mapped (kernel_malloc + n * page_size) f page_flag_write s₂
      → ((g : ℕ) → Allocated g s₁ → Allocated g s₂)
      → ((w g flags : ℕ)
          → w ≢ kernel_malloc + n * page_size
          → Mapped w g flags s₁
          → Mapped w g flags s₂)
      → HasPages (n + 1) s₂
  one_more n f s s₁ s₂ h fresh mine kept₁ maps₁ here kept₂ maps₂ = record {
    frames = frames;
    mapped = λ i lt. elim (ℕ_discrete i n) [
      | yes e ↦
          subst (λ (t : ℕ). Mapped (kernel_malloc + t * page_size) (frames t) page_flag_write s₂)
            (sym e)
            (subst (λ (t : ℕ). Mapped (kernel_malloc + n * page_size) t page_flag_write s₂)
              (sym (newest n refl)) here)
      | no ne ↦
          subst (λ (t : ℕ). Mapped (kernel_malloc + i * page_size) t page_flag_write s₂)
            (sym (older i ne))
            (maps₂ _ _ _ (λ e. ne (omega (arith, e))) (maps₁ _ _ _ (h.mapped i (omega arith))))
    ];
    allocated = λ i lt. elim (ℕ_discrete i n) [
      | yes e ↦ subst (λ (t : ℕ). Allocated t s₂) (sym (newest i e)) (kept₂ f mine)
      | no ne ↦
          subst (λ (t : ℕ). Allocated t s₂) (sym (older i ne))
            (kept₂ _ (kept₁ _ (h.allocated i (omega arith))))
    ];
    distinct = λ i j lt_i lt_j e. elim (ℕ_discrete i n) [
      | yes a ↦ elim (ℕ_discrete j n) [
        | yes b ↦ a ∙ sym b
        | no b ↦ absurd (
            fresh (
              subst (λ (t : ℕ). Allocated t s) (sym (older j b) ∙ sym e ∙ newest i a)
                (h.allocated j (omega arith))))
      ]
      | no a ↦ elim (ℕ_discrete j n) [
        | yes b ↦ absurd (
            fresh (
              subst (λ (t : ℕ). Allocated t s) (sym (older i a) ∙ e ∙ newest j b)
                (h.allocated i (omega arith))))
        | no b ↦ h.distinct i j (omega arith) (omega arith) (sym (older i a) ∙ e ∙ older j b)
      ]
    ];
  }
    where
      frames : ℕ → ℕ
      frames = λ i. if i == n then f else h.frames i

      newest : (i : ℕ) → i ≡ n → frames i ≡ f
      newest i e = ground (arith, e)

      older : (i : ℕ) → i ≢ n → frames i ≡ h.frames i
      older i ne = ground (arith, ne)

  map_pages-HasPages :
      (old_top i rounds : ℕ) (s : State)
      → (old_top + i + rounds) * page_size ≤ 0x3000_0000
      → IsReady s
      → HasPages (old_top + i) s
      → Delivers Exhausted
          (map_pages P old_top i rounds s)
          (λ s'. IsReady s' × HasPages (old_top + i + rounds) s')
  unfolding map_pages
  map_pages-HasPages old_top i zero s small r h =
      (r, subst (λ (n : ℕ). HasPages n s) (omega arith) h)
  map_pages-HasPages old_top i (suc rounds) s small r h =
      let n = old_top + i in
      let address : add32 (add32 kernel_malloc (old_top * page_size)) (i * page_size)
          ≡ kernel_malloc + n * page_size =
        omega arith in
      simp address (
        Delivers-bind _ (alloc_frame s) _ _ _ (alloc_frame_lem s r) (λ t a.
          Delivers-bind _ (map_page (kernel_malloc + n * page_size) t.0 page_flag_write t.1) _ _ _
            (map_page_lem (kernel_malloc + n * page_size) t.0 page_flag_write t.1 a.0)
            (λ s₂ m.
              let more = one_more n t.0 s t.1 s₂ h a.1 a.2 a.3 a.4 m.1 m.2 m.3 in
              Delivers-map _ (map_pages P old_top (i + 1) rounds s₂) _ _
                (map_pages-HasPages old_top (i + 1) rounds s₂ (omega arith) m.0
                  (subst (λ (k : ℕ). HasPages k s₂) (omega arith) more))
                (λ s' done. (done.0, subst (λ (k : ℕ). HasPages k s') (omega arith) done.1)))))

  -- The whole pages that hold a heap of this size.
  pub record IsBacked (start size : ℕ) (s : State) : Type 0 where
    pub ready : IsReady s
    pub at_malloc : start ≡ kernel_malloc
    pub pages : HasPages (ceil_div size page_size) s

  pub change_pages-IsBacked :
      (start old new : ℕ) (s : State)
      → old < new
      → start + new < 2 ^ 32
      → IsBacked start old s
      → Delivers Exhausted (change_pages P old new s) (IsBacked start new)
  unfolding change_pages
  change_pages-IsBacked start old new s more fits b =
      let small : new < 0x3000_0000 = omega (arith, b.at_malloc) in
      let top_old : ceil_div old page_size ≡ (old + 4095) / 4096 = omega arith in
      let top_new : ceil_div new page_size ≡ (new + 4095) / 4096 = omega arith in
      let top : new_top new ≡ ceil_div new page_size = ground (arith, small) in
      elim (Bool-cases (ltb (ceil_div old page_size) (new_top new))) [
        | inl grow ↦ rw grow (
            Delivers-map _
              (map_pages P (ceil_div old page_size) 0 (new_top new - ceil_div old page_size) s) _ _
              (map_pages-HasPages (ceil_div old page_size) 0 (new_top new - ceil_div old page_size)
                s (ground (arith, grow, top, small)) b.ready
                (subst (λ (n : ℕ). HasPages n s) (omega arith) b.pages))
              (λ s' done. record {
                ready = done.0;
                at_malloc = b.at_malloc;
                pages = subst (λ (n : ℕ). HasPages n s') (ground (arith, grow, top)) done.1;
              }))
        | inr same ↦ rw same (record {
          ready = b.ready;
          at_malloc = b.at_malloc;
          pages = subst (λ (n : ℕ). HasPages n s) (ground (arith, same, top, more, small)) b.pages;
        })
      ]
