-- ===== src/Kmalloc/Laws.antt =====
-- kernel/kmalloc.c: the allocator's promises, for the kernel heap.
use quad_os.Base.{ℕ, ◌≡◌, ◌⊎◌, refl, false, inl, inr, panic, arith}
use quad_os.Malloc
use quad_os.Kmalloc.{Paging, Kernel, kmalloc}

module _ (P : Paging) where
  open P use {State, Exhausted, IsReady}

  -- Before initialisation, or for 0 bytes, `kmalloc` stops the machine.
  pub kmalloc_panics :
      (fuel bytes : ℕ) (k : Kernel State)
      → (k.kmalloc_initialized ≡ false) ⊎ (bytes ≡ 0)
      → kmalloc P fuel bytes k ≡ panic
  unfolding kmalloc
  kmalloc_panics fuel bytes k (inl early) = rw early refl
  kmalloc_panics fuel bytes k (inr zero_bytes) = ground arith
