-- ===== src/Paging/Examples.antt =====
-- kernel/memory.c: runs from the state after start, and one page of a user heap.
use quad_os.Base.{ℕ, ◌≤◌, ◌<◌, ◌≡◌, inl, refl, ap, ◌∙◌, true, false, get_or, panic, Delivers, arith}
use quad_os.PhysAlloc.{pmm_init, pmm_alloc_pageframe}
use quad_os.Paging.{Paging, present, p_phys_addr, write, init_memory}
use quad_os.Paging.Pages.{mem_map_page, mem_unmap_page}
use quad_os.Paging.Directories.{mem_alloc_page_dir}
use quad_os.Paging.Valid.{IsPaging, write-same, write-other}
use quad_os.Paging.Edit.{user-Edited}
use quad_os.Paging.Translate.{Reaches, PageMapped, map_page-translated}
use quad_os.Paging.Unmap.{NotMarked}
use quad_os.Paging.Vanish.{PageUnmapped, unmap_page-invalid}
use quad_os.Paging.Create.{DirCreated, alloc_page_dir-created}
use quad_os.Paging.Init.{init_memory-IsPaging}
use quad_os.Paging.Boot.{image, boot, boot_frames, mem_high, started, started-IsPaging}

init_memory-IsPaging_example : IsPaging image (init_memory image mem_high boot)
unfolding boot boot_frames pmm_init
init_memory-IsPaging_example =
    init_memory-IsPaging image boot mem_high refl refl (λ j index pos. ground arith) (omega arith)

map_page-translated_example :
    Delivers
      (pmm_alloc_pageframe started.pmm ≡ panic)
      (mem_map_page image 0x2000_0000 0x80_0000 6 started)
      (PageMapped image started 0x2000_0000 0x80_0000)
map_page-translated_example =
    map_page-translated image started started-IsPaging 0x2000_0000 0x80_0000 6
      (omega arith, inl (omega arith)) (omega arith)

alloc_page_dir-created_example :
    Delivers
      ((k : ℕ) → 0 ≤ k → k < 256 → get_or started.page_dir_used k false ≡ true)
      (mem_alloc_page_dir image started)
      (λ t. DirCreated image started t.0 t.1)
alloc_page_dir-created_example = alloc_page_dir-created image started started-IsPaging

-- With the page mapped: its table is the frame at 0x400000.
abbrev one_page : Paging
one_page = record started {
  frames = write 0x10_0000 128 0x40_0207 (write 0x40_0000 0 0x80_0007 started.frames);
}

one_page-IsPaging : IsPaging image one_page
unfolding init_memory boot
one_page-IsPaging =
    let v = started-IsPaging in
    user-Edited image started v 128 one_page (omega arith)
      (record {
        sound = λ e. omega (
          arith,
          write-same 0x10_0000 128 0x40_0207 (write 0x40_0000 0 0x80_0007 started.frames),
        );
        low = λ g i lo other.
            write-other 0x10_0000 128 0x40_0207 _ g i other
            ∙ write-other 0x40_0000 0 0x80_0007 started.frames g i (inl (omega arith));
        same_cr3 = refl;
        same_used = refl;
        same_flag = refl;
        allocator = v.allocator;
        first_frame = v.first_frame;
      })
      (omega arith)

one_page-Reaches : Reaches 0x2000_0000 0x80_0007 one_page
unfolding init_memory boot
one_page-Reaches =
    let here = write-same 0x10_0000 128 0x40_0207 (write 0x40_0000 0 0x80_0007 started.frames) in
    record {
      table = 0x40_0000;
      is_present = ap present here;
      leads = ap p_phys_addr here;
      entry =
          write-other 0x10_0000 128 0x40_0207 _ 0x40_0000 0 (inl (omega arith))
          ∙ write-same 0x40_0000 0 0x80_0007 started.frames;
    }

unmap_page-invalid_example :
    Delivers
      (NotMarked one_page one_page-Reaches.table 0x80_0007)
      (mem_unmap_page image 0x2000_0000 one_page)
      (PageUnmapped image one_page 0x2000_0000 0x80_0007)
unmap_page-invalid_example =
    unmap_page-invalid image one_page one_page-IsPaging 0x2000_0000 0x80_0007
      (omega arith, inl (omega arith)) one_page-Reaches refl
