-- ===== src/Paging/Boot.antt =====
-- kernel/boot.asm and kernel/memory.c: an image of the kernel, and the state that the boot code and
-- `init_memory` leave.
use quad_os.Base.{ℕ, ◌+◌, ◌-◌, ◌*◌, refl, false, ◌==◌, ◌&&◌, leb, ltb, [], if◌then◌else◌, arith}
use quad_os.PhysAlloc.{pmm_init}
use quad_os.Paging.{Image, Paging, Frames, init_memory}
use quad_os.Paging.Valid.{IsPaging}
use quad_os.Paging.Init.{init_memory-IsPaging}

abbrev pub image : Image
image = record {
  initial_page_dir = 0xc010_0000;
  page_dirs = 0xc020_0000;
  initial_above = omega arith;
  initial_aligned = refl;
  initial_low = omega arith;
  dirs_aligned = refl;
  dirs_low = omega arith;
}

-- kernel/boot.asm: the first 4 MiB, and the 16 MiB of the kernel.
unfoldable pub boot_frames : Frames
boot_frames = λ g j.
    if j == 0 then 0x83 else if leb 768 j && ltb j 772 then (j - 768) * 0x40_0000 + 0x83 else 0

unfoldable pub boot : Paging
boot = record {
  frames = boot_frames;
  page_dir_used = [];
  cr3 = 0x10_0000;
  mem_num_vpages = 0;
  interrupts_enabled = false;
  pmm = record { bitmap = []; page_frame_min = 0; page_frame_max = 0; total_allocated = 0 };
}

abbrev pub mem_high : ℕ
mem_high = 0x800_0000

abbrev pub started : Paging
started = init_memory image mem_high boot

pub started-IsPaging : IsPaging image started
unfolding boot boot_frames pmm_init
started-IsPaging =
    init_memory-IsPaging image boot mem_high refl refl (λ j index pos. ground arith) (omega arith)
