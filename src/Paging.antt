-- ===== src/Paging.antt =====
-- kernel/memory.c: page directories and page tables. Physical memory is modelled as the frames that
-- hold paging structures, and an access through the recursive mapping as the walk that the processor
-- makes from `cr3`; the buffer for address translation (TLB) is left out.
pub mod Pages
pub mod Directories
pub mod Valid
pub mod Map
pub mod Sync
pub mod Edit
pub mod Translate
pub mod Unmap
pub mod Vanish
pub mod Build
pub mod Create
pub mod Owned
pub mod Release
pub mod Destroy
pub mod Init
pub mod Boot
mod Examples
mod DestroyExamples
use quad_os.Base.{
  ℕ, zero, suc, ◌+◌, ◌-◌, ◌*◌, ◌/◌, ◌%◌, ◌≤◌, ◌<◌, ◌≡◌, bit_or, Bool, true, false, not, ◌&&◌, List,
  [], ◌∷◌, ◌==◌, ltb, leb, if◌then◌else◌, get_or, set, replicate, add32, sub32, u32_mod, page_size,
  Outcome, ok, panic, ◌>>=◌, ◌>>◌, kernel_assert,
}
use quad_os.PhysAlloc.{Pmm, pmm_init, pmm_alloc_pageframe, pmm_free_pageframe}

abbrev pub kernel_start : ℕ
kernel_start = 0xc000_0000

abbrev pub num_page_dirs : ℕ
num_page_dirs = 256

-- The entry `j` of the frame at the physical address `f`.
abbrev pub Frames : Type 0
Frames = ℕ → ℕ → ℕ

-- `entry & PAGE_FLAG_PRESENT`, `entry & PAGE_FLAG_OWNER`, `P_PHYS_ADDR(entry)`
abbrev pub present : ℕ → Bool
present entry = entry % 2 == 1

abbrev pub owner : ℕ → Bool
owner entry = entry / 512 % 2 == 1

abbrev pub p_phys_addr : ℕ → ℕ
p_phys_addr entry = entry / 4096 * 4096

-- `entry & ~PAGE_FLAG_OWNER`
abbrev pub without_owner : ℕ → ℕ
without_owner entry = if owner entry then entry - 512 else entry

-- PAGE_FLAG_PRESENT, PAGE_FLAG_WRITE, PAGE_FLAG_OWNER
abbrev pub flag_present : ℕ
flag_present = 1

abbrev pub flag_write : ℕ
flag_write = 2

abbrev pub flag_owner : ℕ
flag_owner = 512

unfoldable pub write : ℕ → ℕ → ℕ → Frames → Frames
write f i entry frames = λ g j. if g == f && j == i then entry else frames g j

-- Where the linker puts the arrays `initial_page_dir` and `page_dirs`, as virtual addresses: in the
-- part of the kernel's image that lies in the first 4 MiB of physical memory.
pub record Image : Type 0 where
  pub initial_page_dir : ℕ
  pub page_dirs : ℕ
  pub initial_above : kernel_start < initial_page_dir
  pub initial_aligned : initial_page_dir % 4096 ≡ 0
  pub initial_low : initial_page_dir + 4096 ≤ page_dirs
  pub dirs_aligned : page_dirs % 4096 ≡ 0
  pub dirs_low : page_dirs + 0x1000 * 256 ≤ kernel_start + 0x40_0000

-- `cr3` is a physical address.
pub record Paging : Type 0 where
  pub frames : Frames
  pub page_dir_used : List Bool
  pub cr3 : ℕ
  pub mem_num_vpages : ℕ
  pub interrupts_enabled : Bool
  pub pmm : Pmm

abbrev pub pd_index : ℕ → ℕ
pd_index virt_addr = virt_addr / 0x40_0000

abbrev pub pt_index : ℕ → ℕ
pt_index virt_addr = virt_addr / 4096 % 1024

-- The frame that REC_PAGETABLE(i) is mapped to: the entry 1023 of the directory, then the entry `i`
-- of what that leads to.
unfoldable pub rec_pagetable : Frames → ℕ → ℕ → ℕ
rec_pagetable frames cr3 i = p_phys_addr (frames (p_phys_addr (frames cr3 1023)) i)

-- The frame that REC_PAGEDIR is mapped to.
unfoldable pub rec_pagedir : Frames → ℕ → ℕ
unfolding rec_pagetable
rec_pagedir frames cr3 = rec_pagetable frames cr3 1023

-- The loops over an array of entries that write zeros, from the entry 0 to `left`.
unfoldable pub zero_entries : ℕ → ℕ → Frames → Frames
unfolding write
zero_entries f zero frames = frames
zero_entries f (suc left) frames = write f left 0 (zero_entries f left frames)

unfoldable pub mem_change_page_directory : ℕ → Paging → Outcome Paging
unfolding kernel_assert
mem_change_page_directory pd p = do
  kernel_assert (ltb kernel_start pd)
  ok (record p { cr3 = pd - kernel_start })

unfoldable pub mem_get_current_page_directory : Paging → ℕ
mem_get_current_page_directory p = add32 p.cr3 kernel_start

-- `page_dir[i] = initial_page_dir[i] & ~PAGE_FLAG_OWNER` for the `left` entries from `i` on
unfoldable pub copy_kernel : ℕ → ℕ → ℕ → ℕ → Frames → Frames
unfolding write
copy_kernel zero i initial dir frames = frames
copy_kernel (suc left) i initial dir frames =
    copy_kernel left (i + 1) initial dir (write dir i (without_owner (frames initial i)) frames)

-- The arrays are read and written where the kernel's image is mapped, at their virtual addresses
-- less KERNEL_START.
module _ (image : Image) where
  open image use {initial_page_dir, page_dirs}

  abbrev pub initial : ℕ
  initial = initial_page_dir - kernel_start

  abbrev pub page_dir : ℕ → ℕ
  page_dir i = page_dirs - kernel_start + i * 4096

  -- `memset(page_dirs, 0, 0x1000 * NUM_PAGE_DIRS)`, slot by slot
  unfoldable pub zero_dirs : ℕ → Frames → Frames
  zero_dirs zero frames = frames
  zero_dirs (suc left) frames = zero_entries (page_dir left) 1024 (zero_dirs left frames)

  unfoldable pub init_memory : ℕ → Paging → Paging
  unfolding pmm_init
  init_memory mem_high p = record p {
    mem_num_vpages = 0;
    frames = zero_dirs num_page_dirs (
        write initial 1023 (bit_or (bit_or initial flag_present) flag_write)
          (write initial 0 0 p.frames));
    pmm = pmm_init (0x10_0000 * 4) mem_high;
    page_dir_used = replicate num_page_dirs false;
  }

  -- The loop over the slots of `page_dirs`, of which `left` are left.
  unfoldable pub sync_from : ℕ → ℕ → List Bool → Frames → Frames
  unfolding copy_kernel
  sync_from zero i used frames = frames
  sync_from (suc left) i used frames =
      let frames' =
        if get_or used i false then copy_kernel 255 768 initial (page_dir i) frames else frames in
      sync_from left (i + 1) used frames'

  unfoldable pub sync_page_dirs : Paging → Outcome Paging
  unfolding kernel_assert
  sync_page_dirs p = do
    kernel_assert (not p.interrupts_enabled)
    ok (record p { frames = sync_from num_page_dirs 0 p.page_dir_used p.frames })

  -- The kernel's part of the address space is edited in `initial_page_dir`: the directory that was
  -- current is the result, or 0 for a user address.
  unfoldable pub enter_kernel_dir : ℕ → Paging → Outcome (ℕ × Paging)
  unfolding mem_change_page_directory mem_get_current_page_directory
  enter_kernel_dir virt_addr p =
      let prev = mem_get_current_page_directory p in
      let changed = do
        p' ← if prev == initial_page_dir then ok p else mem_change_page_directory initial_page_dir p
        ok (prev, p')
      in if leb kernel_start virt_addr then changed else ok (0, p)

  unfoldable pub leave_kernel_dir : ℕ → Paging → Outcome Paging
  unfolding mem_change_page_directory sync_page_dirs
  leave_kernel_dir prev p =
      let back = do
        p' ← sync_page_dirs p
        if prev == initial_page_dir then ok p' else mem_change_page_directory prev p'
      in if prev == 0 then ok p else back
