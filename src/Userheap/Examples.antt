-- ===== src/Userheap/Examples.antt =====
-- kernel/userheap.c: a heap of one byte more than two pages.
use quad_os.Base.{◌<◌, ◌≡◌, true, ok, panic, Delivers, ceil_div, page_size, arith}
use quad_os.Tasks.{Task, no_task}
use quad_os.Paging.Boot.{image, started, started-IsPaging}
use quad_os.Userheap.{set_user_heap_end}
use quad_os.Userheap.Growth.{Grown, set_user_heap_end-Grown}

abbrev worker : Task
worker = record no_task { id = 1001; state = 1; heap_start = 0x2000_0000; heap_end = 0x2000_0000 }

set_user_heap_end-Grown_example :
    (ceil_div worker.heap_end page_size < ceil_div 0x2000_2001 page_size
      → Delivers Unit (set_user_heap_end image 0x2000_2001 worker started) (λ t.
        (t.0 ≡ record worker { heap_end = 0x2000_2001 })
        × Grown image (ceil_div 0x2000_2001 page_size) true started t.1))
    × (ceil_div 0x2000_2001 page_size < ceil_div worker.heap_end page_size
        → set_user_heap_end image 0x2000_2001 worker started ≡ panic)
    × (ceil_div worker.heap_end page_size ≡ ceil_div 0x2000_2001 page_size
        → set_user_heap_end image 0x2000_2001 worker started
          ≡ ok (record worker { heap_end = 0x2000_2001 }, started))
set_user_heap_end-Grown_example =
    set_user_heap_end-Grown image 0x2000_2001 worker started started-IsPaging (omega arith)
      (omega arith) (omega arith) (omega arith)
