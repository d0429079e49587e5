-- ===== src/Malloc.antt =====
-- The first-fit allocator that kernel/kmalloc.c and userspace/api/src/malloc.c share ("copied from
-- kmalloc.c"): chunk headers in memory, each with the way to the next one. What differs is how the
-- heap grows; that is the parameter `change`, which is given the old and the new size in bytes.
pub mod Chunks
pub mod Layout
pub mod Fit
pub mod Free
pub mod Serve
pub mod Release
pub mod RoundTrip
mod Examples
use quad_os.Base.{
  ℕ, zero, suc, ◌+◌, ◌-◌, ◌%◌, ◌^◌, Bool, true, false, not, ◌&&◌, ◌||◌, ◌==◌, leb, ltb,
  if◌then◌else◌, add32, sub32, Outcome, ok, panic, spins, ◌>>=◌,
}

-- `ChunkHeader`, without its padding.
pub record Chunk : Type 0 where
  pub size : ℕ
  pub used : Bool

-- sizeof(ChunkHeader), with the padding that ALIGNMENT asks for
abbrev pub header_size : ℕ
header_size = 16

-- The headers in memory, by address. Headers stand at multiples of 16, so no two overlap.
abbrev pub Headers : Type 0
Headers = ℕ → Chunk

-- `size` is a bit-field of 31 bits.
abbrev pub write_size : Headers → ℕ → ℕ → Headers
write_size m p s a = if a == p then record { size = s % 2 ^ 31; used = (m a).used } else m a

abbrev pub write_used : Headers → ℕ → Bool → Headers
write_used m p u a = if a == p then record { size = (m a).size; used = u } else m a

pub record Heap (S : Type 0) : Type 0 where
  pub headers : Headers
  pub heap_start : ℕ
  pub heap_size : ℕ
  pub threshold : ℕ
  pub pages : S

-- The bytes asked for and a header, rounded up to the alignment, in `uint32_t` arithmetic.
unfoldable pub real_size : ℕ → ℕ
real_size bytes =
    let r = add32 bytes header_size in if r % 16 == 0 then r else add32 r (16 - r % 16)

-- The header writes for a chunk of `real` bytes at `pos`, in the order of the source.
unfoldable pub claim : ℕ → ℕ → Headers → Headers
claim real pos m =
    let size = (m pos).size in
    let next = add32 pos real in
    let m₁ = write_used m pos true in
    if size == 0
    then write_used (write_size (write_size m₁ pos real) next 0) next false
    else if leb 8 (size - real)
    then write_size (write_used (write_size m₁ next (size - real)) next false) pos real
    else m₁

abbrev pub fits : ℕ → Chunk → Bool
fits real c = not c.used && (leb real c.size || c.size == 0)

module _ {S : Type 0} where
  -- The chunk is taken: its headers are written, and the highest address handed out is kept.
  unfoldable pub place : ℕ → ℕ → Heap S → ℕ × Heap S
  place real pos h =
      let addr = add32 pos header_size in
      (
        addr,
        record h {
          headers = claim real pos h.headers;
          threshold = if ltb h.threshold addr then addr else h.threshold;
        },
      )

  -- The inner loop of `merge_free_chunks`, at the free chunk `pos`: true if it reached the end of
  -- the heap, where the whole function returns.
  unfoldable pub swallow : ℕ → ℕ → ℕ → Heap S → Outcome (Bool × Heap S)
  swallow zero pos next_pos h = spins
  swallow (suc fuel) pos next_pos h =
      let next = h.headers next_pos in
      let rest =
        swallow fuel pos (add32 next_pos next.size)
          (record h { headers = write_size h.headers pos ((h.headers pos).size + next.size) }) in
      if next.used
      then ok (false, h)
      else if next.size == 0
      then ok (true, record h { headers = write_size h.headers pos 0; threshold = pos })
      else rest

  -- The end of a round of the outer loop of `merge_free_chunks`: the next round, `go`, is made at
  -- the next chunk unless that is past the heap.
  unfoldable pub onward : (ℕ → Heap S → Outcome (Heap S)) → ℕ → Heap S → Outcome (Heap S)
  onward go pos h =
      let pos' = add32 pos (h.headers pos).size in
      let rest = go pos' h in if leb (add32 h.heap_start h.heap_size) pos' then ok h else rest

  -- The outer loop, at the chunk `pos`.
  unfoldable pub merge_from : ℕ → ℕ → Heap S → Outcome (Heap S)
  merge_from zero pos h = spins
  merge_from (suc fuel) pos h =
      let chunk = h.headers pos in
      let passed = onward (merge_from fuel) pos h in
      let swallowed = do
        (ended, h') ← swallow fuel pos (add32 pos chunk.size) h
        let rest = onward (merge_from fuel) pos h'
        if ended then ok h' else rest
      in if chunk.size == 0 then ok h else if chunk.used then passed else swallowed

  unfoldable pub merge_free_chunks : ℕ → Heap S → Outcome (Heap S)
  unfolding merge_from
  merge_free_chunks fuel h = merge_from fuel h.heap_start h

  -- `kfree` and `user_free`
  unfoldable pub free : ℕ → ℕ → Heap S → Outcome (Heap S)
  unfolding merge_free_chunks
  free fuel addr h =
      let pos = sub32 addr header_size in
      let h' = record h { headers = write_used h.headers pos false } in
      let merged = merge_free_chunks fuel h' in if (h.headers pos).used then merged else ok h

  unfoldable pub total_bytes : Heap S → ℕ
  total_bytes h = sub32 h.threshold h.heap_start

module _ {S : Type 0} (change : ℕ → ℕ → S → Outcome S) where
  unfoldable pub change_heap_size : ℕ → Heap S → Outcome (Heap S)
  change_heap_size new_size h = do
    s ← change h.heap_size new_size h.pages
    ok (record h { heap_size = new_size; pages = s })

  -- `download more ram`: room for the chunk and the stop chunk behind it
  unfoldable pub ensure_room : ℕ → ℕ → Heap S → Outcome (Heap S)
  unfolding change_heap_size
  ensure_room real pos h =
      let top = add32 (add32 pos real) header_size in
      if ltb (add32 h.heap_start h.heap_size) top
      then change_heap_size (sub32 top h.heap_start) h
      else ok h

  -- The loop of `kmalloc` and `user_malloc`, at the chunk `pos`.
  unfoldable pub fit_from : ℕ → ℕ → ℕ → Heap S → Outcome (ℕ × Heap S)
  fit_from zero real pos h = spins
  fit_from (suc fuel) real pos h = do
    h' ← ensure_room real pos h
    let chunk = h'.headers pos
    let rest = fit_from fuel real (add32 pos chunk.size) h'
    if fits real chunk then ok (place real pos h') else rest

  unfoldable pub malloc : ℕ → ℕ → Heap S → Outcome (ℕ × Heap S)
  unfolding fit_from
  malloc fuel bytes h = fit_from fuel (real_size bytes) h.heap_start h

  -- `kmalloc_init` and `malloc_init`: the first word of the heap is the stop chunk.
  unfoldable pub init : ℕ → ℕ → Headers → S → Outcome (Heap S)
  unfolding change_heap_size
  init start initial m s = do
    h ←
        change_heap_size initial
          (record { headers = m; heap_start = start; heap_size = 0; threshold = 0; pages = s })
    ok (record h { headers = write_used (write_size h.headers h.heap_start 0) h.heap_start false })
