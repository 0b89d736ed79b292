-- ===== src/Malloc/Heap/Request.antt =====
-- The size of a segment for a request of the user.
use splab.Prelude.{ℕ, ◌+◌, ◌*◌, ◌^◌, ◌≡◌, ◌≤◌, ◌<◌, arith}
use splab.Malloc.Heap.Entry.{units_for}

-- For a request that is no larger than 2 ^ 32 - 16 the segment has room for the header and the
-- request, and less than 8 bytes are lost.
pub units_for_fits :
    (size : ℕ)
    → size + 16 ≤ 2 ^ 32
    → (size + 8 ≤ units_for size * 8) × (units_for size * 8 < size + 16)
unfolding units_for
units_for_fits size h = (omega arith, omega arith)

-- A request of more than 2 ^ 32 - 8 bytes wraps around: the segment has room for its header only.
pub units_for_wraps : (size : ℕ) → 2 ^ 32 < size + 8 → size < 2 ^ 32 → units_for size ≡ 1
unfolding units_for
units_for_wraps size h k = omega arith
