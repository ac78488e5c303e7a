-- ===== src/Pages.antt =====
-- Page arithmetic of android/adsprpc.c. Pages have 4096 bytes, as in the arm64 builds of the
-- driver; addresses are uint64_t, and sums and differences of them wrap at 2 ^ 64.
mod Cover
mod Examples
use reasoned_soc.Prelude.{ℕ, ◌+◌, ◌-◌, ◌*◌, ◌/◌, ◌%◌, ◌^◌, ltb, if◌then◌else◌}

abbrev pub page_size : ℕ
page_size = 4096

abbrev pub u64 : ℕ → ℕ
u64 n = n % 2 ^ 64

abbrev pub u32 : ℕ → ℕ
u32 n = n % 2 ^ 32

-- `buf & PAGE_MASK`
unfoldable pub buf_page_start : ℕ → ℕ
buf_page_start buf = buf / page_size * page_size

unfoldable pub buf_page_offset : ℕ → ℕ
buf_page_offset buf = buf % page_size

-- The differences are of uint64_t: the modulus is added before the subtraction.
unfoldable pub buf_num_pages : ℕ → ℕ → ℕ
unfolding buf_page_start
buf_num_pages buf len =
    let start = buf_page_start buf / page_size in
    let end = u64 (buf + len + 2 ^ 64 - 1) / page_size in u64 (end + 2 ^ 64 - start + 1)

-- The parameter is a uint32_t; PAGE_SIZE is an unsigned long, so the sum does not wrap.
unfoldable pub buf_page_size : ℕ → ℕ
buf_page_size size =
    let sz = (u32 size + (page_size - 1)) / page_size * page_size in
    if ltb page_size sz then sz else page_size
