-- ===== src/Pages/Cover.antt =====
-- What the page counts of android/adsprpc.c promise to the code that maps a buffer.
use reasoned_soc.Prelude.{ℕ, ◌+◌, ◌-◌, ◌*◌, ◌%◌, ◌^◌, ◌≤◌, ◌<◌, ◌≡◌, ◌⊎◌, arith}
use reasoned_soc.Pages.{page_size, buf_page_start, buf_page_offset, buf_num_pages, buf_page_size}

-- An address is its page start plus its offset, and the offset is less than a page.
pub start-add-offset :
    (buf : ℕ) → (buf_page_start buf + buf_page_offset buf ≡ buf) × (buf_page_offset buf < page_size)
unfolding buf_page_start buf_page_offset
start-add-offset buf = omega arith

-- For a buffer of at least one byte that does not wrap round the address space, `buf_num_pages`
-- pages from the start of its page hold its last byte, and one page less does not.
pub buf_num_pages_least :
    (buf len : ℕ)
    → 0 < len
    → buf + len ≤ 2 ^ 64
    → (buf + len ≤ buf_page_start buf + buf_num_pages buf len * page_size)
      × (buf_page_start buf + (buf_num_pages buf len - 1) * page_size < buf + len)
unfolding buf_page_start buf_num_pages
buf_num_pages_least buf len pos fits = omega arith

-- For a size below 2 ^ 32 the result is a positive number of whole pages that holds the size, and
-- it is one page or less than a page larger than the size.
pub buf_page_size_least :
    (size : ℕ)
    → size < 2 ^ 32
    → (size ≤ buf_page_size size)
      × (buf_page_size size % page_size ≡ 0)
      × (page_size ≤ buf_page_size size)
      × ((buf_page_size size ≡ page_size) ⊎ (buf_page_size size < size + page_size))
unfolding buf_page_size
buf_page_size_least size h = ground arith

-- A size of 4 GiB or more is cut to 32 bits on the way in: the result is smaller than the size.
pub buf_page_size-lt : (size : ℕ) → 2 ^ 32 ≤ size → buf_page_size size < size
unfolding buf_page_size
buf_page_size-lt size h = ground arith
