-- ===== src/Pages/Examples.antt =====
-- Runs of the page arithmetic, and its theorems at concrete buffers.
use reasoned_soc.Prelude.{◌+◌, ◌-◌, ◌*◌, ◌%◌, ◌^◌, ◌≤◌, ◌<◌, ◌≡◌, refl, ◌⊎◌, arith}
use reasoned_soc.Pages.{page_size, buf_page_start, buf_page_offset, buf_num_pages, buf_page_size}
use reasoned_soc.Pages.Cover.{
  start-add-offset, buf_num_pages_least, buf_page_size_least, buf_page_size-lt,
}

num_pages_straddle : buf_num_pages 4095 2 ≡ 2
unfolding buf_num_pages
num_pages_straddle = refl

page_size_cut : buf_page_size (2 ^ 32) ≡ 4096
unfolding buf_page_size
page_size_cut = refl

start-add-offset_example :
    (buf_page_start 5000 + buf_page_offset 5000 ≡ 5000) × (buf_page_offset 5000 < page_size)
start-add-offset_example = start-add-offset 5000

buf_num_pages_least_example :
    (4097 ≤ buf_page_start 4095 + buf_num_pages 4095 2 * page_size)
    × (buf_page_start 4095 + (buf_num_pages 4095 2 - 1) * page_size < 4097)
buf_num_pages_least_example = buf_num_pages_least 4095 2 (omega arith) (omega arith)

buf_page_size_least_example :
    (5000 ≤ buf_page_size 5000)
    × (buf_page_size 5000 % page_size ≡ 0)
    × (page_size ≤ buf_page_size 5000)
    × ((buf_page_size 5000 ≡ page_size) ⊎ (buf_page_size 5000 < 5000 + page_size))
buf_page_size_least_example = buf_page_size_least 5000 (omega arith)

buf_page_size-lt_example : buf_page_size (2 ^ 32 + 1) < 2 ^ 32 + 1
buf_page_size-lt_example = buf_page_size-lt (2 ^ 32 + 1) (omega arith)
