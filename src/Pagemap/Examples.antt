-- ===== src/Pagemap/Examples.antt =====
-- A page that is present, read at once and in two parts.
use reasoned_soc.Prelude.{
  ◌==◌, if◌then◌else◌, ℕ, ◌+◌, ◌*◌, ◌%◌, ◌^◌, ◌≡◌, refl, some, List, [], ◌∷◌, arith,
}
use reasoned_soc.Errno.{ok}
use reasoned_soc.Pagemap.{
  parse_entry, word_of, write_bytes, read_bytes, pagemap_get_entry, virt_to_phys_user,
}
use reasoned_soc.Pagemap.Lookup.{DocumentedEntry, encode, misread, virt_to_phys_user-entry}

abbrev junk : List ℕ
junk = 0 ∷ 0 ∷ 0 ∷ 0 ∷ 0 ∷ 0 ∷ 0 ∷ 0 ∷ []

abbrev page_entry : DocumentedEntry
page_entry = record {
  pfn = 0x12345;
  soft_dirty = 1;
  exclusive = 0;
  rest = 0;
  file_page = 0;
  swapped = 0;
  present = 1;
}

-- The page is soft-dirty.
abbrev at_once : ℕ → List ℕ
at_once offset = 0x45 ∷ 0x23 ∷ 1 ∷ 0 ∷ 0 ∷ 0 ∷ 0x80 ∷ 0x80 ∷ []

virt_to_phys_user-entry_example :
    (pagemap_get_entry at_once 4096 junk 0x7008 ≡ some (ok (misread page_entry)))
    × (virt_to_phys_user (some at_once) 4096 junk 0x7008
        ≡ some (ok ((0x12345 % 2 ^ 54 * 4096 + 0x7008 % 4096) % 2 ^ 64)))
unfolding word_of encode
virt_to_phys_user-entry_example =
    virt_to_phys_user-entry at_once 4096 junk 0x7008 page_entry refl refl
      (record {
        pfn = omega arith;
        soft_dirty = omega arith;
        exclusive = omega arith;
        rest = omega arith;
        file_page = omega arith;
        swapped = omega arith;
        present = omega arith;
      })
      refl

-- The same entry in two reads of four bytes.
abbrev in_parts : ℕ → List ℕ
in_parts offset = if offset == 56 then 0x45 ∷ 0x23 ∷ 1 ∷ 0 ∷ [] else 0 ∷ 0 ∷ 0 ∷ 0x80 ∷ []

-- The second read overwrites the first: the number of the page frame is lost.
parts_lost :
    pagemap_get_entry in_parts 4096 junk 0x7008
    ≡ some
        (ok (record { pfn = 0x8000_0000; soft_dirty = 0; file_page = 0; swapped = 0; present = 0 }))
unfolding pagemap_get_entry read_bytes write_bytes word_of parse_entry
parts_lost = refl
