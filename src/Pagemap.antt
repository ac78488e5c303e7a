-- ===== src/Pagemap.antt =====
-- The reader of page maps, android/virt_to_phys.c: `pagemap_get_entry` and `virt_to_phys_user`, which look
-- up the physical address of a virtual one.
mod Examples
pub mod Lookup
use reasoned_soc.Prelude.{
  leb, ◌==◌, if◌then◌else◌, length, ℕ, zero, suc, ◌+◌, ◌*◌, ◌/◌, ◌%◌, ◌^◌, Option, none, some, List,
  [], ◌∷◌,
}
use reasoned_soc.Errno.{Result, failed, err, ok}

-- `PagemapEntry`
pub record PagemapEntry : Type 0 where
  pub pfn : ℕ
  pub soft_dirty : ℕ
  pub file_page : ℕ
  pub swapped : ℕ
  pub present : ℕ

unfoldable pub parse_entry : ℕ → PagemapEntry
parse_entry word = record {
  pfn = word % 2 ^ 54;
  soft_dirty = word / 2 ^ 54 % 2;
  file_page = word / 2 ^ 61 % 2;
  swapped = word / 2 ^ 62 % 2;
  present = word / 2 ^ 63 % 2;
}

-- The bytes of `data`, as a number; the lowest comes first.
unfoldable pub word_of : List ℕ → ℕ
word_of [] = 0
word_of (b ∷ bs) = b + 256 * word_of bs

-- `pread` writes to the beginning of `data`.
unfoldable pub write_bytes : List ℕ → List ℕ → List ℕ
write_bytes [] ds = ds
write_bytes (b ∷ bs) [] = []
write_bytes (b ∷ bs) (d ∷ ds) = b ∷ write_bytes bs ds

-- `sizeof(data)`
abbrev pub entry_bytes : ℕ
entry_bytes = 8

-- The loop, on fuel: `pread` gives the bytes at an offset, at most 8, and none at an error or the end.
unfoldable pub read_bytes : ℕ → (ℕ → List ℕ) → ℕ → ℕ → List ℕ → Option (Result (List ℕ))
read_bytes zero pread offset nread bytes = none
read_bytes (suc fuel) pread offset nread bytes =
    let got = pread (offset + nread) in
    let rest = read_bytes fuel pread offset (nread + length got) (write_bytes got bytes) in
    if leb entry_bytes nread
    then some (ok bytes)
    else if length got == 0
    then some (err failed)
    else rest

-- `junk` is what `data` has at first. Each pass reads a byte at least, so that nine are enough.
unfoldable pub pagemap_get_entry : (ℕ → List ℕ) → ℕ → List ℕ → ℕ → Option (Result PagemapEntry)
pagemap_get_entry pread page junk vaddr =
    elim (read_bytes 9 pread (vaddr / page * entry_bytes) 0 junk) [
      | none ↦ none
      | some (err e) ↦ some (err e)
      | some (ok bytes) ↦ some (ok (parse_entry (word_of bytes)))
    ]

-- `file` is the page map of the process, if it can be opened.
unfoldable pub virt_to_phys_user : Option (ℕ → List ℕ) → ℕ → List ℕ → ℕ → Option (Result ℕ)
virt_to_phys_user file page junk vaddr = elim file [
  | none ↦ some (err failed)
  | some pread ↦ elim (pagemap_get_entry pread page junk vaddr) [
    | none ↦ none
    | some (err e) ↦ some (err failed)
    | some (ok entry) ↦ some (ok ((entry.pfn * page + vaddr % page) % 2 ^ 64))
  ]
]
