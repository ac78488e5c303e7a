-- ===== src/Pagemap/Lookup.antt =====
-- What a look-up in a page map gives, in android/virt_to_phys.c.
use reasoned_soc.Prelude.{
  leb, ◌==◌, Bool-cases, Option-cases, length, ℕ, zero, suc, ◌+◌, ◌-◌, ◌*◌, ◌/◌, ◌%◌, ◌^◌, ◌<◌, ◌≡◌,
  refl, sym, ap, ◌∙◌, ◌≢◌, inl, inr, Option, none, some, List, [], ◌∷◌, arith,
}
use reasoned_soc.Pagemap.{
  PagemapEntry, parse_entry, word_of, write_bytes, entry_bytes, read_bytes, pagemap_get_entry,
  virt_to_phys_user,
}
use reasoned_soc.Errno.{Result-cases, ok}

-- An entry as the kernel's documentation of pagemap has it: the number of the page frame in bits 0 to
-- 54, the bits 55, 56, 61, 62 and 63, and `rest` for bits 57 to 60.
pub record DocumentedEntry : Type 0 where
  pub pfn : ℕ
  pub soft_dirty : ℕ
  pub exclusive : ℕ
  pub rest : ℕ
  pub file_page : ℕ
  pub swapped : ℕ
  pub present : ℕ

unfoldable pub encode : DocumentedEntry → ℕ
encode e =
    e.pfn
    + e.soft_dirty * 2 ^ 55
    + e.exclusive * 2 ^ 56
    + e.rest * 2 ^ 57
    + e.file_page * 2 ^ 61
    + e.swapped * 2 ^ 62
    + e.present * 2 ^ 63

pub record IsEntry (e : DocumentedEntry) : Type 0 where
  pub pfn : e.pfn < 2 ^ 55
  pub soft_dirty : e.soft_dirty < 2
  pub exclusive : e.exclusive < 2
  pub rest : e.rest < 2 ^ 4
  pub file_page : e.file_page < 2
  pub swapped : e.swapped < 2
  pub present : e.present < 2

-- What the code makes of it: the highest bit of the number of the page frame is taken for the flag.
abbrev pub misread : DocumentedEntry → PagemapEntry
misread e = record {
  pfn = e.pfn % 2 ^ 54;
  soft_dirty = e.pfn / 2 ^ 54;
  file_page = e.file_page;
  swapped = e.swapped;
  present = e.present;
}

same_entry :
    (a b : PagemapEntry)
    → a.pfn ≡ b.pfn
    → a.soft_dirty ≡ b.soft_dirty
    → a.file_page ≡ b.file_page
    → a.swapped ≡ b.swapped
    → a.present ≡ b.present
    → a ≡ b
same_entry a b p d f s t = rw (p, d, f, s, t) refl

parse_entry-encode : (e : DocumentedEntry) → IsEntry e → parse_entry (encode e) ≡ misread e
unfolding parse_entry encode
parse_entry-encode e v =
    same_entry (parse_entry (encode e)) (misread e)
      (omega (arith, v.pfn, v.soft_dirty, v.exclusive, v.rest, v.file_page, v.swapped, v.present))
      (omega (arith, v.pfn, v.soft_dirty, v.exclusive, v.rest, v.file_page, v.swapped, v.present))
      (omega (arith, v.pfn, v.soft_dirty, v.exclusive, v.rest, v.file_page, v.swapped, v.present))
      (omega (arith, v.pfn, v.soft_dirty, v.exclusive, v.rest, v.file_page, v.swapped, v.present))
      (omega (arith, v.pfn, v.soft_dirty, v.exclusive, v.rest, v.file_page, v.swapped, v.present))

write_all : (bs ds : List ℕ) → length bs ≡ length ds → write_bytes bs ds ≡ bs
unfolding write_bytes
write_all [] [] h = refl
write_all [] (d ∷ ds) h = ground (arith, h)
write_all (b ∷ bs) [] h = ground (arith, h)
write_all (b ∷ bs) (d ∷ ds) h = ap (λ xs. b ∷ xs) (write_all bs ds (ground (arith, h)))

-- The loop ends, whatever the lengths of the reads, with more fuel than there are bytes to read.
read_bytes_ends :
    (fuel : ℕ) (pread : ℕ → List ℕ) (offset nread : ℕ) (bytes : List ℕ)
    → entry_bytes - nread < fuel
    → read_bytes fuel pread offset nread bytes ≢ none
unfolding read_bytes
read_bytes_ends zero pread offset nread bytes lt h = omega (arith, lt)
read_bytes_ends (suc fuel) pread offset nread bytes lt h =
    let got = pread (offset + nread) in
    elim (Bool-cases (leb entry_bytes nread)) [
      | inl e ↦ ground (arith, (rw (read_bytes, e) at h))
      | inr e ↦ elim (Bool-cases (length got == 0)) [
        | inl z ↦ ground (arith, (rw (read_bytes, e, z) at h))
        | inr z ↦
            let less : entry_bytes - (nread + length got) < fuel = ground (arith, e, z, lt) in
            read_bytes_ends fuel pread offset (nread + length got) (write_bytes got bytes) less
              (rw (read_bytes, e, z) at h)
      ]
    ]

read_bytes-once :
    (pread : ℕ → List ℕ) (offset : ℕ) (junk : List ℕ)
    → length (pread offset) ≡ entry_bytes
    → length junk ≡ entry_bytes
    → read_bytes 9 pread offset 0 junk ≡ some (ok (pread offset))
unfolding read_bytes
read_bytes-once pread offset junk all size =
    let at : offset + 0 ≡ offset = omega arith in
    let got : write_bytes (pread offset) junk ≡ pread offset =
      write_all (pread offset) junk (all ∙ sym size) in
    simp (read_bytes, at, all, got) refl

-- Let the page map be opened and give the eight bytes of an entry in one read, as the documentation of
-- pagemap has them: the number of the page frame in 55 bits, then the flag for a soft-dirty page. The
-- flags for a file's page, a swapped and a present one are read as documented. Of the number the
-- code takes 54 bits, and its highest bit for the flag, whose own bit is not read. The physical
-- address is that of the page frame plus the offset in the page, in 64 bits, if the number is below
-- 2 ^ 54; otherwise it is that of the frame whose number lacks the highest bit.
pub virt_to_phys_user-entry :
    (pread : ℕ → List ℕ) (page : ℕ) (junk : List ℕ) (vaddr : ℕ) (e : DocumentedEntry)
    → length (pread (vaddr / page * entry_bytes)) ≡ entry_bytes
    → length junk ≡ entry_bytes
    → IsEntry e
    → word_of (pread (vaddr / page * entry_bytes)) ≡ encode e
    → (pagemap_get_entry pread page junk vaddr ≡ some (ok (misread e)))
      × (virt_to_phys_user (some pread) page junk vaddr
          ≡ some (ok ((e.pfn % 2 ^ 54 * page + vaddr % page) % 2 ^ 64)))
unfolding pagemap_get_entry virt_to_phys_user
virt_to_phys_user-entry pread page junk vaddr e all size fits is =
    let run = read_bytes-once pread (vaddr / page * entry_bytes) junk all size in
    let entry : parse_entry (word_of (pread (vaddr / page * entry_bytes))) ≡ misread e =
      ap parse_entry is ∙ parse_entry-encode e fits in
    let got : pagemap_get_entry pread page junk vaddr ≡ some (ok (misread e)) =
      simp (pagemap_get_entry, run) (ap (λ x. some (ok x)) entry) in
    (got, simp (virt_to_phys_user, got) refl)

-- However short the reads are, each that is not the last gives a byte, so that the look-up returns.
pub virt_to_phys_user_ends :
    (file : Option (ℕ → List ℕ)) (page : ℕ) (junk : List ℕ) (vaddr : ℕ)
    → virt_to_phys_user file page junk vaddr ≢ none
unfolding pagemap_get_entry virt_to_phys_user
virt_to_phys_user_ends none page junk vaddr h = ground (arith, h)
virt_to_phys_user_ends (some pread) page junk vaddr h =
    let at = vaddr / page * entry_bytes in
    elim (Option-cases (read_bytes 9 pread at 0 junk)) [
      | inl e ↦ read_bytes_ends 9 pread at 0 junk (omega arith) e
      | inr (r, e) ↦ elim (Result-cases r) [
        | inl (error, f) ↦ ground (arith, (rw (virt_to_phys_user, pagemap_get_entry, e, f) at h))
        | inr (bytes, f) ↦ ground (arith, (rw (virt_to_phys_user, pagemap_get_entry, e, f) at h))
      ]
    ]
