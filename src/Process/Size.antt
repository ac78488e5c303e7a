-- ===== src/Process/Size.antt =====
-- The size of the memory of a process that `fastrpc_init_process` of android/adsprpc.c starts.
use reasoned_soc.Prelude.{ℕ, ◌+◌, ◌-◌, ◌*◌, ◌%◌, ◌^◌, ◌≤◌, ◌<◌, ◌≡◌, ◌⊎◌, arith}
use reasoned_soc.Process.{align, max_int, memlen_of}
use Prim.Native.Nat.{max}

-- Rounding up to a multiple of 1 MB.
align-fits :
    (x : ℕ)
    → x < 8 * 1024 * 1024
    → let n = align x (1024 * 1024) in
      (n % (1024 * 1024) ≡ 0) × (x ≤ n) × (n < x + 1024 * 1024) × (n ≤ 8 * 1024 * 1024)
align-fits x small =
    let whole : (x + (1024 * 1024 - 1)) % 2 ^ 32 ≡ x + (1024 * 1024 - 1) = omega arith in
    rw whole (omega arith, omega arith, omega arith, omega arith)

-- For a program of less than 2 MB, the limit of `fastrpc_device_ioctl`, nothing overflows: the memory
-- is a whole number of MB, at least 3 MB and at least four times the program, less than 1 MB more than
-- the larger of the two, and at most 8 MB.
pub memlen_of-fits :
    (filelen : ℕ)
    → filelen < 2 * 1024 * 1024
    → let n = memlen_of filelen in
      (n % (1024 * 1024) ≡ 0)
      × (3 * 1024 * 1024 ≤ n)
      × (4 * filelen ≤ n)
      × ((n < 4 * 1024 * 1024) ⊎ (n < 4 * filelen + 1024 * 1024))
      × (n ≤ 8 * 1024 * 1024)
unfolding memlen_of
memlen_of-fits filelen small =
    let x = max_int (1024 * 1024 * 3) (filelen * 4 % 2 ^ 32) in
    let whole : filelen * 4 % 2 ^ 32 ≡ filelen * 4 = omega arith in
    let x_eq : x ≡ max (1024 * 1024 * 3) (filelen * 4) = ground (arith, whole) in
    let low : 3 * 1024 * 1024 ≤ x = omega (arith, x_eq) in
    let over : 4 * filelen ≤ x = omega (arith, x_eq) in
    let one : (x ≡ 3 * 1024 * 1024) ⊎ (x ≡ 4 * filelen) = ground (arith, x_eq) in
    let (a, b, c, d) = align-fits x (omega (arith, x_eq)) in
    let n_eq : memlen_of filelen ≡ align x (1024 * 1024) = ground (arith, d) in
    rw n_eq (a, omega (arith, low, b), omega (arith, over, b), ground (arith, one, c), d)
