-- ===== src/Arch.antt =====
-- arch_dep.h, the portable branch: `_ffs` and `_fls` on the 32-bit pattern of an `int`, and the
-- atomic operations, each a single step of the model. The result -1 is the pattern 2 ^ 32 - 1.
pub mod Scan
use compact_fit.Base.{ℕ, ◌+◌, ◌-◌, ◌*◌, ◌/◌, ◌%◌, ◌^◌, bit_and, ◌==◌, ltb, if◌then◌else◌}

-- `x >> k` of an `int`: the sign bit is copied in from the left.
abbrev pub asr : ℕ → ℕ → ℕ
asr x k = if ltb x (2 ^ 31) then x / 2 ^ k else x / 2 ^ k + (2 ^ 32 - 2 ^ (32 - k))

-- `if (!(x & mask)) { x >>= k; r += k; }`
abbrev pub narrow : ℕ → ℕ → ℕ × ℕ → ℕ × ℕ
narrow mask k (x, r) = if bit_and x mask == 0 then (asr x k, r + k) else (x, r)

unfoldable pub ffs : ℕ → ℕ
ffs x =
    if x == 0
    then 2 ^ 32 - 1
    else (narrow 0x1 1 (narrow 0x3 2 (narrow 0xf 4 (narrow 0xff 8 (narrow 0xffff 16 (x, 0)))))).1

-- `if (!(x & mask)) { x <<= k; r -= k; }`
abbrev pub lift : ℕ → ℕ → ℕ × ℕ → ℕ × ℕ
lift mask k (x, r) = if bit_and x mask == 0 then (x * 2 ^ k % 2 ^ 32, r - k) else (x, r)

pub fls : ℕ → ℕ
fls x =
    if x == 0
    then 2 ^ 32 - 1
    else (lift 0x80000000 1
        (lift 0xc0000000 2 (lift 0xf0000000 4 (lift 0xff000000 8 (lift 0xffff0000 16 (x, 31)))))).1
