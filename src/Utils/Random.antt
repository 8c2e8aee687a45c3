-- ===== src/Utils/Random.antt =====
-- common/utils/byte.go: `RandBytes`. The random source is a parameter: the number that its call in each
-- round gives.
use bget.Common.{ℕ, zero, suc, ◌+◌, ◌/◌, ◌%◌, ◌^◌, ltb, if◌then◌else◌, set, replicate}
use bget.Peer.Wire.{Bytes}

-- The inner loop, with the number of its rounds that are left: `j` grows by 8 up to 64, and counts bytes
-- of the slice and bits of the number.
unfoldable pub spread : ℕ → ℕ → ℕ → ℕ → ℕ → Bytes → Bytes
spread zero n size i j b = b
spread (suc left) n size i j b =
    let later = spread left n size i (j + 8) (set b (i + j) (n / 2 ^ j % 2 ^ 8)) in
    if ltb (i + j) size then later else b

-- The outer loop, with the number of its rounds that are left.
unfoldable pub rand_rounds : (ℕ → ℕ) → ℕ → ℕ → ℕ → Bytes → Bytes
unfolding spread
rand_rounds random zero size i b = b
rand_rounds random (suc left) size i b =
    rand_rounds random left size (i + 1) (spread 8 (random i) size i 0 b)

unfoldable pub rand_bytes : (ℕ → ℕ) → ℕ → Bytes
unfolding rand_rounds
rand_bytes random size = rand_rounds random (size / 4) size 0 (replicate size 0)
