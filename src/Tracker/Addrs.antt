-- ===== src/Tracker/Addrs.antt =====
-- The list that `convAddrs` returns.
use bget.Common.{
  ℕ, zero, suc, ◌*◌, ◌/◌, true, ltb, List, [], ◌∷◌, ◌++◌, some, length, length-drop, drop, ◌≡◌,
  arith, ap, ◌∙◌,
}
use bget.Peer.Wire.{Bytes}
use bget.Tracker.{address, conv_each, conv_addrs}

-- The texts of that many addresses.
abbrev pub texts : ℕ → Bytes → List Bytes
texts zero bytes = []
texts (suc n) bytes = address bytes ∷ texts n (drop 6 bytes)

conv_each-texts :
    (n : ℕ) (bytes : Bytes)
    → length bytes ≡ 6 * suc n
    → conv_each (suc n) bytes ≡ texts n bytes ++ [] ∷ []
unfolding conv_each
conv_each-texts zero bytes h = ground arith
conv_each-texts (suc n) bytes h =
    let long : ltb 6 (length bytes) ≡ true = ground arith in
    rw (long, conv_each-texts n (drop 6 bytes) (omega (arith, length-drop 6 bytes)))

-- For the bytes of `n + 1` addresses convAddrs returns the texts of the first `n`, and an empty string in
-- place of the last.
pub conv_addrs_lem :
    (n : ℕ) (bytes : Bytes)
    → length bytes ≡ 6 * suc n
    → conv_addrs bytes ≡ some (texts n bytes ++ [] ∷ [])
unfolding conv_addrs
conv_addrs_lem n bytes h =
    let same : length bytes / 6 ≡ suc n = omega arith in
    ground (arith, h, same) ∙ ap some (conv_each-texts n bytes h)
