-- ===== src/Examples/PeerIds.antt =====
-- Peer ids of the version 1.2.3.
use bget.Common.{inl, inr, if◌then◌else◌, [], ◌∷◌, replicate, Bool-cases, ◌≡◌, ◌≢◌, refl, arith}
use bget.Common.Bytes.{equal}
use bget.Common.Go.{ok}
use bget.Peer.Wire.{Bytes}
use bget.Peer.Id.{new_azureus_id}
use bget.Peer.Ids.{FindsVersions, new_azureus_id_lem}

abbrev one_two_three : Bytes
one_two_three = b'1' ∷ b'.' ∷ b'2' ∷ b'.' ∷ b'3' ∷ []

-- A stand-in for the expression, which matches this one version.
abbrev find_one : Bytes → Bytes
find_one v = if equal v one_two_three then one_two_three else []

find_one-FindsVersions : FindsVersions find_one
find_one-FindsVersions v = elim (Bool-cases (equal v one_two_three)) [
  | inl h ↦ inr (b'1', b'2' ∷ b'.' ∷ b'3' ∷ [], (omega arith, omega arith), rw h)
  | inr h ↦ inl (rw h)
]

filled : one_two_three ≢ []
filled e = cc

new_azureus_id_example :
    new_azureus_id find_one (replicate 20 7) (b'b' ∷ b'g' ∷ b'e' ∷ []) one_two_three
    ≡ ok (b'-' ∷ b'b' ∷ b'g' ∷ b'1' ∷ b'2' ∷ b'3' ∷ b'-' ∷ replicate 13 7)
unfolding equal
new_azureus_id_example =
    new_azureus_id_lem find_one (replicate 20 7) (b'e' ∷ []) b'b' b'g' b'1' b'2' b'3'
      (omega arith, omega arith) (omega arith, omega arith) (omega arith, omega arith) refl
