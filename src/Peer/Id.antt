-- ===== src/Peer/Id.antt =====
-- peer/peerid.go: the ids of a peer that are made from a client and a version. The regular expression and
-- the random bytes are parameters; `Find` gives an empty slice where nothing matches.
use bget.Common.{
  ℕ, ◌+◌, ◌-◌, not, Bool, true, false, ltb, ◌==◌, if◌then◌else◌, List, [], ◌∷◌, ◌++◌, length, take,
}
use bget.Common.Bytes.{equal}
use bget.Common.Go.{Result, ok, err, panic, ◌>>=◌}
use bget.Common.Int.{ℤ, pos, negsuc}
use bget.Bencode.Decoded.{atoi}
use bget.Peer.Wire.{Bytes}

pub data PeerIdError : Type 0 where
  invalid_version version_max unknown_style : PeerIdError

pub data PeerStyle : Type 0 where
  azureus shadow other : PeerStyle

abbrev pub id_length : ℕ
id_length = 20

abbrev pub onto_first : ℕ → List Bytes → List Bytes
onto_first c [] = (c ∷ []) ∷ []
onto_first c (p ∷ ps) = (c ∷ p) ∷ ps

-- `strings.Split` at dots, and `strings.Join` with nothing between.
unfoldable pub parts : Bytes → List Bytes
parts [] = [] ∷ []
parts (c ∷ cs) = if c == b'.' then [] ∷ parts cs else onto_first c (parts cs)

abbrev pub join : List Bytes → Bytes
join [] = []
join (p ∷ ps) = p ++ join ps

-- The identifier and random bytes behind it; RandBytes panics at a negative length.
unfoldable pub with_random : Bytes → Bytes → Result PeerIdError Bytes
with_random random identifier =
    if ltb id_length (length identifier)
    then panic
    else ok (identifier ++ take (id_length - length identifier) random)

abbrev pub below : ℤ → ℕ → Bool
below (pos n) m = ltb n m
below (negsuc n) m = true

abbrev pub number_is : ℤ → ℕ → Bool
number_is (pos n) m = n == m
number_is (negsuc n) m = false

abbrev pub offset_by : ℕ → ℤ → ℕ → ℕ
offset_by c (pos n) m = c + n - m
offset_by c (negsuc n) m = c

-- The letter of a part of the version, for the number that Atoi gives.
unfoldable pub shadow_char : Bytes → ℤ → Result PeerIdError Bytes
shadow_char part n =
    if below n 10
    then ok part
    else if below n 36
    then ok (offset_by b'A' n 10 ∷ [])
    else if below n 62
    then ok (offset_by b'a' n 36 ∷ [])
    else if number_is n 62
    then ok (b'.' ∷ [])
    else if number_is n 63
    then ok (b'-' ∷ [])
    else err version_max

-- The loop of newShadowID.
unfoldable pub shadow_chars : Bytes → List Bytes → Result PeerIdError Bytes
unfolding shadow_char
shadow_chars identifier [] = ok identifier
shadow_chars identifier (part ∷ rest) =
    let later : Bytes → Result PeerIdError Bytes = λ x. shadow_chars x rest in
    if (atoi part).1
    then panic
    else do letter ← shadow_char part (atoi part).0; later (identifier ++ letter)

module _ (find : Bytes → Bytes) (random : Bytes) where
  unfoldable pub new_azureus_id : Bytes → Bytes → Result PeerIdError Bytes
  unfolding parts with_random
  new_azureus_id client version =
      if not (equal (find version) version)
      then err invalid_version
      else with_random random
          (b'-' ∷ (take 2 client ++ (join (take 3 (parts version)) ++ b'-' ∷ [])))

  unfoldable pub new_shadow_id : Bytes → Bytes → Result PeerIdError Bytes
  unfolding parts with_random shadow_chars
  new_shadow_id client version =
      if not (equal (find version) version) then err invalid_version else do
        identifier ← shadow_chars (take 1 client) (take 3 (parts version))
        with_random random identifier

  unfoldable pub new_id : PeerStyle → Bytes → Bytes → Result PeerIdError Bytes
  unfolding new_azureus_id new_shadow_id
  new_id azureus client version = new_azureus_id client version
  new_id shadow client version = new_shadow_id client version
  new_id other client version = err unknown_style

  unfoldable pub new_random_id : Bytes
  new_random_id = take id_length random
