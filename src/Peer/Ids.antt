-- ===== src/Peer/Ids.antt =====
-- What newAzureusID and newShadowID make of a version.
use bget.Common.{ℕ, true, [], ◌∷◌, take, ◌⊎◌, inl, inr, ◌≡◌, ◌≢◌, sym, arith, ap, ◌∙◌, Bool-cases}
use bget.Common.Bytes.{equal, equal_sound, equal_refl}
use bget.Common.Digits.{IsDigit}
use bget.Common.Go.{ok, err, panic}
use bget.Bencode.Decoded.{atoi, digits_value}
use bget.Peer.Wire.{Bytes}
use bget.Peer.Id.{invalid_version, parts, with_random, shadow_chars, new_azureus_id, new_shadow_id}

-- What the expression for versions documents: where it matches, a digit and a dot come first.
abbrev pub FindsVersions : (Bytes → Bytes) → Type 0
FindsVersions find =
    (v : Bytes)
    → (find v ≡ []) ⊎ ((d : ℕ) × (rest : Bytes) × IsDigit d × (find v ≡ d ∷ b'.' ∷ rest))

atoi-digit : (d : ℕ) → IsDigit d → (atoi (d ∷ [])).1 ≡ true
unfolding atoi digits_value
atoi-digit d h = ground arith

parts-digit : (d : ℕ) (rest : Bytes) → IsDigit d → parts (d ∷ b'.' ∷ rest) ≡ (d ∷ []) ∷ parts rest
unfolding parts
parts-digit d rest h = ground arith

-- newShadowID returns no id for a version that is not empty: it refuses the version, or panics, since it
-- takes the success of Atoi for a failure.
pub new_shadow_id_lem :
    (find : Bytes → Bytes) (random client version : Bytes)
    → FindsVersions find
    → version ≢ []
    → (new_shadow_id find random client version ≡ err invalid_version)
      ⊎ (new_shadow_id find random client version ≡ panic)
unfolding new_shadow_id shadow_chars
new_shadow_id_lem find random client version finds filled =
    elim (Bool-cases (equal (find version) version)) [
      | inr h ↦ inl (rw (new_shadow_id, h))
      | inl h ↦ elim (finds version) [
        | inl e ↦ absurd (filled (sym (equal_sound (find version) version h) ∙ e))
        | inr (d, rest, digit, e) ↦ inr (
            rw (
              new_shadow_id,
              h,
              sym (equal_sound (find version) version h) ∙ e,
              parts-digit d rest digit,
              atoi-digit d digit,
            ))
      ]
    ]

parts-last : (d : ℕ) → IsDigit d → parts (d ∷ []) ≡ (d ∷ []) ∷ []
unfolding parts
parts-last d h = ground arith

three_parts :
    (d e f : ℕ)
    → IsDigit d
    → IsDigit e
    → IsDigit f
    → parts (d ∷ b'.' ∷ e ∷ b'.' ∷ f ∷ []) ≡ (d ∷ []) ∷ (e ∷ []) ∷ (f ∷ []) ∷ []
three_parts d e f hd he hf =
    rw (parts-digit d (e ∷ b'.' ∷ f ∷ []) hd, parts-digit e (f ∷ []) he, parts-last f hf)

-- For a client with at least two letters and a version of three digits that the expression matches,
-- newAzureusID returns a dash, the first two letters, the digits, a dash and thirteen of the random bytes.
pub new_azureus_id_lem :
    (find : Bytes → Bytes) (random client : Bytes) (a b d e f : ℕ)
    → IsDigit d
    → IsDigit e
    → IsDigit f
    → find (d ∷ b'.' ∷ e ∷ b'.' ∷ f ∷ []) ≡ d ∷ b'.' ∷ e ∷ b'.' ∷ f ∷ []
    → new_azureus_id find random (a ∷ b ∷ client) (d ∷ b'.' ∷ e ∷ b'.' ∷ f ∷ [])
      ≡ ok (b'-' ∷ a ∷ b ∷ d ∷ e ∷ f ∷ b'-' ∷ take 13 random)
unfolding new_azureus_id with_random
new_azureus_id_lem find random client a b d e f hd he hf found =
    let same : equal (find (d ∷ b'.' ∷ e ∷ b'.' ∷ f ∷ [])) (d ∷ b'.' ∷ e ∷ b'.' ∷ f ∷ []) ≡ true =
      ap (λ v. equal v (d ∷ b'.' ∷ e ∷ b'.' ∷ f ∷ [])) found
      ∙ equal_refl (d ∷ b'.' ∷ e ∷ b'.' ∷ f ∷ []) in
    rw (new_azureus_id, same, three_parts d e f hd he hf)
