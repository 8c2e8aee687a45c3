-- ===== src/Common/Map.antt =====
-- Go maps as association lists. The order of an iteration, which Go leaves open, is the list's.
use Prim.Native.Nat.{ℕ}
use mathlib.Core.Path.{◌≡◌, refl}
use mathlib.Core.Bool.{Bool, true}
use mathlib.Core.Option.{Option, none, some}
use mathlib.Core.List.{List, [], ◌∷◌}
use native.Mathlib.Omega.{arith}
use bget.Common.Tests.{◌==◌ as nat_beq, if◌then◌else◌}
use bget.Common.Bytes.{equal, equal_refl, equal_sound}

pub record Eq (K : Type 0) : Type 0 where
  pub beq : K → K → Bool
  pub beq_refl : (k : K) → beq k k ≡ true
  pub beq_sound : (j k : K) → beq j k ≡ true → j ≡ k

pub nat_beq_refl : (k : ℕ) → nat_beq k k ≡ true
nat_beq_refl k = ground arith

pub nat_beq_sound : (j k : ℕ) → nat_beq j k ≡ true → j ≡ k
nat_beq_sound j k h = ground arith

instance abbrev pub nat_eq : Eq ℕ
nat_eq = record { beq = nat_beq; beq_refl = nat_beq_refl; beq_sound = nat_beq_sound }

instance abbrev pub string_eq : Eq (List ℕ)
string_eq = record { beq = equal; beq_refl = equal_refl; beq_sound = equal_sound }

module _ {K V : Type 0} ⦃e : Eq K⦄ where
  abbrev pub lookup : K → List (K × V) → Option V
  lookup k [] = none
  lookup k ((j, v) ∷ m) = if e.beq j k then some v else lookup k m

  abbrev pub insert : K → V → List (K × V) → List (K × V)
  insert k v [] = (k, v) ∷ []
  insert k v ((j, w) ∷ m) = if e.beq j k then (k, v) ∷ m else (j, w) ∷ insert k v m

  abbrev pub delete : K → List (K × V) → List (K × V)
  delete k [] = []
  delete k ((j, w) ∷ m) = if e.beq j k then delete k m else (j, w) ∷ delete k m

  pub lookup-insert_self : (k : K) (v : V) (m : List (K × V)) → lookup k (insert k v m) ≡ some v
  lookup-insert_self k v [] = ground (arith, e.beq_refl k)
  lookup-insert_self k v ((j, w) ∷ m) = ground (arith, e.beq_refl k, lookup-insert_self k v m)

  pub lookup-delete_self : (k : K) (m : List (K × V)) → lookup k (delete k m) ≡ none
  lookup-delete_self k [] = refl
  lookup-delete_self k ((j, w) ∷ m) = ground (arith, lookup-delete_self k m)
