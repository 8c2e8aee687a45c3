-- ===== src/Bencode/Reads.antt =====
-- What stands at an offset of an input.
use mathlib.Core.Path.{subst}
use bget.Common.{
  ℕ, zero, suc, ◌+◌, ◌<◌, ◌≤◌, List, [], ◌∷◌, ◌++◌, some, length, get_elem?, get_or, take, drop,
  ◌≡◌, refl, arith, ap, ◌∙◌,
}

abbrev pub Reads : List ℕ → ℕ → List ℕ → Type 0
Reads input i [] = Unit
Reads input i (c ∷ w) = (get_elem? input i ≡ some c) × Reads input (suc i) w

pub lt_of_get : (input : List ℕ) (i c : ℕ) → get_elem? input i ≡ some c → i < length input
lt_of_get [] i c h = cc
lt_of_get (x ∷ input) zero c h = omega arith
lt_of_get (x ∷ input) (suc i) c h = omega (arith, lt_of_get input i c h)

pub get_or_of_get : (input : List ℕ) (i c : ℕ) → get_elem? input i ≡ some c → get_or input i 0 ≡ c
get_or_of_get [] i c h = cc
get_or_of_get (x ∷ input) zero c h = cc
get_or_of_get (x ∷ input) (suc i) c h = get_or_of_get input i c h

pub Reads-left : (input : List ℕ) (i : ℕ) (u w : List ℕ) → Reads input i (u ++ w) → Reads input i u
Reads-left input i [] w h = tt
Reads-left input i (c ∷ u) w h = (h.0, Reads-left input (suc i) u w h.1)

pub Reads-right :
    (input : List ℕ) (i : ℕ) (u w : List ℕ) → Reads input i (u ++ w) → Reads input (i + length u) w
Reads-right input i [] w h = subst (λ k. Reads input k w) (omega arith) h
Reads-right input i (c ∷ u) w h =
    subst (λ k. Reads input k w) (omega arith) (Reads-right input (suc i) u w h.1)

pub Reads-le :
    (input : List ℕ) (i : ℕ) (w : List ℕ)
    → i ≤ length input
    → Reads input i w
    → i + length w ≤ length input
Reads-le input i [] le h = omega arith
Reads-le input i (c ∷ w) le h =
    let lt = lt_of_get input i c h.0 in omega (arith, Reads-le input (suc i) w (omega arith) h.1)

drop_of_get :
    (input : List ℕ) (i c : ℕ) → get_elem? input i ≡ some c → drop i input ≡ c ∷ drop (suc i) input
drop_of_get [] i c h = cc
drop_of_get (x ∷ input) zero c h = cc
drop_of_get (x ∷ input) (suc i) c h = drop_of_get input i c h

pub take-drop-Reads :
    (input : List ℕ) (i : ℕ) (w : List ℕ) → Reads input i w → take (length w) (drop i input) ≡ w
take-drop-Reads input i [] h = refl
take-drop-Reads input i (c ∷ w) h =
    ap (take (suc (length w))) (drop_of_get input i c h.0)
    ∙ ap (λ t. c ∷ t) (take-drop-Reads input (suc i) w h.1)

Reads-from :
    (x : ℕ) (input : List ℕ) (i : ℕ) (w : List ℕ) → Reads input i w → Reads (x ∷ input) (suc i) w
Reads-from x input i [] h = tt
Reads-from x input i (c ∷ w) h = (h.0, Reads-from x input (suc i) w h.1)

pub Reads-self : (w : List ℕ) → Reads w 0 w
Reads-self [] = tt
Reads-self (x ∷ w) = (refl, Reads-from x w 0 w (Reads-self w))
