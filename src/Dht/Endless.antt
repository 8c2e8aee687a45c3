-- ===== src/Dht/Endless.antt =====
-- The loop of the table's addNode at a bucket whose nodes all go into the new half.
use bget.Common.{
  ℕ, zero, suc, ◌+◌, ◌-◌, ◌/◌, ◌<◌, ◌≤◌, Bool, true, false, ◌&&◌, leb, if◌then◌else◌, List, [], ◌∷◌,
  ◌++◌, Option, none, some, length, set, get_elem?, ◌≡◌, refl, sym, arith, ap, ◌∙◌,
}
use bget.Common.Go.{ok}
use bget.Common.Int.{pos, ltb_ℤ}
use bget.Common.Map.{nat_eq}
use bget.Dht.{Node, Bucket, Table, bucket_num, full, room, split, find_bucket, add_rounds}
use bget.Dht.Crowd.{Holds, Holds-split}

abbrev further : Option ℕ → Option ℕ
further none = none
further (some i) = some (i + 1)

missed_both :
    (test : Bool) (r : Option ℕ)
    → (if test then some 0 else further r) ≡ none
    → (test ≡ false) × (r ≡ none)
missed_both true r e = cc
missed_both false none e = (refl, refl)
missed_both false (some i) e = cc

find_bucket-cons :
    (a : Bucket) (bs : List Bucket) (d : ℕ)
    → find_bucket (a ∷ bs) d
      ≡ (if leb a.begin d && leb d a.end then some 0 else further (find_bucket bs d))
unfolding find_bucket
find_bucket-cons a bs d =
    ap (λ r. if leb a.begin d && leb d a.end then some 0 else r) (same (find_bucket bs d))
  where
    same : (r : Option ℕ) → (elim r [ none ↦ none | some i ↦ some (i + 1) ]) ≡ further r
    same none = refl
    same (some i) = refl

missed_rest :
    (a : Bucket) (bs : List Bucket) (d : ℕ)
    → find_bucket (a ∷ bs) d ≡ none
    → ((leb a.begin d && leb d a.end) ≡ false) × (find_bucket bs d ≡ none)
missed_rest a bs d e =
    missed_both (leb a.begin d && leb d a.end) (find_bucket bs d)
      (sym (find_bucket-cons a bs d) ∙ e)

find_bucket-behind :
    (before : List Bucket) (b : Bucket) (d : ℕ)
    → find_bucket before d ≡ none
    → b.begin ≤ d
    → d ≤ b.end
    → find_bucket (before ++ b ∷ []) d ≡ some (length before)
unfolding find_bucket
find_bucket-behind [] b d e low high = ground arith
find_bucket-behind (a ∷ before) b d e low high =
    let (outside, rest) = missed_rest a before d e in
    let one_more : length before + 1 ≡ suc (length before) = omega arith in
    find_bucket-cons a (before ++ b ∷ []) d
    ∙ rw (outside, find_bucket-behind before b d rest low high) (ap some one_more)

find_bucket-none :
    (before : List Bucket) (b : Bucket) (d : ℕ)
    → find_bucket before d ≡ none
    → b.end < d
    → find_bucket (before ++ b ∷ []) d ≡ none
unfolding find_bucket
find_bucket-none [] b d e high = ground arith
find_bucket-none (a ∷ before) b d e high =
    let (outside, rest) = missed_rest a before d e in
    find_bucket-cons a (before ++ b ∷ []) d ∙ rw (outside, find_bucket-none before b d rest high)

set-behind :
    (before : List Bucket) (b c : Bucket)
    → set (before ++ b ∷ []) (length before) c ≡ before ++ c ∷ []
set-behind [] b c = refl
set-behind (a ∷ before) b c = ap (λ t. a ∷ t) (set-behind before b c)

get-behind :
    (before : List Bucket) (b : Bucket) → get_elem? (before ++ b ∷ []) (length before) ≡ some b
get-behind [] b = refl
get-behind (a ∷ before) b = get-behind before b

one_round :
    (fuel i : ℕ) (t : Table) (d : ℕ) (n : Node) (b c nb : Bucket) (buckets : List Bucket)
    → find_bucket buckets d ≡ some i
    → get_elem? buckets i ≡ some b
    → full b ≡ true
    → split b ≡ ok (c, nb)
    → add_rounds (suc fuel) (record t { buckets = buckets }) d n
      ≡ add_rounds fuel (record t { buckets = set buckets i c ++ nb ∷ [] }) d n
unfolding add_rounds
one_round fuel i t d n b c nb buckets found here filled parted =
    rw (add_rounds, found, here, filled, parted)

-- A full last bucket from `low` to `high`, with `high / 2 = low`, all of its nodes above `low` and a range
-- that split accepts, sends addNode round for ever at a distance above `low` that no bucket before it
-- holds: whatever the bound, the loop is still running.
pub add_rounds_runs_on :
    (fuel low high d : ℕ) (t : Table) (n : Node) (before : List Bucket) (b : Bucket)
    → high / 2 ≡ low
    → Holds low high bucket_num b
    → ltb_ℤ (room (high + 1 - low) low (pos 0)) (pos bucket_num) ≡ false
    → low < d
    → d ≤ high
    → find_bucket before d ≡ none
    → add_rounds fuel (record t { buckets = before ++ b ∷ [] }) d n ≡ none
add_rounds_runs_on zero low high d t n before b half h rooms lt le missed =
    unfold add_rounds in refl
add_rounds_runs_on (suc fuel) low high d t n before b half h rooms lt le missed =
    let (nb, parted, again) = Holds-split low high b half h rooms in
    let c = record b { end = low } in
    let filled : full b ≡ true = unfold full in ground (arith, h.4) in
    one_round fuel (length before) t d n b c nb (before ++ b ∷ [])
      (find_bucket-behind before b d missed (omega (arith, h.0)) (omega (arith, h.1)))
      (get-behind before b) filled parted
    ∙ ap (λ bs. add_rounds fuel (record t { buckets = bs ++ nb ∷ [] }) d n) (set-behind before b c)
    ∙ add_rounds_runs_on fuel low high d t n (before ++ c ∷ []) nb half again rooms lt le
        (find_bucket-none before c d missed lt)
