-- ===== src/Examples/Tables.antt =====
-- A full bucket of the table with all of its nodes at one distance.
use bget.Common.{[], ◌∷◌, none, replicate, ◌≡◌, refl, arith, false}
use bget.Common.Int.{ltb_ℤ, pos, ◌+ℤ◌}
use bget.Dht.{Node, NodeState, Bucket, Table, bucket_num, room, find_bucket, add_rounds}
use bget.Dht.Crowd.{Holds}
use bget.Dht.Endless.{add_rounds_runs_on}

abbrev a_node : Node
a_node = record { id = replicate 20 0; addr = []; client = false; state = NodeState.unset }

abbrev crowded : Bucket
crowded = record { nodes = (50, replicate 160 a_node) ∷ []; count = 160; begin = 40; end = 80 }

abbrev lower : Bucket
lower = record { nodes = []; count = 160; begin = 0; end = 40 }

abbrev two_buckets : Table
two_buckets = record { own = a_node; count = 161; buckets = lower ∷ crowded ∷ [] }

crowded-Holds : Holds 40 80 bucket_num crowded
crowded-Holds = (refl, refl, ((omega arith, omega arith), tt), refl, refl)

enough_room : ltb_ℤ (room 41 40 (pos 0)) (pos bucket_num) ≡ false
unfolding room ◌+ℤ◌
enough_room = refl

lower_missed : find_bucket (lower ∷ []) 50 ≡ none
unfolding find_bucket
lower_missed = refl

add_rounds_runs_on_example : add_rounds 1000 two_buckets 50 a_node ≡ none
add_rounds_runs_on_example =
    add_rounds_runs_on 1000 40 80 50 two_buckets a_node (lower ∷ []) crowded refl crowded-Holds
      enough_room (omega arith) (omega arith) lower_missed
