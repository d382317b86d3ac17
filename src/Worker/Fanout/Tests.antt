-- ===== src/Worker/Fanout/Tests.antt =====
-- The followers of an account in batches.
use feed_system_golang.Base.{ℕ, zero, suc, ◌≡◌, refl, List, [], ◌∷◌, length, map, All}
use feed_system_golang.Worker.Fanout.{batches}
use feed_system_golang.Worker.Fanout.Batches.{flatten, IsBatch, batches-flatten}

abbrev down_from : ℕ → List ℕ
down_from zero = []
down_from (suc n) = suc n ∷ down_from n

map-length-batches : map (λ b. length b) (batches 250 0 (down_from 250)) ≡ 100 ∷ 100 ∷ 50 ∷ []
unfolding batches
map-length-batches = refl

batches-flatten_example :
    (flatten (batches 250 0 (down_from 250)) ≡ down_from 250)
    × All IsBatch (batches 250 0 (down_from 250))
batches-flatten_example = batches-flatten (down_from 250)
