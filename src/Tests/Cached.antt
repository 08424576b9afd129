-- ===== src/Tests/Cached.antt =====
-- The refinement of the stale cache at a concrete input.
use dogdb.Prelude.{ℕ, ◌≡◌, refl, String, false, none, [], ◌∷◌, List}
use dogdb.Models.{LogicalResult, Decision, on_result}
use dogdb.Platform.{decide}
use dogdb.StaleCache
use dogdb.StaleCache.{StaleReadCache, find_entry, history, key_for}
use dogdb.StaleCache.Refines.{Delivery, AreNew, note, add_each, delivered, add_each-kept}
use dogdb.StaleCache.Recent.{recent}
use dogdb.StaleCache.Trimmed.{newest}
use dogdb.StaleCache.Keys.{at_key}
use dogdb.Exec.{ok}
use dogdb.Prelude.Int.{pos}
use dogdb.Tests.{platform, rows}

abbrev result : LogicalResult
result = record { columns = "id" ∷ []; rows = rows; rowcount = pos 3; column_types = none }

abbrev delivery : String → ℕ → Delivery
delivery t n = (decide platform "7" "test" false t "p" n on_result, result)

-- Five results of one query, and one of another.
abbrev deliveries : List Delivery
deliveries =
    delivery "a" 1
    ∷ delivery "b" 1
    ∷ delivery "a" 2
    ∷ delivery "a" 3
    ∷ delivery "a" 4
    ∷ delivery "a" 5
    ∷ []

abbrev cache : StaleReadCache
cache = StaleCache.new false 10

deliveries-AreNew : AreNew cache [] deliveries
unfolding note find_entry decide
deliveries-AreNew = (refl, (refl, (refl, (refl, (refl, (refl, tt))))))

add_each-kept_example :
    ((add_each deliveries cache).entries ≡ newest 64 (recent 4 (delivered cache [] deliveries)))
    × ((d : Decision)
        → history (add_each deliveries cache) d
          ≡ ok (at_key (key_for cache d) (newest 64 (recent 4 (delivered cache [] deliveries)))))
add_each-kept_example = add_each-kept false 10 deliveries deliveries-AreNew
