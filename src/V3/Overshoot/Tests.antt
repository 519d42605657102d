-- ===== src/V3/Overshoot/Tests.antt =====
-- Two V3 workers that register clients at the same time.
use cncnet_server.Base.{ℕ, ◌+◌, ◌≤◌, ◌≡◌, refl, true, arith, get_or}
use cncnet_server.Samples.{plain, alice, bob, at_second}
use cncnet_server.V3.Capacity.{to_come}
use cncnet_server.V3.Overshoot.{all_ready, register_bounded}
use cncnet_server.V3.Race.{
  ready, Registering, worker_step, works, RegisterReach, none_yet, and_then,
}

abbrev one_client : plain.Map plain.TunnelClient
one_client =
    plain.insert 5 (plain.new_with_endpoint alice 30 0) (plain.create_dashmap_with_capacity 2)

abbrev step_of : Registering plain → ℕ → ℕ → Registering plain
step_of r i id = worker_step plain 2 (at_second 1) r i id bob true (get_or r.workers i ready)

abbrev at_rest : Registering plain
at_rest = record { mappings = one_client; workers = all_ready plain 2 }

abbrev both_found_none : Registering plain
both_found_none = step_of (step_of at_rest 0 1) 1 2

abbrev both_passed : Registering plain
both_passed = step_of (step_of both_found_none 0 1) 1 2

abbrev both_inserted : Registering plain
both_inserted = step_of (step_of both_passed 0 1) 1 2

goes_over_the_limit : plain.len both_inserted.mappings ≡ 3
unfolding worker_step
goes_over_the_limit = refl

crossing : RegisterReach plain 2 at_rest both_inserted
unfolding worker_step
crossing =
    and_then
      (and_then
        (and_then
          (and_then
            (and_then (and_then none_yet (works 0 1 bob true (at_second 1) (omega arith)))
              (works 1 2 bob true (at_second 1) (omega arith)))
            (works 0 1 bob true (at_second 1) (omega arith)))
          (works 1 2 bob true (at_second 1) (omega arith)))
        (works 0 1 bob true (at_second 1) (omega arith)))
      (works 1 2 bob true (at_second 1) (omega arith))

register_bounded_example :
    plain.len both_inserted.mappings + to_come plain both_inserted.mappings both_inserted.workers
    ≤ 2 + 1
register_bounded_example =
    register_bounded plain 2 1 one_client both_inserted (omega arith) crossing
