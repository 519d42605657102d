-- ===== src/V2/Supply/Tests.antt =====
-- The drawing of ids for a V2 request at a concrete stream of random numbers, and the accept loop at
-- concrete connections.
use cncnet_server.Base.{
  ℕ, ◌+◌, ◌%◌, ◌<◌, ◌≤◌, ◌≡◌, refl, Bool, true, false, none, some, List, [], ◌∷◌, map, length, take,
  arith,
}
use mathlib.Core.Path.{subst}
use cncnet_server.Samples.{plain, at_second}
use cncnet_server.Text.Decimal.{i16_to_string, parse_unsigned}
use cncnet_server.V2.{tunnel_new}
use cncnet_server.V2.Allocate.{clients_parameter, draw_ids, handle_request, max_attempts}
use cncnet_server.V2.Draws.{stream, firsts, offered, enter, draw_ids-offered}
use cncnet_server.V2.Listener.{HttpLoop, start_http_server, Accounted, start_http_server-Accounted}
use cncnet_server.Errors.{Result, ok, err, io}
use cncnet_server.V2.Requests.{Granted}
use cncnet_server.V2.Supply.{granting, handle_request-grants}
use cncnet_server.V2.Tests.{fresh, draws, draws_in_range, two_wanted}

-- 0, 1, 2, 0, 1, and so on.
abbrev repeats : ℕ → ℕ
repeats i = i % 3

repeats_in_range : (i : ℕ) → repeats i < 65536
repeats_in_range i = omega arith

repeats_offer_two : offered plain fresh.mappings (stream repeats 5 0) ≡ 1 ∷ 2 ∷ []
unfolding tunnel_new
repeats_offer_two = refl

draw_ids-offered_example :
    let ids = take 2 (offered plain fresh.mappings (stream repeats 5 0)) in
    draw_ids plain repeats (at_second 0) 2 5 0 fresh.mappings []
    ≡ (enter plain (at_second 0) ids fresh.mappings, map i16_to_string ids)
draw_ids-offered_example =
    draw_ids-offered plain repeats (at_second 0) 2 5 fresh.mappings repeats_in_range

wants_two : clients_parameter (some two_wanted) ≡ 2
unfolding clients_parameter parse_unsigned
wants_two = refl

three_first : (rest : List ℕ) → 3 ≤ length (firsts [] (7 ∷ 8 ∷ 9 ∷ rest))
three_first rest = omega arith

draws_offer_three : 3 ≤ length (firsts [] (stream draws max_attempts 0))
draws_offer_three = three_first (stream draws 997 3)

three_needed : 3 ≡ plain.len fresh.mappings + (clients_parameter (some two_wanted) + 1)
unfolding tunnel_new
three_needed = omega (arith, wants_two)

draws_enough :
    plain.len fresh.mappings + (clients_parameter (some two_wanted) + 1)
    ≤ length (firsts [] (stream draws max_attempts 0))
draws_enough =
    subst (λ n. n ≤ length (firsts [] (stream draws max_attempts 0))) three_needed draws_offer_three

handle_request-grants_example :
    let r = handle_request plain fresh (some two_wanted) draws (at_second 0) in
    ((ns : List ℕ) × Granted plain fresh (clients_parameter (some two_wanted)) (at_second 0) r ns)
    × (r.1
        ≡ granting plain (
            take
              (clients_parameter (some two_wanted))
              (offered plain fresh.mappings (stream draws max_attempts 0))))
unfolding tunnel_new
handle_request-grants_example =
    handle_request-grants plain fresh (some two_wanted) draws (at_second 0) draws_in_range refl
      (omega (arith, wants_two)) (omega (arith, wants_two)) (omega (arith, wants_two)) draws_enough

-- Connections before and after an error of `accept`.
abbrev answers : List (Result Bool)
answers = ok true ∷ ok false ∷ ok true ∷ err (io 24) ∷ ok true ∷ []

start_http_server-Accounted_example :
    let s : HttpLoop plain = record { tunnel = fresh; served = 0; failure = none } in
    Accounted plain s (start_http_server plain none s answers) answers
unfolding tunnel_new
start_http_server-Accounted_example =
    start_http_server-Accounted plain none answers
      (record { tunnel = fresh; served = 0; failure = none }) refl (omega arith) (omega arith)
