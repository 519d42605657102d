-- ===== src/Health/Tests.antt =====
-- The health server at concrete events and requests.
use cncnet_server.Base.{ℕ, ◌+◌, ◌≡◌, refl, none, List, [], ◌∷◌}
use cncnet_server.Health.{
  HealthRequest, handle_health_request, handle_each, export_prometheus, HealthEvent, listening,
  accepted, accept_failed, shut_down, start_health_server, health_step, health_run, next_task,
}
use cncnet_server.Health.Accepting.{heard, health_run-connections}
use cncnet_server.Health.Serving.{scrape, handle_each-scrape}
use cncnet_server.Metrics.Exact.{Exact, Gauges}
use cncnet_server.Metrics.Export.{
  Exporter, exporter_new, update_prometheus, export_channel, swap, credit,
}
use cncnet_server.Metrics.Tests.{numbers, later, still_later, first_growth, second_growth}
use cncnet_server.Text.{codes}
use cncnet_server.V2.Response.{status_ok, plain}

abbrev events : List HealthEvent
events = accepted ∷ accept_failed ∷ accepted ∷ accepted ∷ shut_down ∷ []

one_failure_ends_it : (health_run (start_health_server none) events).connections ≡ 1
unfolding start_health_server health_run health_step next_task
one_failure_ends_it = refl

health_run-connections_example :
    (health_run (record { task = listening; connections = 4 }) events).connections
    ≡ 4 + heard events
health_run-connections_example = health_run-connections 4 events

-- The text of the counters is one of them.
abbrev text_of : Exporter numbers → List ℕ
text_of e = e.v3_packets_received.prom ∷ []

abbrev requests : List HealthRequest
requests =
    record { path = codes "/health"; metrics = later; elapsed_secs = 10 }
    ∷ scrape numbers text_of later 30
    ∷ record { path = codes "/metrics/"; metrics = later; elapsed_secs = 31 }
    ∷ []

answers_eight :
    (handle_health_request numbers text_of
      (scrape numbers text_of still_later 60)
      (handle_each numbers text_of requests (exporter_new numbers))).1
    ≡ plain status_ok (8 ∷ [])
unfolding handle_each handle_health_request export_prometheus update_prometheus export_channel swap
    credit
answers_eight = refl

handle_each-scrape_example :
    let (e, response) =
      handle_health_request numbers text_of
        (scrape numbers text_of still_later 60)
        (handle_each numbers text_of requests (exporter_new numbers)) in
    (response ≡ plain status_ok (text_of e))
    × Exact numbers still_later e
    × Gauges numbers still_later 60 e
handle_each-scrape_example =
    handle_each-scrape numbers text_of requests still_later 60 (first_growth, tt) second_growth
