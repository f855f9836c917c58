-- ===== src/Tests/Metrics.antt =====
-- The theorems on the metrics and on the routes, at small requests.
use stock_tracker_data_colle.Base.{ℕ, String, ◌≡◌, refl, some, List, [], ◌∷◌}
use stock_tracker_data_colle.Errors.{runtime_error}
use stock_tracker_data_colle.Exec.{raised}
use stock_tracker_data_colle.Metrics.{init}
use stock_tracker_data_colle.Metrics.Render.{render}
use stock_tracker_data_colle.Metrics.Stable.{Served, observe_all, render-reordered, swapped}
use stock_tracker_data_colle.Metrics.Middleware.{Scope, Task, sends, ends, Server}
use stock_tracker_data_colle.Tests.{no_metrics}

abbrev digits : ℕ → String
digits n = "7"

abbrev sums : List ℕ → String
sums terms = "7.5"

abbrev get_health : Served
get_health = record { method = "GET"; status = 200; duration = 3 }

abbrev post_run : Served
post_run = record { method = "POST"; status = 202; duration = 5 }

render-reordered_example :
    render digits sums (observe_all (get_health ∷ post_run ∷ []) (init "DataCollector"))
    ≡ render digits sums (observe_all (post_run ∷ get_health ∷ []) (init "DataCollector"))
render-reordered_example =
    render-reordered digits sums "DataCollector" (get_health ∷ post_run ∷ [])
      (post_run ∷ get_health ∷ []) (swapped refl)

-- An application that starts a response and then raises; the world counts the messages.
abbrev failing : Task ℕ
failing =
    sends (record { type = "http.response.start"; status = 503 })
      (λ sent. ends (raised (runtime_error "lost")))

abbrev a_scope : Scope
a_scope = record { type = "http"; path = some "/run/vnstock-listing"; method = some "POST" }

abbrev quiet : Server ℕ
quiet = record { world = 0; metrics = no_metrics }
