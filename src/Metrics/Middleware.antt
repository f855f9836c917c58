-- ===== src/Metrics/Middleware.antt =====
-- HttpMetricsMiddleware, around an application that is given a `send`.
use stock_tracker_data_colle.Base.{
  ℕ, ◌-◌, String, Bool, false, not, ◌&&◌, Option, none, some, List, [], ◌∷◌, ◌==◌, if◌then◌else◌,
}
use stock_tracker_data_colle.Exec.{Outcome, Exec}
use stock_tracker_data_colle.Metrics.{HttpMetrics, observe}

-- An ASGI message: its type, and its status if it starts a response.
pub record Message : Type 0 where
  pub type : String
  pub status : ℕ

pub record Scope : Type 0 where
  pub type : String
  pub path : Option String
  pub method : Option String

-- An application that serves one request: it reads and changes the world, sends messages, which may
-- raise, and ends.
pub data Task (W : Type 0) : Type 0 where
  reads : (W → Task W) → Task W
  changes : (W → W) → Task W → Task W
  sends : Message → (Outcome (Unit {0}) → Task W) → Task W
  ends : Outcome (Unit {0}) → Task W

-- The application, with what its `send` does.
module _ {W S : Type 0} (get : S → W) (put : W → S → S) (send : Message → Exec S (Unit {0})) where
  unfoldable pub drive : Task W → Exec S (Unit {0})
  drive (reads next) s = drive (next (get s)) s
  drive (changes change next) s = drive next (put (change (get s)) s)
  drive (sends m next) s = drive (next (send m s).0) (send m s).1
  drive (ends outcome) s = (outcome, s)

-- the `response_status` of `send_wrapper`
abbrev pub status_after : ℕ → Message → ℕ
status_after status m = if m.type == "http.response.start" then m.status else status

-- the scopes that are counted
abbrev pub is_counted : Scope → Bool
is_counted scope =
    scope.type == "http" && not (elim scope.path [ none ↦ false | some path ↦ path == "/metrics" ])

abbrev pub method_of : Scope → String
method_of scope = elim scope.method [ none ↦ "UNKNOWN" | some method ↦ method ]

-- The world behind the application, with the counters.
pub record Server (W : Type 0) : Type 0 where
  pub world : W
  pub metrics : HttpMetrics

module _ {W : Type 0} (clock : W → ℕ) (send : Message → Exec W (Unit {0})) where
  -- send_wrapper, on the world and the status
  abbrev pub send_wrapper : Message → Exec (W × ℕ) (Unit {0})
  send_wrapper m (w, status) =
      let (outcome, w') = send m w in (outcome, (w', status_after status m))

  -- __call__
  unfoldable pub call : Scope → Task W → Exec (Server W) (Unit {0})
  call scope app server =
      if is_counted scope
      then (let (outcome, last) =
            drive (λ s. s.0) (λ w s. (w, s.1)) send_wrapper app (server.world, 500) in
          (
            outcome,
            record {
              world = last.0;
              metrics =
                  observe (method_of scope) last.1 (clock last.0 - clock server.world)
                    server.metrics;
            },
          ))
      else (let (outcome, w) = drive (λ s. s) (λ w s. w) send app server.world in
          (outcome, record server { world = w }))

  -- The messages that the application sends in a request, in their order.
  unfoldable pub said : Task W → W → List Message
  said (reads next) w = said (next w) w
  said (changes change next) w = said next (change w)
  said (sends m next) w = m ∷ said (next (send m w).0) (send m w).1
  said (ends outcome) w = []

  abbrev pub status_of : ℕ → List Message → ℕ
  status_of status [] = status
  status_of status (m ∷ messages) = status_of (status_after status m) messages

  -- what the application does without the middleware
  abbrev pub plain : Task W → Exec W (Unit {0})
  plain = drive (λ s. s) (λ w s. w) send
