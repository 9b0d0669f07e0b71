-- ===== src/Core/CanonLog/Tests.antt =====
-- The log starts over a link that refuses the second subscription.
use ocpp_simulator.Base.{◌≡◌, refl, String, ◌⊎◌, [], ◌∷◌, none, map, true}
use ocpp_simulator.Result.{err, wrap, msg}
use ocpp_simulator.Mqtt.{PahoBroker, times_out, completes}
use ocpp_simulator.Mqtt as Mqtt
use ocpp_simulator.Core.CanonLog.Start.{Callback, start_log, IsLogging, IsLeftOver, start_log-cases}

abbrev link : PahoBroker Callback
link = record { is_connected = true; handlers = []; requests = [] }

start_log-refused :
    (start_log (completes none) times_out link).0
    ≡ err (wrap "subscribe ocpp/+/out" (msg "mqtt subscribe timeout"))
unfolding start_log Mqtt.subscribe
start_log-refused = refl

start_log-topics :
    map {B = String} (λ e. e.0) (start_log (completes none) times_out link).1.handlers
    ≡ "ocpp/+/out" ∷ []
unfolding start_log Mqtt.subscribe Mqtt.unsubscribe_once
start_log-topics = refl

start_log-cases_example :
    IsLogging (start_log (completes none) times_out link)
    ⊎ IsLeftOver (start_log (completes none) times_out link)
start_log-cases_example = start_log-cases (completes none) times_out link
