-- ===== src/Connector/Examples.antt =====
-- The connector's theorems at concrete inputs.
use cppnetool.Prelude.{◌≡◌, refl, true, false, [], ◌∷◌}
use cppnetool.Prelude.Result.{ok, ◌>>=◌}
use cppnetool.Connector.{
  Connector, new, start, fire, handle_write, in_progress, conn_refused, start_in_loop, try_connect,
  after_verdict, start_connecting, retry, remove_and_reset_channel, settle,
}
use cppnetool.Connector.Sockets.{IsValid}
use cppnetool.Connector.Steps.{Reaches, here, next, starts, fires, new-IsValid, Reaches-IsValid}
use cppnetool.Connector.Delay.{
  attempts, delays_of, attempts_lem, eagain, econnrefused, enetunreach, eaddrinuse,
}
use cppnetool.Connector.{again, net_unreach, addr_in_use, conn_refused, disconnected}

-- The first attempt is refused, the second one is under way.
abbrev under_way : Connector
under_way = fire 8 in_progress (start 7 conn_refused new)

story : Reaches new under_way
unfolding new start fire start_in_loop try_connect after_verdict retry
story =
    next _ _ _ (next _ _ _ (here new) (starts 7 conn_refused new refl refl))
      (fires 8 in_progress (start 7 conn_refused new) refl)

Reaches-IsValid_example : IsValid under_way
Reaches-IsValid_example = Reaches-IsValid story new-IsValid

-- The socket of the second attempt is handed over.
handed_over : (handle_write false false under_way >>= λ c. ok c.handed) ≡ ok (8 ∷ [])
unfolding new start fire start_in_loop try_connect after_verdict retry start_connecting
    remove_and_reset_channel settle handle_write
handed_over = refl

attempts_lem_example :
    let d =
      attempts conn_refused (again ∷ net_unreach ∷ again ∷ addr_in_use ∷ again ∷ again ∷ []) new in
    (d.connect ≡ true)
    × (d.state ≡ disconnected)
    × (d.timer_pending ≡ true)
    × (d.retry_delay_ms ≡ 30000)
    × (d.delays ≡ 30000 ∷ 16000 ∷ 8000 ∷ 4000 ∷ 2000 ∷ 1000 ∷ 500 ∷ [])
unfolding new delays_of
attempts_lem_example =
    attempts_lem conn_refused (again ∷ net_unreach ∷ again ∷ addr_in_use ∷ again ∷ again ∷ []) new
      econnrefused (eagain, (enetunreach, (eagain, (eaddrinuse, (eagain, (eagain, tt)))))) refl refl
