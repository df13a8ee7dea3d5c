-- ===== src/TcpConnection/Examples.antt =====
-- The connection's theorems at concrete inputs.
use cppnetool.Prelude.{◌+◌, ◌≡◌, refl, true, false, List, [], ◌∷◌, arith}
use cppnetool.Prelude.Result.{ok}
use cppnetool.Buffer.{readable_bytes, cheap_prepend}
use cppnetool.Buffer.Invariant.{contents-new}
use cppnetool.Channel.{is_writing, enable_writing}
use cppnetool.TcpConnection.{
  TcpConnection, wrote, would_block, new, handle_write, on_channel, record_event, write_error,
}
use cppnetool.TcpConnection.Invariant.{Holds}
use cppnetool.TcpConnection.Send.{answer}
use cppnetool.TcpConnection.Stream.{
  Op, sends, writable, shuts, run, view_run, view_step, turns, fresh_view, established,
  established_lem, run_lem, turns_lem,
}
use cppnetool.TcpConnection.Lifecycle.{handle_write_nothing}

abbrev conn : TcpConnection
conn = established 7 true

conn-Holds : Holds fresh_view cheap_prepend conn
conn-Holds = (established_lem 7 true).1

-- A message of which the kernel takes two bytes, one that has to wait, the half-close, and one that
-- comes too late.
abbrev story : List Op
story =
    sends (1 ∷ 2 ∷ 3 ∷ []) (wrote 2)
    ∷ sends (4 ∷ []) (wrote 9)
    ∷ shuts
    ∷ sends (5 ∷ []) (wrote 9)
    ∷ writable (wrote 1)
    ∷ writable would_block
    ∷ writable (wrote 9)
    ∷ []

run_lem_example :
    (c : TcpConnection) × (run story conn ≡ ok c)
    × Holds (record { sending = false; sent = 1 ∷ 2 ∷ 3 ∷ 4 ∷ [] }) (cheap_prepend + 5) c
unfolding view_run view_step
run_lem_example = run_lem story fresh_view cheap_prepend conn conn-Holds (omega arith)

turns_lem_example :
    (c : TcpConnection) × (run (turns (0 ∷ [])) conn ≡ ok c)
    × (c.wire ≡ [])
    × (is_writing c.channel ≡ false)
    × (c.write_shut ≡ false)
unfolding new
turns_lem_example =
    turns_lem (0 ∷ []) fresh_view cheap_prepend conn conn-Holds (rw contents-new (omega arith))

handle_write_nothing_example :
    let d = on_channel enable_writing conn in
    (handle_write (answer (readable_bytes d.output) (wrote 0)) d ≡ ok (record_event write_error d))
    × (is_writing d.channel ≡ true)
unfolding new
handle_write_nothing_example =
    handle_write_nothing (wrote 0) fresh_view cheap_prepend conn conn-Holds (rw contents-new refl)
