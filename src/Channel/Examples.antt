-- ===== src/Channel/Examples.antt =====
-- The channel's theorems at concrete inputs.
use cppnetool.Prelude.{◌≡◌, refl, true, false, [], ◌∷◌}
use cppnetool.Channel.{
  Channel, new, is_reading, is_writing, is_none_event, on_write, on_read, handle_event,
}
use cppnetool.Channel.Events.{
  switch, read_on, write_on, write_off, apply_all, switch_all, apply_all_lem,
}
use cppnetool.Channel.Dispatch.{Rises, any, is_error, is_write, is_read, is_close, handle_event_lem}

apply_all_lem_example :
    let c = apply_all (read_on ∷ write_on ∷ write_off ∷ []) (new 7) in
    (is_reading c ≡ true) × (is_writing c ≡ false) × (is_none_event c ≡ false)
unfolding switch_all switch
apply_all_lem_example = apply_all_lem (read_on ∷ write_on ∷ write_off ∷ []) 7

-- Readable, writable and hung up.
abbrev busy : Channel
unfolding new
busy = record (new 7) {
  revents = 0x15;
  read_callback = true;
  write_callback = true;
  close_callback = true;
}

busy_calls : (handle_event 99 busy).0 ≡ on_write ∷ on_read 99 ∷ []
unfolding new handle_event
busy_calls = refl

handle_event_lem_example :
    let ks = (handle_event 99 busy).0 in
    Rises 0 ks
    × (any is_error ks ≡ false)
    × (any is_write ks ≡ true)
    × (any is_read ks ≡ true)
    × (any is_close ks ≡ false)
unfolding new
handle_event_lem_example = handle_event_lem 99 busy
