-- ===== src/Acceptor/Examples.antt =====
-- Tests of the acceptor.
use cppnetool.Prelude.{◌≡◌, refl, true, some, none, [], ◌∷◌}
use cppnetool.Channel.{is_reading, enable_reading}
use cppnetool.Channel
use cppnetool.Acceptor.{new, listen, handle_read}

listens : is_reading (listen (new 5)).channel ≡ true
unfolding listen new enable_reading Channel.new
listens = refl

closes : (handle_read none (handle_read (some 6) (new 5))).closed ≡ 6 ∷ []
unfolding handle_read new
closes = refl
