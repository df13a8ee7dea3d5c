-- ===== src/Sockets/Examples.antt =====
-- The theorems on sockets at concrete inputs, and the text of an address.
use cppnetool.Prelude.{ℕ, ◌+◌, ◌≡◌, ◌++◌, refl, [], ◌∷◌, some, arith}
use cppnetool.Prelude.Result.{err, aborted}
use cppnetool.Acceptor.{new}
use cppnetool.LogStream.{convert, emit, reverse_onto}
use cppnetool.Logging.{decimal}
use cppnetool.Sockets.{
  zeros, failed, enfile, acceptor_read, from_host_port, dotted, address_text, to_host_port,
}
use cppnetool.Sockets.Accepting.{acceptor_read_lem}
use cppnetool.Sockets.Addresses.{address_text-from_host_port}

acceptor_read_lem_example : acceptor_read (failed enfile) zeros (new 3) ≡ err aborted
acceptor_read_lem_example = acceptor_read_lem (failed enfile) zeros (new 3)

-- 127.0.0.1, least byte first.
abbrev localhost : ℕ
localhost = 127 + 16777216

address_text-from_host_port_example :
    address_text (from_host_port (some localhost) 8080) ≡ dotted localhost ++ (58 ∷ decimal 8080)
address_text-from_host_port_example = address_text-from_host_port localhost 8080 (omega arith)

-- "127.0.0.1:8080"
address_text-localhost :
    address_text (from_host_port (some localhost) 8080)
    ≡ 49 ∷ 50 ∷ 55 ∷ 46 ∷ 48 ∷ 46 ∷ 48 ∷ 46 ∷ 49 ∷ 58 ∷ 56 ∷ 48 ∷ 56 ∷ 48 ∷ []
unfolding convert emit reverse_onto from_host_port to_host_port
address_text-localhost = refl
