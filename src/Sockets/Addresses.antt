-- ===== src/Sockets/Addresses.antt =====
-- Addresses as text, and sockets that are connected to themselves.
use cppnetool.Prelude.{
  ℕ, ◌/◌, ◌%◌, ◌≤◌, ◌<◌, ◌≡◌, ◌↔◌, true, ◌&&◌, List, ◌∷◌, ◌++◌, Option, some, ◌==◌, length, arith,
  length-append, take_all,
}
use cppnetool.LogStream.Width.{convert-fits}
use cppnetool.Logging.{decimal}
use cppnetool.Sockets.{
  SockAddr, htons, from_host_port, dotted, to_host_port, address_text, address_or_zeros,
  is_self_connect,
}

pub htons-htons : (port : ℕ) → port < 65536 → htons (htons port) ≡ port
htons-htons port h = omega (arith, h)

byte_le : (n : ℕ) → n < 256 → length (decimal n) ≤ 3
byte_le n h = convert-fits 2 n (omega (arith, h))

dotted_le : (a : ℕ) → length (dotted a) ≤ 15
dotted_le a = omega (
  arith,
  byte_le (a % 256) (omega arith),
  byte_le (a / 256 % 256) (omega arith),
  byte_le (a / 65536 % 256) (omega arith),
  byte_le (a / 16777216 % 256) (omega arith),
  length-append (decimal (a % 256)) (46 ∷ two),
  length-append (decimal (a / 256 % 256)) (46 ∷ one),
  length-append (decimal (a / 65536 % 256)) (46 ∷ decimal (a / 16777216 % 256)),
)
  where
    one : List ℕ
    one = decimal (a / 65536 % 256) ++ (46 ∷ decimal (a / 16777216 % 256))

    two : List ℕ
    two = decimal (a / 256 % 256) ++ (46 ∷ one)

-- The text of an address that was made of a number for the host and of a port has both of them, whole: no
-- host and no port are too long for the 32 characters.
pub address_text-from_host_port :
    (parsed port : ℕ)
    → port < 65536
    → address_text (from_host_port (some parsed) port) ≡ dotted parsed ++ (58 ∷ decimal port)
unfolding from_host_port to_host_port
address_text-from_host_port parsed port h =
    rw (htons-htons port h) (take_all 31 (dotted parsed ++ (58 ∷ decimal port)) short)
  where
    short : length (dotted parsed ++ (58 ∷ decimal port)) ≤ 31
    short = omega (
      arith,
      dotted_le parsed,
      convert-fits 4 port (omega (arith, h)),
      length-append (dotted parsed) (58 ∷ decimal port),
    )

same_address :
    (a b : SockAddr)
    → ((a.sin_port == b.sin_port && a.sin_addr == b.sin_addr) ≡ true)
      ↔ (a.sin_port ≡ b.sin_port) × (a.sin_addr ≡ b.sin_addr)
same_address a b = (λ h. (ground (arith, h), ground (arith, h)), λ (h, k). ground (arith, h, k))

-- A socket is taken to be connected to itself exactly if the two addresses are the same, where an
-- address that cannot be had counts as all zeros, so that two of these count as the same.
pub is_self_connect_lem :
    (name peer : Option SockAddr)
    → (is_self_connect name peer ≡ true)
      ↔ ((address_or_zeros name).sin_port ≡ (address_or_zeros peer).sin_port)
        × ((address_or_zeros name).sin_addr ≡ (address_or_zeros peer).sin_addr)
unfolding is_self_connect
is_self_connect_lem name peer = same_address (address_or_zeros name) (address_or_zeros peer)
