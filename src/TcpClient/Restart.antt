-- ===== src/TcpClient/Restart.antt =====
-- What `removeConnection` makes of the connector.
use cppnetool.Prelude.{ℕ, ◌∷◌, ◌⊎◌, ◌≡◌, refl, inl, inr, true, false, ◌&&◌, some, none, Bool-cases}
use cppnetool.Connector.{
  Connector, Outcome, connecting, disconnected, success, in_progress, interrupted, is_conn, again,
  addr_in_use, addr_not_avail, conn_refused, net_unreach, access, perm, af_no_support, already,
  bad_fd, fault, not_sock, other,
}
use cppnetool.Connector
use cppnetool.TcpClient.{TcpClient, restart_if}

-- What a first attempt to connect leaves, for each answer of `connect`: the socket is being connected,
-- it is closed and another attempt comes after the initial delay, or it is closed.
abbrev Waits : ℕ → Connector → Connector → Type 0
Waits sockfd old d =
    (d.state ≡ connecting)
    × (d.channel ≡ some sockfd)
    × (d.watched ≡ true)
    × (d.retry_delay_ms ≡ 500)
    × (d.delays ≡ old.delays)
    × (d.closed ≡ old.closed)

abbrev Postponed : ℕ → Connector → Connector → Type 0
Postponed sockfd old d =
    (d.state ≡ disconnected)
    × (d.timer_pending ≡ true)
    × (d.retry_delay_ms ≡ 1000)
    × (d.delays ≡ 500 ∷ old.delays)
    × (d.closed ≡ sockfd ∷ old.closed)

abbrev GivenUp : ℕ → Connector → Connector → Type 0
GivenUp sockfd old d =
    (d.state ≡ disconnected)
    × (d.retry_delay_ms ≡ 500)
    × (d.delays ≡ old.delays)
    × (d.closed ≡ sockfd ∷ old.closed)

abbrev pub Attempted : Outcome → ℕ → Connector → Connector → Type 0
Attempted success sockfd old d = Waits sockfd old d
Attempted in_progress sockfd old d = Waits sockfd old d
Attempted interrupted sockfd old d = Waits sockfd old d
Attempted is_conn sockfd old d = Waits sockfd old d
Attempted again sockfd old d = Postponed sockfd old d
Attempted addr_in_use sockfd old d = Postponed sockfd old d
Attempted addr_not_avail sockfd old d = Postponed sockfd old d
Attempted conn_refused sockfd old d = Postponed sockfd old d
Attempted net_unreach sockfd old d = Postponed sockfd old d
Attempted access sockfd old d = GivenUp sockfd old d
Attempted perm sockfd old d = GivenUp sockfd old d
Attempted af_no_support sockfd old d = GivenUp sockfd old d
Attempted already sockfd old d = GivenUp sockfd old d
Attempted bad_fd sockfd old d = GivenUp sockfd old d
Attempted fault sockfd old d = GivenUp sockfd old d
Attempted not_sock sockfd old d = GivenUp sockfd old d
Attempted other sockfd old d = GivenUp sockfd old d

-- What a connector becomes that is started again.
abbrev pub Restarted : Outcome → ℕ → Connector → Connector → Type 0
Restarted outcome sockfd old d =
    (d.connect ≡ true) × (d.opened ≡ sockfd ∷ old.opened) × Attempted outcome sockfd old d

restart-Restarted :
    (outcome : Outcome) (sockfd : ℕ) (c : Connector)
    → Restarted outcome sockfd c (Connector.restart sockfd outcome c)
unfolding Connector.restart Connector.start_in_loop Connector.try_connect Connector.after_verdict
    Connector.retry Connector.start_connecting
restart-Restarted success sockfd c = (refl, refl, (refl, refl, refl, refl, refl, refl))
restart-Restarted in_progress sockfd c = (refl, refl, (refl, refl, refl, refl, refl, refl))
restart-Restarted interrupted sockfd c = (refl, refl, (refl, refl, refl, refl, refl, refl))
restart-Restarted is_conn sockfd c = (refl, refl, (refl, refl, refl, refl, refl, refl))
restart-Restarted again sockfd c = (refl, refl, (refl, refl, refl, refl, refl))
restart-Restarted addr_in_use sockfd c = (refl, refl, (refl, refl, refl, refl, refl))
restart-Restarted addr_not_avail sockfd c = (refl, refl, (refl, refl, refl, refl, refl))
restart-Restarted conn_refused sockfd c = (refl, refl, (refl, refl, refl, refl, refl))
restart-Restarted net_unreach sockfd c = (refl, refl, (refl, refl, refl, refl, refl))
restart-Restarted access sockfd c = (refl, refl, (refl, refl, refl, refl))
restart-Restarted perm sockfd c = (refl, refl, (refl, refl, refl, refl))
restart-Restarted af_no_support sockfd c = (refl, refl, (refl, refl, refl, refl))
restart-Restarted already sockfd c = (refl, refl, (refl, refl, refl, refl))
restart-Restarted bad_fd sockfd c = (refl, refl, (refl, refl, refl, refl))
restart-Restarted fault sockfd c = (refl, refl, (refl, refl, refl, refl))
restart-Restarted not_sock sockfd c = (refl, refl, (refl, refl, refl, refl))
restart-Restarted other sockfd c = (refl, refl, (refl, refl, refl, refl))

-- The connector of a client whose connection is closed.
abbrev pub AfterClose : ℕ → Outcome → TcpClient → TcpClient → Type 0
AfterClose sockfd outcome c c' =
    ((c.retry ≡ true) × (c.connect ≡ true) × Restarted outcome sockfd c.connector c'.connector)
    ⊎ (((c.retry ≡ false) ⊎ (c.connect ≡ false)) × (c'.connector ≡ c.connector))

pub restart_if-AfterClose :
    (sockfd : ℕ) (outcome : Outcome) (c : TcpClient)
    → AfterClose sockfd outcome c (
        restart_if
          (c.retry && c.connect)
          sockfd
          outcome
          (record c { state = false; connection = none }))
unfolding restart_if
restart_if-AfterClose sockfd outcome c = elim (Bool-cases c.retry) [
  | inl retries ↦ elim (Bool-cases c.connect) [
    | inl connects ↦
        inl
          (retries, connects, rw (retries, connects) (restart-Restarted outcome sockfd c.connector))
    | inr stops ↦ inr (inr stops, rw (retries, stops) refl)
  ]
  | inr once ↦ inr (inl once, rw once refl)
]
