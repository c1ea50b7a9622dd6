-- ===== src/Connmgr/Manager/Samples.antt =====
-- connmgr.c: a run of the connection manager with one client.
use osc_final_lab.Common.{ℕ, ◌≡◌, ◌≢◌, refl, true, List, [], ◌∷◌, pos, none}
use osc_final_lab.Sbuffer.System.Samples.{reading}
use osc_final_lab.Tcpsock.{connection_closed, OpenResults, tcp_passive_open, tcp_close}
use osc_final_lab.Tcpsock.Connecting.{AcceptResults, tcp_wait_for_connection}
use osc_final_lab.Connmgr.{Round, handle_client}
use osc_final_lab.Connmgr.Stream.{round_of}
use osc_final_lab.Connmgr.Manager.{
  exited, Manager, Thread, ended, accepting, joining, closing, Inserts, Reachable, initial, later,
  opens, accepts, inserts, joins, marks, closes,
}

pub not_exited : joining 1 ≢ exited
not_exited = λ e. cc

abbrev pub closed_round : Round ℕ
closed_round = record {
  id_call = record { status = connection_closed; bytes = pos 0; content = none };
  value_call = record { status = connection_closed; bytes = pos 0; content = none };
  ts_call = record { status = connection_closed; bytes = pos 0; content = none };
}

abbrev pub rounds : List (Round ℕ)
rounds = round_of (reading 15) ∷ closed_round ∷ []

abbrev opened : OpenResults
opened = record {
  allocated = true;
  socket_result = pos 3;
  bind_result = pos 0;
  listen_result = pos 0;
}

abbrev accepted : AcceptResults
accepted = record {
  allocated = true;
  accept_result = pos 4;
  peer_addr = 1;
  peer_port = 5678;
  addr_allocated = true;
}

-- The states before the client is accepted, joined and closed.
abbrev pub before_accept :
    (m : Manager ℕ) × Reachable (pos 1) (pos 1234) m × (m.phase ≡ accepting 0)
unfolding tcp_passive_open
before_accept = (_, later (initial refl) (opens opened refl refl), refl)

abbrev pub before_join : (m : Manager ℕ) × Reachable (pos 1) (pos 1234) m × (m.phase ≡ joining 1)
unfolding handle_client tcp_passive_open tcp_wait_for_connection
before_join =
    let a = later before_accept.1 (accepts 0 accepted (reading 0) rounds refl refl) in
    (_, later a (inserts (reading 15) _ not_exited (Inserts.here [] refl)), refl)

abbrev pub before_close : (m : Manager ℕ) × Reachable (pos 1) (pos 1234) m × (m.phase ≡ closing)
unfolding handle_client tcp_passive_open tcp_wait_for_connection
before_close =
    let a = later before_join.1 (joins 0 _ refl refl (refl, refl)) in
    (_, later a (marks (reading 0) refl refl), refl)

abbrev pub finished : Thread ℕ
finished = record { garbage = reading 0; rounds = rounds; done = reading 15 ∷ []; left = [] }

abbrev pub at_end :
    (m : Manager ℕ) × Reachable (pos 1) (pos 1234) m
    × (m.phase ≡ ended)
    × (m.inserted ≡ reading 15 ∷ reading 0 ∷ [])
    × (m.threads ≡ finished ∷ [])
unfolding handle_client tcp_passive_open tcp_wait_for_connection tcp_close
at_end = (_, later before_close.1 (closes (pos 0) refl refl), refl, refl, refl)
