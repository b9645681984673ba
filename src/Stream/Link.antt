-- ===== src/Stream/Link.antt =====
-- Two futures at the ends of one connection: what one writes arrives at the other.
use hubtain.Common.{ℕ, zero, suc, List, [], false, length, drop}
use hubtain.Stream.{Fut, Sock, Poll, poll, Arrival, resume}

-- A socket whose peer has sent nothing yet.
abbrev pub fresh : ℕ → Sock
fresh room = record { inbox = []; eof = false; outbox = []; room = room; broken = false }

-- Bytes that arrive on a connection that stays open.
abbrev pub arrival : List ℕ → Arrival
arrival bytes = record { bytes = bytes; more_room = 0; closes = false }

-- Each end as its last poll left it, with how much of what the other wrote it has got.
pub record Link (E A D B : Type 0) : Type 0 where
  pub client : Poll E A × Sock
  pub server : Poll D B × Sock
  pub client_got : ℕ
  pub server_got : ℕ

module _ {E A D B : Type 0} where
  abbrev pub start : Fut E A → Fut D B → ℕ → Link E A D B
  start c s room = record {
    client = poll c (fresh room);
    server = poll s (fresh room);
    client_got = 0;
    server_got = 0;
  }

  -- The server gets all that the client wrote since the last time, and is polled.
  abbrev pub to_server : Link E A D B → Link E A D B
  to_server l = record l {
    server = resume l.server (arrival (drop l.server_got l.client.1.outbox));
    server_got = length l.client.1.outbox;
  }

  abbrev pub to_client : Link E A D B → Link E A D B
  to_client l = record l {
    client = resume l.client (arrival (drop l.client_got l.server.1.outbox));
    client_got = length l.server.1.outbox;
  }

  -- A round brings the client's bytes to the server, and the answer back.
  unfoldable pub rounds : ℕ → Link E A D B → Link E A D B
  rounds zero l = l
  rounds (suc k) l = rounds k (to_client (to_server l))
