-- ===== src/Stream/Dialogue.antt =====
-- A conversation over one connection, one round after the other.
use hubtain.Common.{
  ℕ, ◌≡◌, refl, sym, ap, ◌∙◌, false, List, [], ◌++◌, length, drop, drop-append_length,
}
use hubtain.Stream.{Fut, Sock, Poll, poll, resume, arrive}
use hubtain.Stream.Link.{Link, arrival, to_server, to_client, start, fresh}
use hubtain.Stream.Resume.{poll-arrive}

module _ {E A D B : Type 0} (c : Fut E A) (s : Fut D B) where
  -- Each end is as one poll of its future leaves it on a socket to which all came that it got; the
  -- server has got the bytes `x` of the client, and the client the bytes `y` of the server.
  pub record At (l : Link E A D B) (at_client at_server : Sock) (x y : List ℕ) : Type 0 where
    pub client : l.client ≡ poll c at_client
    pub server : l.server ≡ poll s at_server
    pub server_got : l.server_got ≡ length x
    pub client_got : l.client_got ≡ length y

  pub start-At : (room : ℕ) → At (start c s room) (fresh room) (fresh room) [] []
  start-At room = record { client = refl; server = refl; server_got = refl; client_got = refl }

  again :
      {F C : Type 0} (f : Fut F C) (sock : Sock) (r : Poll F C × Sock) (got : ℕ) (out x a : List ℕ)
      → sock.eof ≡ false
      → r ≡ poll f sock
      → got ≡ length x
      → out ≡ x ++ a
      → resume r (arrival (drop got out)) ≡ poll f (arrive sock (arrival a))
  again f sock r got out x a o e n w =
      (λ i. resume (e i) (arrival (drop (n i) (w i))))
      ∙ ap (λ (bs : List ℕ). resume (poll f sock) (arrival bs)) (drop-append_length x a)
      ∙ sym (poll-arrive f sock (arrival a) o)

  -- A round in which the client had written `a` more, and the server answers with `b` more.
  pub round-At :
      (l : Link E A D B) (at_client at_server : Sock) (x y a b : List ℕ)
      → At l at_client at_server x y
      → at_client.eof ≡ false
      → at_server.eof ≡ false
      → (poll c at_client).1.outbox ≡ x ++ a
      → (poll s (arrive at_server (arrival a))).1.outbox ≡ y ++ b
      → At
          (to_client (to_server l))
          (arrive at_client (arrival b))
          (arrive at_server (arrival a))
          (x ++ a)
          (y ++ b)
  round-At l at_client at_server x y a b h open_c open_s says answers =
      let out : l.client.1.outbox ≡ x ++ a =
        ap (λ (r : Poll E A × Sock). r.1.outbox) h.client ∙ says in
      let polled : (to_server l).server ≡ poll s (arrive at_server (arrival a)) =
        again s at_server l.server l.server_got l.client.1.outbox x a open_s h.server h.server_got
          out in
      let replied : (to_server l).server.1.outbox ≡ y ++ b =
        ap (λ (r : Poll D B × Sock). r.1.outbox) polled ∙ answers in
      record {
        client =
            again c at_client l.client l.client_got (to_server l).server.1.outbox y b open_c
              h.client h.client_got replied;
        server = polled;
        server_got = ap length out;
        client_got = ap length replied;
      }
