-- ===== src/Stream/Rounds.antt =====
-- Two rounds of a conversation over one connection.
use hubtain.Common.{ℕ, ◌≡◌, refl, sym, ap, ◌∙◌, false, List, ◌++◌, length, drop, drop-append_length}
use hubtain.Stream.{Fut, Sock, Poll, poll, resume, arrive}
use hubtain.Stream.Link.{Link, fresh, arrival, start, to_server, to_client, rounds}
use hubtain.Stream.Resume.{poll-arrive}

-- Two arrivals on a fresh socket.
abbrev pub once : ℕ → List ℕ → Sock
once room xs = arrive (fresh room) (arrival xs)

abbrev pub twice : ℕ → List ℕ → List ℕ → Sock
twice room xs ys = arrive (once room xs) (arrival ys)

again :
    {E A : Type 0} (f : Fut E A) (sock : Sock) (r : Poll E A × Sock) (xs ys : List ℕ)
    → sock.eof ≡ false
    → r ≡ poll f sock
    → xs ≡ ys
    → resume r (arrival xs) ≡ poll f (arrive sock (arrival ys))
again f sock r xs ys o e same =
    (λ i. resume (e i) (arrival (same i))) ∙ sym (poll-arrive f sock (arrival ys) o)

-- Two rounds between a client and a server of which only the polls on a fresh socket and after each
-- arrival are known.
module _ {E A D B : Type 0} (c : Fut E A) (s : Fut D B) (room : ℕ) (a₁ a₃ b₂ b₄ : List ℕ)
    (first : (poll c (fresh room)).1.outbox ≡ a₁) (second : (poll s (once room a₁)).1.outbox ≡ b₂)
    (third : (poll c (once room b₂)).1.outbox ≡ a₁ ++ a₃)
    (fourth : (poll s (twice room a₁ a₃)).1.outbox ≡ b₂ ++ b₄) where
  L₁ : Link E A D B
  L₁ = to_server (start c s room)

  L₂ : Link E A D B
  unfolding L₁
  L₂ = to_client L₁

  L₃ : Link E A D B
  unfolding L₂
  L₃ = to_server L₂

  server_once : L₁.server ≡ poll s (once room a₁)
  unfolding L₁
  server_once = again s (fresh room) _ _ a₁ refl refl first

  client_once : L₂.client ≡ poll c (once room b₂)
  unfolding L₂
  client_once =
      again c (fresh room) _ _ b₂ refl refl
        (ap (λ (r : Poll D B × Sock). r.1.outbox) server_once ∙ second)

  server_twice : L₃.server ≡ poll s (twice room a₁ a₃)
  unfolding L₃
  server_twice = again s (once room a₁) _ _ a₃ refl server_once (
      (λ i.
        drop (length (first i)) ((ap (λ (r : Poll E A × Sock). r.1.outbox) client_once ∙ third) i))
      ∙ drop-append_length a₁ a₃)

  client_twice : (to_client L₃).client ≡ poll c (twice room b₂ b₄)
  unfolding L₃
  client_twice = again c (once room b₂) _ _ b₄ refl client_once (
      (λ i.
        drop (length ((ap (λ (r : Poll D B × Sock). r.1.outbox) server_once ∙ second) i))
          ((ap (λ (r : Poll D B × Sock). r.1.outbox) server_twice ∙ fourth) i))
      ∙ drop-append_length b₂ b₄)

  pub two_rounds :
      ((rounds 2 (start c s room)).client ≡ poll c (twice room b₂ b₄))
      × ((rounds 2 (start c s room)).server ≡ poll s (twice room a₁ a₃))
  unfolding rounds L₃
  two_rounds = (client_twice, server_twice)
