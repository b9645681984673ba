-- ===== src/Stream.antt =====
-- The asynchronous byte streams that the program reads and writes: what an `async fn` over a stream
-- does, as a tree of its reads and writes, and what one poll of such a future does to a socket.
-- `read_exact` and `write_all` are those of the traits AsyncReadExt and AsyncWriteExt.
pub mod Bind
pub mod Link
pub mod Results
pub mod Steps
pub mod Resume
pub mod Rounds
pub mod Dialogue
use hubtain.Common.{
  ℕ, ◌-◌, ◌+◌, List, [], ◌∷◌, ◌++◌, Bool, ◌||◌, leb, if◌then◌else◌, length, take, drop,
}

pub data IoKind : Type 0 where
  unexpected_eof timed_out other : IoKind

-- A future that ends in an `A` or in an error `E`, or that panics. A step that can fail with an I/O
-- error carries the conversion that the `?` behind it makes.
pub data Fut (E A : Type 0) : Type 0 where
  ready : A → Fut E A
  fail : E → Fut E A
  panicked : Fut E A
  read_exact : ℕ → (IoKind → E) → (List ℕ → Fut E A) → Fut E A
  write_all : List ℕ → (IoKind → E) → Fut E A → Fut E A

infixl 5 ◌>>=◌
abbrev pub ◌>>=◌ : {E A B : Type 0} → Fut E A → (A → Fut E B) → Fut E B
ready a >>= f = f a
fail e >>= f = fail e
panicked >>= f = panicked
read_exact n c k >>= f = read_exact n c (λ bs. k bs >>= f)
write_all bs c k >>= f = write_all bs c (k >>= f)

-- The conversion of a future's error by `?`.
abbrev pub map_err : {E D A : Type 0} → (E → D) → Fut E A → Fut D A
map_err g (ready a) = ready a
map_err g (fail e) = fail (g e)
map_err g panicked = panicked
map_err g (read_exact n c k) = read_exact n (λ e. g (c e)) (λ bs. map_err g (k bs))
map_err g (write_all bs c k) = write_all bs (λ e. g (c e)) (map_err g k)

-- One end of a socket: the bytes that have come in and are not read, whether the peer sends no more,
-- the bytes that went out, how many more it takes before a write waits, and whether writes fail.
pub record Sock : Type 0 where
  pub inbox : List ℕ
  pub eof : Bool
  pub outbox : List ℕ
  pub room : ℕ
  pub broken : Bool

pub data Poll (E A : Type 0) : Type 0 where
  value : A → Poll E A
  error : E → Poll E A
  panic : Poll E A
  pending : Fut E A → Poll E A

-- One poll: the future runs until it ends or must wait. A pending read has taken what had come in,
-- and keeps it in the future that is left.
unfoldable pub poll : {E A : Type 0} → Fut E A → Sock → Poll E A × Sock
poll (ready a) s = (value a, s)
poll (fail e) s = (error e, s)
poll panicked s = (panic, s)
poll (read_exact n c k) s =
    let rest = poll (k (take n s.inbox)) (record s { inbox = drop n s.inbox }) in
    let left = read_exact (n - length s.inbox) c (λ bs. k (s.inbox ++ bs)) in
    let drained : Sock = record s { inbox = [] } in
    if leb n (length s.inbox)
    then rest
    else if s.eof
    then (error (c unexpected_eof), drained)
    else (pending left, drained)
poll (write_all bs c k) s =
    let rest = poll k (record s { outbox = s.outbox ++ bs; room = s.room - length bs }) in
    let left = write_all (drop s.room bs) c k in
    let full : Sock = record s { outbox = s.outbox ++ take s.room bs; room = 0 } in
    if s.broken
    then (error (c other), s)
    else if leb (length bs) s.room
    then rest
    else (pending left, full)

-- What happens to a socket between two polls.
pub record Arrival : Type 0 where
  pub bytes : List ℕ
  pub more_room : ℕ
  pub closes : Bool

abbrev pub arrive : Sock → Arrival → Sock
arrive s d = record s {
  inbox = s.inbox ++ d.bytes;
  room = s.room + d.more_room;
  eof = s.eof || d.closes;
}

-- An awaited future: polled again after each arrival, with what the last poll left.
unfoldable pub resume : {E A : Type 0} → Poll E A × Sock → Arrival → Poll E A × Sock
resume (pending g, s) d = poll g (arrive s d)
resume (value a, s) d = (value a, arrive s d)
resume (error e, s) d = (error e, arrive s d)
resume (panic, s) d = (panic, arrive s d)

unfoldable pub await : {E A : Type 0} → Poll E A × Sock → List Arrival → Poll E A × Sock
await r [] = r
await r (d ∷ ds) = await (resume r d) ds

-- All arrivals at once.
abbrev pub arrive_all : Sock → List Arrival → Sock
arrive_all s [] = s
arrive_all s (d ∷ ds) = arrive_all (arrive s d) ds
