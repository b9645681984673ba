-- ===== src/Models/Info.antt =====
-- The server's info on the stream, with its length in one byte.
use hubtain.Common.{
  ℕ, ◌%◌, ◌≤◌, ◌<◌, ◌≡◌, false, refl, sym, ap, ◌∙◌, List, [], ◌∷◌, ◌++◌, append-nil, Option, none,
  some, arith, length, take, drop, take_all, take-append_le, drop-append_le, length-append,
  length-drop, take-append-drop, drop_all,
}
use hubtain.Stream.{Fut, Sock, value, pending, poll}
use hubtain.Stream.Steps.{poll-read_enough, poll-read_short}
use hubtain.Models.{
  DataSrvInfo, Bincode, BincodeLaws, InfoErr, io_error, write_to_stream, decoded, read_from_stream,
}

module _ (code : Bincode DataSrvInfo) where
  -- The reader takes as many bytes as the length byte says.
  read_bytes :
      (bytes rest : List ℕ) (s : Sock)
      → s.inbox ≡ (length bytes % 256) ∷ (bytes ++ rest)
      → poll (read_from_stream code) s
        ≡ poll
            (decoded (code.deserialize (take (length bytes % 256) bytes)))
            (record s { inbox = drop (length bytes % 256) bytes ++ rest })
  unfolding read_from_stream
  read_bytes bytes rest s e =
      ap (λ (bs : List ℕ). poll (read_from_stream code) (record s { inbox = bs })) e
      ∙ poll-read_enough 1 io_error _ (record s { inbox = (length bytes % 256) ∷ (bytes ++ rest) })
          (omega arith)
      ∙ poll-read_enough (length bytes % 256) io_error _ (record s { inbox = bytes ++ rest })
          (omega (arith, length-append bytes rest))
      ∙ λ i.
          poll
            (decoded
              (code.deserialize (take-append_le (length bytes % 256) bytes rest (omega arith) i)))
            (record s { inbox = drop-append_le (length bytes % 256) bytes rest (omega arith) i })

  -- The bytes on the stream of an info that is serialized to `bytes`.
  abbrev pub info_wire : List ℕ → List ℕ
  info_wire bytes = (length bytes % 256) ∷ bytes

  pub write_to_stream_all :
      (info : DataSrvInfo) (bytes : List ℕ) (accepts₁ accepts₂ : ℕ)
      → code.serialize info ≡ some bytes
      → 1 ≤ accepts₁
      → length bytes ≤ accepts₂
      → write_to_stream accepts₁ accepts₂ code info ≡ some (info_wire bytes)
  unfolding write_to_stream
  write_to_stream_all info bytes accepts₁ accepts₂ e all₁ all₂ = rw e (λ i. some (both i))
    where
      both :
          take accepts₁ ((length bytes % 256) ∷ []) ++ take accepts₂ bytes
          ≡ (length bytes % 256) ∷ bytes
      both = rw (take_all accepts₁ ((length bytes % 256) ∷ []) all₁, take_all accepts₂ bytes all₂)

  pub read_from_stream_all :
      (laws : BincodeLaws code) (info : DataSrvInfo) (bytes rest : List ℕ) (s : Sock)
      → code.serialize info ≡ some bytes
      → length bytes < 256
      → poll (read_from_stream code) (record s { inbox = info_wire bytes ++ rest })
        ≡ (value info, record s { inbox = rest })
  read_from_stream_all laws info bytes rest s e small =
      read_bytes bytes rest (record s { inbox = (length bytes % 256) ∷ (bytes ++ rest) }) refl ∙ got
    where
      fits : length bytes % 256 ≡ length bytes
      fits = omega arith

      decodes : code.deserialize bytes ≡ some info
      decodes = rw append-nil at (laws.deserialize-serialize info bytes [] e)

      got :
          poll
            (decoded (code.deserialize (take (length bytes % 256) bytes)))
            (record s { inbox = drop (length bytes % 256) bytes ++ rest })
          ≡ (value info, record s { inbox = rest })
      got =
          rw (fits, take_all (length bytes) bytes (omega arith), drop_all bytes, decodes)
            (unfold poll in refl)

  -- Where each of the two writes takes all its bytes and the serialized info is shorter than 256
  -- bytes, a client that has the written bytes in its inbox reads the same info, and leaves what
  -- follows.
  read_from_stream-write_to_stream :
      (laws : BincodeLaws code) (info : DataSrvInfo) (bytes rest : List ℕ) (accepts₁ accepts₂ : ℕ)
      (s : Sock)
      → code.serialize info ≡ some bytes
      → length bytes < 256
      → 1 ≤ accepts₁
      → length bytes ≤ accepts₂
      → (wire : List ℕ) × (write_to_stream accepts₁ accepts₂ code info ≡ some wire)
        × (poll (read_from_stream code) (record s { inbox = wire ++ rest })
            ≡ (value info, record s { inbox = rest }))
  read_from_stream-write_to_stream laws info bytes rest accepts₁ accepts₂ s e small all₁ all₂ = (
    info_wire bytes,
    write_to_stream_all info bytes accepts₁ accepts₂ e all₁ all₂,
    read_from_stream_all laws info bytes rest s e small,
  )

  -- Without input the reader waits.
  pub read_from_stream_waits :
      (s : Sock)
      → s.inbox ≡ []
      → s.eof ≡ false
      → (g : Fut InfoErr DataSrvInfo) × (poll (read_from_stream code) s
          ≡ (pending g, record s { inbox = [] }))
  unfolding read_from_stream
  read_from_stream_waits s e o = (_, poll-read_short 1 io_error _ s (rw e (omega arith)) o)

  decoded_value :
      (o : Option DataSrvInfo) (s t : Sock) → (poll (decoded o) s).0 ≡ (poll (decoded o) t).0
  unfolding poll
  decoded_value none s t = refl
  decoded_value (some a) s t = refl

  decoded_sock : (o : Option DataSrvInfo) (s : Sock) → (poll (decoded o) s).1 ≡ s
  unfolding poll
  decoded_sock none s = refl
  decoded_sock (some a) s = refl

  -- What the reader gets of a long info, and leaves of it.
  read_from_stream_cut :
      (bytes rest : List ℕ) (s : Sock)
      → 256 ≤ length bytes
      → s.inbox ≡ info_wire bytes ++ rest
      → (over : List ℕ) × (256 ≤ length over)
        × (take (length bytes % 256) bytes ++ over ≡ bytes)
        × ((poll (read_from_stream code) s).0
            ≡ (poll (decoded (code.deserialize (take (length bytes % 256) bytes))) s).0)
        × ((poll (read_from_stream code) s).1.inbox ≡ over ++ rest)
  read_from_stream_cut bytes rest s h e = (
    drop (length bytes % 256) bytes,
    omega (arith, length-drop (length bytes % 256) bytes),
    take-append-drop (length bytes % 256) bytes,
    ap (λ r. r.0) (read_bytes bytes rest s e)
        ∙ decoded_value (code.deserialize (take (length bytes % 256) bytes)) _ _,
    ap (λ r. r.1.inbox) (read_bytes bytes rest s e)
        ∙ ap (λ (t : Sock). t.inbox)
            (decoded_sock (code.deserialize (take (length bytes % 256) bytes)) _),
  )

  -- An info that is serialized to 256 bytes or more, and that `write_to_stream` has written, with two
  -- writes that take all: from what is written the reader gets the decoding of only the first bytes, as
  -- many as the length modulo 256 says, and leaves at least 256 of the rest in the stream, before what
  -- follows.
  pub read_from_stream_long :
      (info : DataSrvInfo) (bytes wire rest : List ℕ) (accepts₁ accepts₂ : ℕ) (s : Sock)
      → code.serialize info ≡ some bytes
      → 256 ≤ length bytes
      → 1 ≤ accepts₁
      → length bytes ≤ accepts₂
      → write_to_stream accepts₁ accepts₂ code info ≡ some wire
      → s.inbox ≡ wire ++ rest
      → (over : List ℕ) × (256 ≤ length over)
        × (take (length bytes % 256) bytes ++ over ≡ bytes)
        × ((poll (read_from_stream code) s).0
            ≡ (poll (decoded (code.deserialize (take (length bytes % 256) bytes))) s).0)
        × ((poll (read_from_stream code) s).1.inbox ≡ over ++ rest)
  read_from_stream_long info bytes wire rest accepts₁ accepts₂ s ser long all₁ all₂ written came =
      let p : some (info_wire bytes) ≡ some wire =
        sym (write_to_stream_all info bytes accepts₁ accepts₂ ser all₁ all₂) ∙ written in
      let same : wire ≡ info_wire bytes = cc in
      read_from_stream_cut bytes rest s long (came ∙ ap (◌++ rest) same)
