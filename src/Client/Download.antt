-- ===== src/Client/Download.antt =====
-- What the client's file holds in the end.
use hubtain.Common.{
  true, ℕ, ◌+◌, ◌-◌, ◌≡◌, refl, sym, ap, ◌∙◌, List, [], ◌∷◌, ◌++◌, append-nil, append_assoc, some,
  none, arith, length, replicate, concat, take_all, length-append,
}
use hubtain.Models.{DataSrvInfo}
use hubtain.Files.{AsyncFileWriter, new_writer, poll_write}
use hubtain.Client.{
  End, went_well, failed, panicked, waiting, all_well, done, FileCalls, Copied, write_chunks,
  after_copy, download_to_file, set_len,
}

write_chunks_file :
    (cs : List (List ℕ)) (w : AsyncFileWriter) → (write_chunks w cs).file ≡ w.file ++ concat cs
unfolding write_chunks poll_write
write_chunks_file [] w = sym (append-nil w.file)
write_chunks_file (c ∷ cs) w =
    write_chunks_file cs (poll_write w c (some (length c))).1
    ∙ rw (take_all (length c) c (omega arith)) (append_assoc w.file c (concat cs))

-- A copy that has ended, well or with an error.
abbrev pub HasEnded : End → Type 0
HasEnded went_well = Unit
HasEnded failed = Unit
HasEnded panicked = ⊥
HasEnded waiting = ⊥

-- Once the handshake is done and the calls on the file succeed, the download writes the chunks that
-- came, cut or filled with zeros to the announced length, and succeeds, whether the copy ended well or
-- with an error.
download_to_file-concat :
    (info : DataSrvInfo) (chunks : List (List ℕ)) (ends : End)
    → HasEnded ends
    → download_to_file went_well all_well info (record { chunks = chunks; ends = ends })
      ≡ done (set_len info.data_length (concat chunks))
unfolding download_to_file after_copy
download_to_file-concat info chunks went_well h =
    ap (λ (bs : List ℕ). done (set_len info.data_length bs)) (write_chunks_file chunks new_writer)
download_to_file-concat info chunks failed h =
    ap (λ (bs : List ℕ). done (set_len info.data_length bs)) (write_chunks_file chunks new_writer)
download_to_file-concat info chunks panicked h = absurd h
download_to_file-concat info chunks waiting h = absurd h

-- A first part of the content is filled with zeros.
pub download_filled :
    (info : DataSrvInfo) (chunks : List (List ℕ)) (ends : End) (content rest : List ℕ)
    → HasEnded ends
    → concat chunks ++ rest ≡ content
    → info.data_length ≡ length content
    → download_to_file went_well all_well info (record { chunks = chunks; ends = ends })
      ≡ done (concat chunks ++ replicate (length rest) 0)
download_filled info chunks ends content rest h e n =
    download_to_file-concat info chunks ends h ∙ λ i.
    done (take_all info.data_length came (omega (arith, whole)) i ++ replicate (missing i) 0)
  where
    came : List ℕ
    came = concat chunks

    whole : info.data_length ≡ length came + length rest
    whole = n ∙ ap length (sym e) ∙ length-append came rest

    missing : info.data_length - length came ≡ length rest
    missing = omega (arith, whole)

-- The whole content.
pub download_whole :
    (info : DataSrvInfo) (chunks : List (List ℕ)) (ends : End) (content : List ℕ)
    → HasEnded ends
    → concat chunks ≡ content
    → info.data_length ≡ length content
    → download_to_file went_well all_well info (record { chunks = chunks; ends = ends })
      ≡ done content
download_whole info chunks ends content h e n =
    download_filled info chunks ends content [] h (append-nil _ ∙ e) n ∙ ap done (append-nil _ ∙ e)

-- A handshake that fails ends the download before a file is made.
pub download_without_handshake :
    (calls : FileCalls) (info : DataSrvInfo) (copied : Copied)
    → download_to_file failed calls info copied ≡ record { ending = failed; file = none }
unfolding download_to_file
download_without_handshake calls info copied = refl

-- A copy that waits has written what came so far.
pub download_waits :
    (info : DataSrvInfo) (calls : FileCalls) (chunks : List (List ℕ))
    → calls.create ≡ true
    → download_to_file went_well calls info (record { chunks = chunks; ends = waiting })
      ≡ record { ending = waiting; file = some (concat chunks) }
unfolding download_to_file after_copy
download_waits info calls chunks creates = rw creates (
    ap (λ (bs : List ℕ). record { ending = waiting; file = some bs })
      (write_chunks_file chunks new_writer))
