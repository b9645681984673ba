-- ===== src/Cli/Consent.antt =====
-- `hubtain srv --stayalive` with encryption, and any client: the user's consent, from the command line to the
-- copy.
use hubtain.Common.{
  ℕ, ◌≡◌, refl, ap, ◌∙◌, true, false, not, ◌&&◌, List, Option, some, Option-cases, inl, inr,
}
use hubtain.Stream.{Sock, Poll, value, error, panic, pending, ready, map_err, Arrival, await, poll}
use hubtain.Stream.Results.{
  Always, Always->>=, Always-map_err, poll-OfPoll, await-OfPoll, OfPoll-value,
}
use hubtain.Approval.{ClientId, ClientApprovalStrategy, ClientApprover}
use hubtain.Models.{DataSrvInfo, DiscoveryReply, Bincode, write_to_stream}
use hubtain.EncryptedStream.{
  Noise, Keypair, client_not_accepted, bincode_err, other_err, snow_err, io_err,
}
use hubtain.EncryptedStream.Server
use hubtain.EncryptedStream.Safety.{IsApproved, ApprovedResult, key_exchange-Always}
use hubtain.Files.{FilePath}
use hubtain.Server.{FileSrv}
use hubtain.Serve.{Started}
use hubtain.Serve.Data.{
  ServerData, EncryptionType, ephemeral, no_encryption, server_data, data_info, port_of,
}
use hubtain.Session.{
  SessionErr, info_err, handshake_err, enc_err, server_stream, server_session, copies, task_end,
}
use hubtain.Session.Download.{is_ephemeral}
use hubtain.ServerTui.{TermMsg}
use hubtain.ServerTui.Approver.{tui_submit}
use hubtain.ServerTui.Consent.{IsFresh, Consents, submit-Consents}
use hubtain.Cli.{SrvFlags}
use hubtain.Cli.Main.{MainEnv, srv, serves, main, main-serves}

copies-value : {A : Type 0} (p : Poll SessionErr A) (a : A) → task_end p ≡ copies a → p ≡ value a
copies-value (value b) a e = let same : b ≡ a = cc in ap value same
copies-value (error (info_err x)) a e = absurd (cc)
copies-value (error (handshake_err info x)) a e = absurd (cc)
copies-value (error (enc_err client_not_accepted)) a e = absurd (cc)
copies-value (error (enc_err bincode_err)) a e = absurd (cc)
copies-value (error (enc_err other_err)) a e = absurd (cc)
copies-value (error (enc_err snow_err)) a e = absurd (cc)
copies-value (error (enc_err (io_err x))) a e = absurd (cc)
copies-value panic a e = absurd (cc)
copies-value (pending f) a e = absurd (cc)

module _ (infos : Bincode DataSrvInfo) (n : Noise) (generated : Option Keypair)
    (strategy : ClientApprovalStrategy) (approver : ClientApprover) where
  open n use {Transport}

  -- An encrypted stream, for a key that is approved.
  abbrev pub Secure : Option (Transport × List ℕ) → Type 0
  Secure o =
      (t : Transport) × (key : List ℕ) × (o ≡ some (t, key)) × IsApproved strategy approver key

  stream-Always :
      (e : EncryptionType)
      → e ≡ ephemeral
      → Always Secure (server_stream infos n e generated strategy approver)
  stream-Always no_encryption is = absurd (cc)
  stream-Always ephemeral is =
      Always->>= (ApprovedResult n generated strategy approver) Secure
        (map_err enc_err (Server.key_exchange n generated strategy approver)) (λ t. ready (some t))
        (Always-map_err (ApprovedResult n generated strategy approver) enc_err
          (Server.key_exchange n generated strategy approver)
          (key_exchange-Always n generated strategy approver))
        (λ t approved. (t.0, t.1, refl, approved))

  server_session-Always :
      (accepts₁ accepts₂ port : ℕ) (self : ServerData)
      → self.enctype ≡ ephemeral
      → Always Secure
          (server_session infos n accepts₁ accepts₂ port self generated strategy approver)
  unfolding server_session
  server_session-Always accepts₁ accepts₂ port self enc =
      elim (Option-cases (write_to_stream accepts₁ accepts₂ infos (data_info port self))) [
        | inl off ↦ rw off tt
        | inr (wire, sent) ↦ rw sent (stream-Always self.enctype enc)
      ]

  pub session-Secure :
      (accepts₁ accepts₂ port : ℕ) (self : ServerData) (s : Sock) (ds : List Arrival)
      (r : Option (Transport × List ℕ))
      → self.enctype ≡ ephemeral
      → task_end
          (await
            (poll
              (server_session infos n accepts₁ accepts₂ port self generated strategy approver)
              s)
            ds).0
        ≡ copies r
      → Secure r
  session-Secure accepts₁ accepts₂ port self s ds r enc e =
      let future = server_session infos n accepts₁ accepts₂ port self generated strategy approver in
      OfPoll-value Secure (await (poll future s) ds) r (copies-value _ r e) (
        await-OfPoll Secure _ ds
          (poll-OfPoll Secure future s (server_session-Always accepts₁ accepts₂ port self enc)))

module _ (infos : Bincode DataSrvInfo) (replies : Bincode DiscoveryReply) (n : Noise) (tx : ℕ)
    (handled : ClientId → Option (List TermMsg)) (fresh : IsFresh tx handled) where
  -- `hubtain srv --stayalive` has come to its loop, without `--no-encryption`. Then it runs the terminal
  -- interface, and whatever a client sends, in any pieces, on a stream in any state, and whatever keys
  -- the server generates: if the client's task comes to the copy of the file, it copies to an encrypted
  -- stream for a key; and the user has pressed Enter in the interface while the client with exactly
  -- this key was selected. The approver is the one of the interface, and its request has a channel that
  -- nobody else asks on.
  pub srv-Consents :
      (host : MainEnv) (file : Option FilePath) (sc : SrvFlags) (fsrv : FileSrv) (st : Started)
      (generated : Option Keypair) (accepts₁ accepts₂ : ℕ) (s : Sock) (ds : List Arrival)
      (r : Option (n.Transport × List ℕ))
      → main replies host (srv file sc) ≡ serves fsrv st
      → sc.no_encryption ≡ false
      → sc.stayalive ≡ true
      → task_end
          (await
            (poll
              (server_session infos n accepts₁ accepts₂
                (port_of fsrv.tcp_sock)
                (server_data fsrv)
                generated
                fsrv.client_approval_strategy
                (tui_submit fsrv.name fsrv.file_name tx handled))
              s)
            ds).0
        ≡ copies r
      → (st.tui ≡ true)
        × ((t : n.Transport) × (key : List ℕ) × (r ≡ some (t, key))
            × Consents fsrv.name fsrv.file_name tx handled fresh (record { pubkey = key }))
  srv-Consents host file sc fsrv st generated accepts₁ accepts₂ s ds r serving secret alive e =
      let (path, content, named, at, whole, own, len, encrypted, asks, tui) =
        main-serves replies host file sc fsrv st serving in
      let on : fsrv.encrypted ≡ true = encrypted ∙ ap not secret in
      let (t, key, is, (asked, approved)) =
        session-Secure infos n generated fsrv.client_approval_strategy
          (tui_submit fsrv.name fsrv.file_name tx handled) accepts₁ accepts₂ (port_of fsrv.tcp_sock)
          (server_data fsrv) s ds r (is_ephemeral fsrv on) e in
      (
        tui ∙ (λ i. not (secret i) && alive i),
        (
          t,
          key,
          is,
          submit-Consents fsrv.name fsrv.file_name tx handled fresh (record { pubkey = key })
              approved,
        ),
      )
