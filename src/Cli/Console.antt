-- ===== src/Cli/Console.antt =====
-- `hubtain srv` with encryption and without an interface, and any client: what was typed at the console, from the
-- command line to the copy.
use hubtain.Common.{
  ℕ, ◌≡◌, refl, subst, ap, Bool, ◌∙◌, true, false, not, ◌&&◌, List, ◌∷◌, ◌++◌, Option, none, some,
}
use hubtain.Stream.{Sock, Arrival, await, poll}
use hubtain.Approval.{ClientId, ClientApprover, console_submit}
use hubtain.Approval.Answers.{Affirms, console_submit_iff}
use hubtain.Approval.Console.{ConsoleApprover, ConsoleLine, question, typed, returned, Reach}
use hubtain.Approval.Questions.{submit-Decided}
use hubtain.Models.{DataSrvInfo, DiscoveryReply, Bincode}
use hubtain.EncryptedStream.{Noise, Keypair}
use hubtain.Files.{FilePath}
use hubtain.Server.{FileSrv}
use hubtain.Serve.{Started}
use hubtain.Serve.Data.{server_data, port_of}
use hubtain.Session.{server_session, copies, task_end}
use hubtain.Session.Download.{is_ephemeral}
use hubtain.Cli.{SrvFlags}
use hubtain.Cli.Main.{MainEnv, srv, serves, main, main-serves}
use hubtain.Cli.Consent.{session-Secure}

-- The user has typed yes, in some letters, right behind the question for this client.
abbrev pub TypedYes : List ConsoleLine → ClientId → Type 0
TypedYes lines id =
    (front : List ConsoleLine) × (line : List ℕ) × (back : List ConsoleLine) × (lines
      ≡ front ++ (typed (some line) ∷ question id ∷ back))
    × Affirms line

read_yes :
    (input : Option (List ℕ))
    → console_submit input ≡ some true
    → (line : List ℕ) × (input ≡ some line) × Affirms line
unfolding console_submit
read_yes none e = absurd (cc)
read_yes (some line) e = (line, refl, (console_submit_iff line).0.0 e)

module _ (client : ℕ → ClientId) (console : ConsoleApprover) (reach : Reach client console) where
  returned-TypedYes :
      (i : ℕ) → console.calls i ≡ returned (some true) → TypedYes console.lines (client i)
  returned-TypedYes i e =
      let d = submit-Decided client console i (some true) reach e in
      let (line, is, agrees) = read_yes d.input d.decides in
      (
        d.front,
        line,
        d.back,
        d.split ∙ ap (λ l. d.front ++ (typed l ∷ question (client i) ∷ d.back)) is,
        agrees,
      )

module _ (infos : Bincode DataSrvInfo) (replies : Bincode DiscoveryReply) (n : Noise)
    (client : ℕ → ClientId) (console : ConsoleApprover) (reach : Reach client console) where
  -- `hubtain srv` has come to its loop, with encryption and without `--stayalive`; the calls on the console's
  -- approver have taken turns in any order, and a client's task has its answer from a call for that client
  -- that has returned. Then no interface runs, and whatever the client sends, in any pieces, on a stream
  -- in any state, and whatever keys the server generates: if the client's task comes to the copy of
  -- the file, it copies to an encrypted stream for a key; and right behind the question for the client
  -- with exactly this key the user has typed a line that, without the white space at its ends and up to
  -- the case of its letters, is `y` or `yes`.
  pub srv-TypedYes :
      (host : MainEnv) (file : Option FilePath) (sc : SrvFlags) (fsrv : FileSrv) (st : Started)
      (approver : ClientApprover) (generated : Option Keypair) (accepts₁ accepts₂ : ℕ) (s : Sock)
      (ds : List Arrival) (r : Option (n.Transport × List ℕ))
      → main replies host (srv file sc) ≡ serves fsrv st
      → sc.no_encryption ≡ false
      → sc.stayalive ≡ false
      → ((id : ClientId) (b : Bool)
          → approver id ≡ some b
          → (i : ℕ) × (client i ≡ id) × (console.calls i ≡ returned (some b)))
      → task_end
          (await
            (poll
              (server_session infos n accepts₁ accepts₂
                (port_of fsrv.tcp_sock)
                (server_data fsrv)
                generated
                fsrv.client_approval_strategy
                approver)
              s)
            ds).0
        ≡ copies r
      → (st.tui ≡ false)
        × ((t : n.Transport) × (key : List ℕ) × (r ≡ some (t, key))
            × TypedYes console.lines (record { pubkey = key }))
  srv-TypedYes host file sc fsrv st approver generated accepts₁ accepts₂ s ds r serving secret once
        answers e =
      let (path, content, named, at, whole, own, len, encrypted, asks, tui) =
        main-serves replies host file sc fsrv st serving in
      let on : fsrv.encrypted ≡ true = encrypted ∙ ap not secret in
      let (t, key, is, (asked, approved)) =
        session-Secure infos n generated fsrv.client_approval_strategy approver accepts₁ accepts₂
          (port_of fsrv.tcp_sock) (server_data fsrv) s ds r (is_ephemeral fsrv on) e in
      let (i, same, done) = answers (record { pubkey = key }) true approved in
      (
        tui ∙ (λ j. not (secret j) && once j),
        (
          t,
          key,
          is,
          subst (TypedYes console.lines) same (returned-TypedYes client console reach i done),
        ),
      )
