-- ===== src/EncryptedStream/Safety.antt =====
-- No client gets a stream that the approver did not accept.
use hubtain.Common.{ℕ, ◌≡◌, refl, List, [], true, Option, some, Bool-cases, Option-cases, inl, inr}
use hubtain.Stream.{Fut, Sock, value, map_err, ◌>>=◌, Arrival, await, poll}
use hubtain.Stream.Results.{Always, Always->>=, Always-any, poll-OfPoll, await-OfPoll, OfPoll-value}
use hubtain.Framing.{recv, send}
use hubtain.Approval.{ClientApprovalStrategy, interactive, approve_all, ClientApprover}
use hubtain.EncryptedStream.{Noise, Keypair, EncStreamErr, io_err, snow}
use hubtain.EncryptedStream.Server.{key_exchange, approve, expect}

-- The strategy asks, and the approver has said yes to this key.
abbrev pub IsApproved : ClientApprovalStrategy → ClientApprover → List ℕ → Type 0
IsApproved strategy approver key =
    (strategy ≡ interactive) × (approver (record { pubkey = key }) ≡ some true)

approve-IsApproved :
    (n : Noise) (strategy : ClientApprovalStrategy) (approver : ClientApprover) (key : List ℕ)
    → Always (λ b. IsApproved strategy approver key) (approve n strategy approver key)
unfolding approve
approve-IsApproved n approve_all approver key = tt
approve-IsApproved n interactive approver key =
    elim (Option-cases (approver (record { pubkey = key }))) [
      | inl e ↦ rw e tt
      | inr (b, e) ↦ elim (Bool-cases b) [
        | inl yes_b ↦ rw (e, yes_b) (refl, refl)
        | inr no_b ↦ rw (e, no_b) tt
      ]
    ]

anything :
    {B C : Type 0} (Q : C → Type 0) (m : Fut EncStreamErr B) (f : B → Fut EncStreamErr C)
    → ((b : B) → Always Q (f b))
    → Always Q (m >>= f)
anything Q m f h =
    Always->>= (λ b. Unit {0}) Q m f (Always-any (λ b. Unit {0}) m (λ b. tt)) (λ b u. h b)

module _ (n : Noise) (generated : Option Keypair) (strategy : ClientApprovalStrategy)
    (approver : ClientApprover) where
  open n use {Transport}

  abbrev pub ApprovedResult : Transport × List ℕ → Type 0
  ApprovedResult r = IsApproved strategy approver r.1

  pub key_exchange-Always : Always ApprovedResult (key_exchange n generated strategy approver)
  unfolding key_exchange
  key_exchange-Always = anything _ (snow generated) _ λ key.
      anything _ (snow (n.build_responder key.private)) _ λ r₀.
        anything _ (map_err io_err recv) _ λ m₁. anything _ (snow (n.read_message r₀ m₁)) _ λ a.
          anything _ (snow (n.write_message a.1 [])) _ λ b.
            anything _ (map_err io_err (send b.0)) _ λ sent.
              anything _ (map_err io_err recv) _ λ m₃.
                anything _ (snow (n.read_message b.1 m₃)) _ λ d.
                  anything _ (expect n (n.get_remote_static d.1)) _ λ their_pubkey.
                    Always->>= (λ ok. IsApproved strategy approver their_pubkey) _
                      (approve n strategy approver their_pubkey) _
                      (approve-IsApproved n strategy approver their_pubkey)
                      λ ok yes_ok. anything _ (snow (n.into_transport_mode d.1)) _ λ t. yes_ok

  -- On every stream, with any bytes in any cuts from a peer of any behaviour, if the server's end of
  -- the key exchange ends with a stream for a key, then the strategy is the interactive one, and the
  -- approver answered yes for exactly this key.
  pub key_exchange-IsApproved :
      (s : Sock) (ds : List Arrival) (t : Transport) (key : List ℕ)
      → (await (poll (key_exchange n generated strategy approver) s) ds).0 ≡ value (t, key)
      → IsApproved strategy approver key
  key_exchange-IsApproved s ds t key e =
      OfPoll-value ApprovedResult (await (poll (key_exchange n generated strategy approver) s) ds)
        (t, key) e
        (await-OfPoll ApprovedResult _ ds (
          poll-OfPoll ApprovedResult (key_exchange n generated strategy approver) s
            key_exchange-Always))
