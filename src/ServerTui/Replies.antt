-- ===== src/ServerTui/Replies.antt =====
-- Every client that asks is answered at most once, and none is lost.
use mathlib.Core.List.{Perm, Nodup, map-append}
use mathlib.Core.List.Perm
use mathlib.Core.Option
use hubtain.Common.{
  ℕ, zero, suc, ◌≡◌, refl, ap, subst, Bool, Option-cases, if-either, ◌==◌, ◌&&◌, Option, none, some,
  inl, inr, List, [], ◌∷◌, ◌++◌, map, append_assoc, append-nil,
}
use hubtain.Approval.{ClientId}
use hubtain.ServerTui.{
  ServerTui, TermMsg, log, client_request, input, key, enter, esc, other_key, char, other_event,
  Effect, reply, info_downloading, store_shutdown, new, remove, take_selected, handle, on_char,
  on_enter, on_deny, run,
}

-- The channels on which the messages of a list ask.
abbrev pub asked : List TermMsg → List ℕ
asked [] = []
asked (client_request c tx ∷ msgs) = tx ∷ asked msgs
asked (log s ∷ msgs) = asked msgs
asked (input i ∷ msgs) = asked msgs

-- The channels that are answered.
abbrev pub answered : List Effect → List ℕ
answered [] = []
answered (reply tx b ∷ es) = tx ∷ answered es
answered (info_downloading c ∷ es) = answered es
answered (store_shutdown ∷ es) = answered es

-- The channels of the clients on the list.
abbrev pub open_requests : ServerTui → List ℕ
open_requests self = map (λ c. c.1) self.clients

-- What `remove` takes off a list, and what it leaves, are the list.
abbrev Removed {ℓ} : {A : Type ℓ} → List A → Option (A × List A) → Type ℓ
Removed {A} xs none = Perm xs xs
Removed xs (some (x, rest)) = Perm xs (x ∷ rest)

Removed-map {ℓ} :
    {A : Type ℓ} (y : A) (ys : List A) (r : Option (A × List A))
    → Removed ys r
    → Removed (y ∷ ys) (Option.map (λ r. (r.0, y ∷ r.1)) r)
Removed-map y ys none h = Perm.cons y h
Removed-map y ys (some (x, rest)) h = Perm.trans (Perm.cons y h) (Perm.swap x y rest)

remove-Removed {ℓ} : {A : Type ℓ} (i : ℕ) (xs : List A) → Removed xs (remove i xs)
unfolding remove
remove-Removed i [] = Perm.refl []
remove-Removed zero (y ∷ ys) = Perm.refl (y ∷ ys)
remove-Removed (suc i) (y ∷ ys) = Removed-map y ys (remove i ys) (remove-Removed i ys)

take-Removed :
    (o : Option ℕ) (cs : List (ClientId × ℕ)) → Removed cs (Option.bind o (λ i. remove i cs))
unfolding Option.bind
take-Removed none cs = Perm.refl cs
take-Removed (some i) cs = remove-Removed i cs

-- The channels that are still open, and those that the effects answer.
abbrev Settles : List ℕ → ServerTui → List Effect → Type 0
Settles before self es = Perm before (answered es ++ open_requests self)

enter-Settles :
    (self : ServerTui) → Settles (open_requests self) (on_enter self).0 (on_enter self).1
unfolding on_enter
enter-Settles self = elim (Option-cases (take_selected self)) [
  | inl e ↦ rw (e, on_enter) (Perm.refl (open_requests self))
  | inr (r, e) ↦
      rw (e, on_enter)
        (Perm.map (λ c. c.1)
          (subst (Removed self.clients) e (take-Removed self.selected self.clients)))
]

deny-Settles : (self : ServerTui) → Settles (open_requests self) (on_deny self).0 (on_deny self).1
unfolding on_deny
deny-Settles self = elim (Option-cases (take_selected self)) [
  | inl e ↦ rw (e, on_deny) (Perm.refl (open_requests self))
  | inr (r, e) ↦
      rw (e, on_deny)
        (Perm.map (λ c. c.1)
          (subst (Removed self.clients) e (take-Removed self.selected self.clients)))
]

char-Settles :
    (self : ServerTui) (c : ℕ) (control : Bool)
    → Settles (open_requests self) (on_char self c control).0 (on_char self c control).1
unfolding on_char
char-Settles self c control = if-either P (c == b'n') _ _ (deny-Settles self) (
    if-either P (c == b'k') _ _ same (
      if-either P (c == b'j') _ _ same
        (if-either P (c == b'c' && control) _ _ same (if-either P (c == b'q') _ _ same same))))
  where
    P : ServerTui × List Effect × Bool → Type 0
    P r = Settles (open_requests self) r.0 r.1

    same : Perm (open_requests self) (open_requests self)
    same = Perm.refl (open_requests self)

-- The channel on which a message asks.
abbrev asks : TermMsg → List ℕ
asks (client_request c tx) = tx ∷ []
asks (log s) = []
asks (input i) = []

handle-Settles :
    (self : ServerTui) (msg : TermMsg)
    → Settles (open_requests self ++ asks msg) (handle self msg).0 (handle self msg).1
unfolding handle
handle-Settles self (log s) = rw append-nil (Perm.refl (open_requests self))
handle-Settles self (client_request c tx) =
    rw (map-append (λ (c : ClientId × ℕ). c.1) self.clients ((c, tx) ∷ []))
      (Perm.refl (open_requests self ++ (tx ∷ [])))
handle-Settles self (input (key enter control)) = rw append-nil (enter-Settles self)
handle-Settles self (input (key esc control)) = rw append-nil (Perm.refl (open_requests self))
handle-Settles self (input (key other_key control)) = rw append-nil (Perm.refl (open_requests self))
handle-Settles self (input (key (char c) control)) = rw append-nil (char-Settles self c control)
handle-Settles self (input other_event) = rw append-nil (Perm.refl (open_requests self))

asked_cons : (msg : TermMsg) (msgs : List TermMsg) → asked (msg ∷ msgs) ≡ asks msg ++ asked msgs
asked_cons (log s) msgs = refl
asked_cons (client_request c tx) msgs = refl
asked_cons (input i) msgs = refl

answered-append : (es fs : List Effect) → answered (es ++ fs) ≡ answered es ++ answered fs
answered-append [] fs = refl
answered-append (reply tx b ∷ es) fs = ap (◌∷◌ tx) (answered-append es fs)
answered-append (info_downloading c ∷ es) fs = answered-append es fs
answered-append (store_shutdown ∷ es) fs = answered-append es fs

perm_chain :
    (o a rest e on f end : List ℕ)
    → Perm (o ++ a) (e ++ on)
    → Perm (on ++ rest) (f ++ end)
    → Perm (o ++ (a ++ rest)) ((e ++ f) ++ end)
perm_chain o a rest e on f end now later =
    rw (← append_assoc o a rest, append_assoc e f end)
      (Perm.trans (Perm.append_right rest now)
        (rw (append_assoc e on rest) (Perm.append_left e later)))

run-Settles :
    (msgs : List TermMsg) (self : ServerTui)
    → Settles (open_requests self ++ asked msgs) (run self msgs).0 (run self msgs).1
unfolding run
run-Settles [] self = rw append-nil (Perm.refl (open_requests self))
run-Settles (msg ∷ msgs) self =
    let (next, effects, quits) = handle self msg in
    let now : Perm (open_requests self ++ asks msg) (answered effects ++ open_requests next) =
      handle-Settles self msg in
    let later : Perm (open_requests next ++ asked msgs)
        (answered (run next msgs).1 ++ open_requests (run next msgs).0) =
      run-Settles msgs next in
    rw (asked_cons msg msgs, answered-append effects (run next msgs).1)
      (perm_chain (open_requests self) (asks msg) (asked msgs) (answered effects)
        (open_requests next) (answered (run next msgs).1) (open_requests (run next msgs).0) now
        later)

-- From a fresh interface on, the channels on which clients have asked are exactly those that are
-- answered and those that are still on the list, each as often: no request is lost, none is answered
-- that was not made, and none that is answered stays on the list.
pub run-answered :
    (name file_name : List ℕ) (msgs : List TermMsg)
    → let (last, effects) = run (new name file_name) msgs in
      Perm (asked msgs) (answered effects ++ open_requests last)
unfolding new
run-answered name file_name msgs = run-Settles msgs (new name file_name)

-- If the clients ask on different channels, no channel is answered twice or answered and still open.
run-answered_once :
    (name file_name : List ℕ) (msgs : List TermMsg)
    → Nodup (asked msgs)
    → let (last, effects) = run (new name file_name) msgs in
      Nodup (answered effects ++ open_requests last)
run-answered_once name file_name msgs = Perm.nodup (run-answered name file_name msgs)
