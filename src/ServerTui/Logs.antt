-- ===== src/ServerTui/Logs.antt =====
-- The log lines that the interface keeps.
use hubtain.Common.{
  ℕ, ◌+◌, ◌-◌, ◌≤◌, ◌<◌, ◌≡◌, refl, sym, ap, ◌∙◌, Bool, Bool-cases, inl, inr, List, [], ◌∷◌, ◌++◌,
  arith, append_assoc, append-nil, length, drop, length-append, length-drop, drop-append_le,
  drop-add, ltb, leb, lt→ltb, le→ltb_false, leb→le, leb_false→lt, if◌then◌else◌,
}
use hubtain.ServerTui.{
  ServerTui, TermMsg, log, client_request, input, key, enter, esc, other_key, char, other_event,
  log_scrollback, new, handle, on_char, on_enter, run, pop_front,
}

-- The texts that a list of messages logs.
abbrev pub logged : List TermMsg → List (List ℕ)
logged [] = []
logged (log s ∷ msgs) = s ∷ logged msgs
logged (client_request c tx ∷ msgs) = logged msgs
logged (input i ∷ msgs) = logged msgs

-- The last thousand of a list.
abbrev pub newest {ℓ} : {A : Type ℓ} → List A → List A
newest xs = drop (length xs - log_scrollback) xs

drop_one {ℓ} : {A : Type ℓ} (xs : List A) → pop_front xs ≡ drop 1 xs
drop_one [] = refl
drop_one (x ∷ xs) = refl

-- `push_back`, and `pop_front` once there are too many.
abbrev push : List (List ℕ) → List ℕ → List (List ℕ)
push logs s =
    let logs = logs ++ (s ∷ []) in if ltb log_scrollback (length logs) then pop_front logs else logs

module _ (old : List (List ℕ)) (s : List ℕ) where
  length-newest : length (newest old ++ (s ∷ [])) ≡ length old - (length old - log_scrollback) + 1
  length-newest =
      omega
        (arith, length-append (newest old) (s ∷ []), length-drop (length old - log_scrollback) old)

  push_full : log_scrollback ≤ length old → push (newest old) s ≡ newest (old ++ (s ∷ []))
  push_full h =
      rw (lt→ltb log_scrollback (length (newest old ++ (s ∷ []))) (omega (arith, length-newest))) (
        drop_one (newest old ++ (s ∷ []))
        ∙ ap (drop 1) (sym (drop-append_le _ old (s ∷ []) (omega arith)))
        ∙ sym (drop-add (length old - log_scrollback) 1 (old ++ (s ∷ [])))
        ∙ ap (λ (k : ℕ). drop k (old ++ (s ∷ []))) (omega (arith, length-append old (s ∷ []))))

  push_part : length old < log_scrollback → push (newest old) s ≡ newest (old ++ (s ∷ []))
  push_part h =
      rw
        (le→ltb_false log_scrollback (length (newest old ++ (s ∷ [])))
          (omega (arith, length-newest)))
        (ap (λ (k : ℕ). drop k old ++ (s ∷ [])) none_old
          ∙ ap (λ (k : ℕ). drop k (old ++ (s ∷ []))) (sym none_new))
    where
      none_old : length old - log_scrollback ≡ 0
      none_old = omega arith

      none_new : length (old ++ (s ∷ [])) - log_scrollback ≡ 0
      none_new = omega (arith, length-append old (s ∷ []))

  push-newest : push (newest old) s ≡ newest (old ++ (s ∷ []))
  push-newest = elim (Bool-cases (leb log_scrollback (length old))) [
    | inl h ↦ push_full (leb→le _ _ h)
    | inr h ↦ push_part (leb_false→lt _ _ h)
  ]

-- What a message logs.
abbrev line : TermMsg → List (List ℕ)
line (log s) = s ∷ []
line (client_request c tx) = []
line (input i) = []

-- The keys leave the log alone.
char_logs :
    (self : ServerTui) (c : ℕ) (control : Bool) → (on_char self c control).0.logs ≡ self.logs
unfolding on_char
char_logs self c control = ground arith

enter_logs : (self : ServerTui) → (on_enter self).0.logs ≡ self.logs
unfolding on_enter
enter_logs self = ground arith

handle_newest :
    (old : List (List ℕ)) (self : ServerTui) (msg : TermMsg)
    → self.logs ≡ newest old
    → (handle self msg).0.logs ≡ newest (old ++ line msg)
unfolding handle
handle_newest old self (log s) e = ap (λ logs. push logs s) e ∙ push-newest old s
handle_newest old self (client_request c tx) e = rw append-nil e
handle_newest old self (input (key enter control)) e = rw append-nil (enter_logs self ∙ e)
handle_newest old self (input (key esc control)) e = rw append-nil e
handle_newest old self (input (key other_key control)) e = rw append-nil e
handle_newest old self (input (key (char c) control)) e =
    rw append-nil (char_logs self c control ∙ e)
handle_newest old self (input other_event) e = rw append-nil e

logged_cons : (msg : TermMsg) (msgs : List TermMsg) → logged (msg ∷ msgs) ≡ line msg ++ logged msgs
logged_cons (log s) msgs = refl
logged_cons (client_request c tx) msgs = refl
logged_cons (input i) msgs = refl

run-newest :
    (msgs : List TermMsg) (old : List (List ℕ)) (self : ServerTui)
    → self.logs ≡ newest old
    → (run self msgs).0.logs ≡ newest (old ++ logged msgs)
unfolding run
run-newest [] old self e = rw append-nil e
run-newest (msg ∷ msgs) old self e =
    run-newest msgs (old ++ line msg) (handle self msg).0 (handle_newest old self msg e)
    ∙ ap newest
        (append_assoc old (line msg) (logged msgs) ∙ ap (◌++◌ old) (sym (logged_cons msg msgs)))

-- After any messages a fresh interface shows the last thousand texts that they logged, in order.
pub run-logs :
    (name file_name : List ℕ) (msgs : List TermMsg)
    → (run (new name file_name) msgs).0.logs ≡ newest (logged msgs)
unfolding new
run-logs name file_name msgs = run-newest msgs [] (new name file_name) refl
