-- ===== src/ServerTui.antt =====
-- server/tui.rs and tui/mod.rs (`TermMsg`): the server's terminal interface, as a state and what one
-- message does to it. A text is a list of bytes; a `Sender<bool>` is the number of its channel.
pub mod Logs
pub mod Replies
pub mod Keys
pub mod Approvals
pub mod Approver
pub mod Requests
pub mod Consent
pub mod Threads
pub mod Frame
pub mod Selected
pub mod Screen
pub mod Setup
pub mod Restored
pub mod RenderThread
use hubtain.Common.{
  ℕ, zero, suc, ◌+◌, ◌-◌, ◌%◌, ◌^◌, min, ltb, leb, ◌==◌, if◌then◌else◌, Bool, true, false, ◌&&◌,
  List, [], ◌∷◌, ◌++◌, Option, none, some, length, take,
}
use hubtain.Approval.{ClientId}
use mathlib.Core.Option

pub data KeyCode : Type 0 where
  enter esc other_key : KeyCode
  char : ℕ → KeyCode

pub data Event : Type 0 where
  key : (code : KeyCode) (control : Bool) → Event
  other_event : Event

pub data TermMsg : Type 0 where
  log : List ℕ → TermMsg
  client_request : ClientId → ℕ → TermMsg
  input : Event → TermMsg

-- `log_state` is only handed to the widget. The receiving end of the channel is the list of messages
-- that `render` takes.
pub record ServerTui : Type 0 where
  pub logs : List (List ℕ)
  pub clients : List (ClientId × ℕ)
  pub selected : Option ℕ
  pub name : List ℕ
  pub file_name : List ℕ

-- What a message does outside the state: an answer on a client's channel, the line that logs a
-- download, and the store to `SHUTDOWN_FLAG`.
pub data Effect : Type 0 where
  reply : ℕ → Bool → Effect
  info_downloading : ClientId → Effect
  store_shutdown : Effect

abbrev pub log_scrollback : ℕ
log_scrollback = 1000

-- `ServerTui::new`
unfoldable pub new : List ℕ → List ℕ → ServerTui
new name file_name = record {
  logs = [];
  clients = [];
  selected = none;
  name = name;
  file_name = file_name;
}

-- `VecDeque::remove` and `VecDeque::pop_front`.
unfoldable pub remove {ℓ} : {A : Type ℓ} → ℕ → List A → Option (A × List A)
remove i [] = none
remove zero (x ∷ xs) = some (x, xs)
remove (suc i) (x ∷ xs) = Option.map (λ r. (r.0, x ∷ r.1)) (remove i xs)

abbrev pub pop_front {ℓ} : {A : Type ℓ} → List A → List A
pop_front [] = []
pop_front (x ∷ xs) = xs

-- The selected client, if there is one, is taken off the list.
abbrev pub take_selected : ServerTui → Option ((ClientId × ℕ) × List (ClientId × ℕ))
take_selected self = Option.bind self.selected (λ i. remove i self.clients)

unfoldable pub on_enter : ServerTui → ServerTui × List Effect
on_enter self = elim (take_selected self) [
  | none ↦ (self, [])
  | some (client, rest) ↦
      (record self { clients = rest }, info_downloading client.0 ∷ reply client.1 true ∷ [])
]

pub on_deny : ServerTui → ServerTui × List Effect
on_deny self = elim (take_selected self) [
  | none ↦ (self, [])
  | some (client, rest) ↦ (record self { clients = rest }, reply client.1 false ∷ [])
]

-- `k`: `saturating_sub` on the selection, which starts at 0.
on_up : ServerTui → ServerTui
on_up self = record self { selected = elim self.selected [ none ↦ some 0 | some x ↦ some (x - 1) ] }

-- `j`: one further down, at most the last.
unfoldable pub on_down : ServerTui → ServerTui
on_down self = record self {
  selected = elim self.selected [
    | none ↦ some 0
    | some x ↦ some (min (x + 1) (length self.clients - 1))
  ];
}

-- What follows a key: the new state, the effects, and whether the loop is left.
unfoldable pub on_char : ServerTui → ℕ → Bool → ServerTui × List Effect × Bool
unfolding on_deny on_up on_down
on_char self c control =
    if c == b'n'
    then (let (s, es) = on_deny self in (s, es, false))
    else if c == b'k'
    then (on_up self, [], false)
    else if c == b'j'
    then (on_down self, [], false)
    else if c == b'c' && control
    then (self, store_shutdown ∷ [], true)
    else if c == b'q'
    then (self, store_shutdown ∷ [], true)
    else (self, [], false)

-- One turn of the loop in `render`, up to the drawing.
unfoldable pub handle : ServerTui → TermMsg → ServerTui × List Effect × Bool
unfolding on_enter on_char
handle self (input (key enter control)) = let (s, es) = on_enter self in (s, es, false)
handle self (input (key (char c) control)) = on_char self c control
handle self (input (key esc control)) = (self, store_shutdown ∷ [], true)
handle self (input (key other_key control)) = (self, [], false)
handle self (input other_event) = (self, [], false)
handle self (log s) =
    let logs = self.logs ++ (s ∷ []) in
    (
      record self { logs = if ltb log_scrollback (length logs) then pop_front logs else logs },
      [],
      false,
    )
handle self (client_request c tx) =
    (record self { clients = self.clients ++ ((c, tx) ∷ []) }, [], false)

-- The messages of a list one after the other, with the effects of each.
unfoldable pub run : ServerTui → List TermMsg → ServerTui × List Effect
run self [] = (self, [])
run self (msg ∷ msgs) =
    let (next, effects, quits) = handle self msg in
    let (last, more) = run next msgs in (last, effects ++ more)

-- How `render` ended: it returned, it still waits for a message, or its channel died.
pub data Ending : Type 0 where
  returned waiting channel_died : Ending

-- `none` is the end of the channel. The flag of each message is what the load of `SHUTDOWN_FLAG` gives
-- after the drawing.
unfoldable pub render : ServerTui → List (Option TermMsg × Bool) → ServerTui × List Effect × Ending
render self [] = (self, [], waiting)
render self ((none, shutdown) ∷ rest) = (self, [], channel_died)
render self ((some msg, shutdown) ∷ rest) =
    let (next, effects, quits) = handle self msg in
    let (last, more, ending) = render next rest in
    if quits
    then (next, effects, returned)
    else if shutdown
    then (next, effects, returned)
    else (last, effects ++ more, ending)

-- The width of a client's line: `chunks[1].width - 5` in u16. With overflow checks a narrower terminal
-- makes it panic; without, it wraps.
unfoldable pub chop_id_at : Bool → ℕ → Option ℕ
chop_id_at overflow_checks width =
    if leb 5 width
    then some (width - 5)
    else if overflow_checks
    then none
    else some ((width + 2 ^ 16 - 5) % 2 ^ 16)

-- The line of a client, on an ASCII name.
unfoldable pub client_line : Bool → ℕ → List ℕ → Option (List ℕ)
unfolding chop_id_at
client_line overflow_checks width client_id =
    Option.map (λ at. if ltb 5 at then take at client_id else client_id)
      (chop_id_at overflow_checks width)
