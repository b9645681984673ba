-- ===== src/ServerTui/Frame.antt =====
-- server/tui.rs (`render`, the closure of `terminal.draw`): what the interface shows, and which client
-- the user answers who looks at it. The widgets of the crate `tui` are not modelled: a frame is what they
-- are given.
use hubtain.Common.{◌>>=◌, ℕ, Bool, List, [], ◌∷◌, ◌++◌, Option, none, some, if◌then◌else◌}
use hubtain.Approval.{ClientId, codes}
use hubtain.ServerTui.{ServerTui, TermMsg, Effect, handle, client_line}

-- What the two widgets are given: the title and the lines of the log, the width of the list of clients, its
-- lines, and the selection that it highlights.
pub record Frame : Type 0 where
  pub title : List ℕ
  pub logs : List (List ℕ)
  pub width : ℕ
  pub items : List (List ℕ)
  pub highlighted : Option ℕ

abbrev pub title_of : ServerTui → List ℕ
title_of self =
    codes " Server name: " ++ self.name ++ codes " - Serving: " ++ self.file_name ++ codes " "

module _ (overflow_checks : Bool) (to_string : ClientId → List ℕ) where
  -- The lines of the clients: `none` where the width makes one panic.
  unfoldable pub client_items : ℕ → List (ClientId × ℕ) → Option (List (List ℕ))
  client_items width [] = some []
  client_items width (s ∷ clients) = do
    line ← client_line overflow_checks width (to_string s.0)
    items ← client_items width clients
    some (line ∷ items)

  unfoldable pub draw : ℕ → ServerTui → Option Frame
  unfolding client_items
  draw width self = do
    items ← client_items width self.clients
    some (record {
      title = title_of self;
      logs = self.logs;
      width = width;
      items = items;
      highlighted = self.selected;
    })

-- A message as the user sees it: what is on the screen when it is handled (nothing before the first
-- drawing), and its effects.
pub record Seen : Type 0 where
  pub screen : Option Frame
  pub msg : TermMsg
  pub effects : List Effect

-- The loop of `render` with its drawings. The width of each drawing, and the flag that is loaded behind
-- it, stand by the message; a drawing that panics ends the loop.
unfoldable pub seen :
    Bool
    → (ClientId → List ℕ)
    → ServerTui
    → Option Frame
    → List (Option TermMsg × ℕ × Bool)
    → List Seen
unfolding draw
seen overflow_checks to_string self screen [] = []
seen overflow_checks to_string self screen ((none, width, shutdown) ∷ rest) = []
seen overflow_checks to_string self screen ((some msg, width, shutdown) ∷ rest) =
    let (next, effects, quits) = handle self msg in
    let drawn = draw overflow_checks to_string width next in
    let more = seen overflow_checks to_string next drawn rest in
    record { screen = screen; msg = msg; effects = effects }
    ∷ (if quits then [] else elim drawn [ none ↦ [] | some frame ↦ if shutdown then [] else more ])
