-- ===== src/Communicator/Core/Log/Views.antt =====
-- What the trace shows of the session file.
use hera_v.Shared.{◌≡◌, List, [], ◌∷◌, length}
use hera_v.Communicator.Store.{
  Communicator, Event, Action, sends, relays, shows, notices, asks, kills, spawns, ends_turn,
  rejects,
}

abbrev pub shown_of : List Action → List Event
shown_of [] = []
shown_of (shows e ∷ xs) = e ∷ shown_of xs
shown_of (sends role epoch id what ∷ xs) = shown_of xs
shown_of (relays role epoch id ∷ xs) = shown_of xs
shown_of (notices n ∷ xs) = shown_of xs
shown_of (asks ask ∷ xs) = shown_of xs
shown_of (kills role epoch ∷ xs) = shown_of xs
shown_of (spawns role epoch ∷ xs) = shown_of xs
shown_of (ends_turn ∷ xs) = shown_of xs
shown_of (rejects type ∷ xs) = shown_of xs

-- The frontend has been shown what is in the file, in the order of the file, and the count is right.
pub record IsRecorded (c : Communicator) : Type 0 where
  pub shown : shown_of c.trace ≡ c.log
  pub counted : length c.log ≡ c.state.events_appended
