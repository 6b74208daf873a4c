-- ===== src/Comms.antt =====
-- libensemble/comms/comms.py, class QComm: a pair of queues with a place for one message put back.
-- Waiting is left out: with nothing to read, `recv` gives none.
pub mod Queues
mod Tests
use libensemble.Base.{ℕ, ◌+◌, Bool, true, false, List, [], ◌∷◌, ◌++◌, Option, none, some, length}

-- `In` are the messages that it reads and `Out` those that it sends.
pub record QComm (In Out : Type 0) : Type 0 where
  pub inbox : List In
  pub outbox : List Out
  pub recv_buffer : Option In

module _ {In Out : Type 0} where
  unfoldable pub send : Out → QComm In Out → QComm In Out
  send msg c = record c { outbox = c.outbox ++ msg ∷ [] }

  abbrev pub take_inbox : QComm In Out → List In → Option (In × QComm In Out)
  take_inbox c [] = none
  take_inbox c (msg ∷ rest) = some (msg, record c { inbox = rest; recv_buffer = none })

  -- The message that was put back comes first.
  unfoldable pub recv : QComm In Out → Option (In × QComm In Out)
  recv c = elim c.recv_buffer [
    | some msg ↦ some (msg, record c { recv_buffer = none })
    | none ↦ take_inbox c c.inbox
  ]

  unfoldable pub push_to_buffer : In → QComm In Out → QComm In Out
  push_to_buffer msg c = record c { recv_buffer = some msg }

  -- Whether the queue has a message; the buffer is not looked at.
  unfoldable pub mail_flag : QComm In Out → Bool
  mail_flag c = elim c.inbox [ [] ↦ false | _ ∷ _ ↦ true ]
