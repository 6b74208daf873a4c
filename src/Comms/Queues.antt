-- ===== src/Comms/Queues.antt =====
-- libensemble/comms/comms.py, class QComm: as a queue.
use libensemble.Base.{◌≡◌, refl, List, [], ◌∷◌, ◌++◌, Option, none, some}
use libensemble.Comms.{QComm, recv}

abbrev pub buffered {ℓ} : {In : Type ℓ} → Option In → List In
buffered none = []
buffered (some msg) = msg ∷ []

abbrev pub head_and_rest {ℓ} : {In : Type ℓ} → List In → Option (In × List In)
head_and_rest [] = none
head_and_rest (msg ∷ rest) = some (msg, rest)

module _ {In Out : Type 0} where
  -- The messages in the order in which they will be read.
  abbrev pub contents : QComm In Out → List In
  contents c = buffered c.recv_buffer ++ c.inbox

  abbrev pub view : Option (In × QComm In Out) → Option (In × List In)
  view none = none
  view (some (msg, c)) = some (msg, contents c)

  recv_parts :
      (b : Option In) (q : List In) (outs : List Out)
      → view (recv (record { inbox = q; outbox = outs; recv_buffer = b }))
        ≡ head_and_rest (buffered b ++ q)
  unfolding recv
  recv_parts none [] outs = refl
  recv_parts none (msg ∷ q) outs = refl
  recv_parts (some msg) q outs = refl

  -- A communicator reads as a queue of the message that was put back and those of the inbox: `recv` takes
  -- the head, and gives nothing when the queue is empty.
  pub recv_refines : (c : QComm In Out) → view (recv c) ≡ head_and_rest (contents c)
  recv_refines c = recv_parts c.recv_buffer c.inbox c.outbox
