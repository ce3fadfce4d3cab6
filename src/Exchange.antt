-- ===== src/Exchange.antt =====
-- Both ends of a stream of reliable ordered messages, composed: the send window of
-- src/core/rel4u_window.c at one end, the receive window at the other, and between them a network that
-- loses, repeats and reorders packets and acknowledgements alike.
pub mod Arrived
pub mod Pending
pub mod Acks
pub mod Inv
pub mod Push
pub mod NoLoss
pub mod Retry
mod Tests
use rel4u.Prelude.{
  ℕ, ◌-◌, ◌≡◌, Bool, ◌||◌, List, [], ◌∷◌, ◌++◌, Option, none, some, ltb, length, get_elem?, take,
}
use rel4u.Rtt.{Rtt}
use rel4u.Stats.{Stats}
use rel4u.Packet.{Header}
use rel4u.Packet.DeliveryMode
use rel4u.Window.Send
use rel4u.Window.Send.{SendSlot, AckState, push, on_ack}
use rel4u.Window.Recv
use rel4u.Window.Recv.{get_ack_info}
use rel4u.Window.Recv.AckInfo.{keeps}
use rel4u.Endpoint.{mark_resent}
use rel4u.Transfer.{Receiver, Carries, arrive, hand_out}

-- The two ends, the messages that the sender has given numbers to, and the acknowledgements that the
-- receiver has sent: a number and a mask each.
pub record Exchange : Type 0 where
  pub sender : AckState
  pub sent : List (List ℕ)
  pub receiver : Receiver
  pub acks : List (ℕ × ℕ)

-- The bytes that a slot of the sender holds.
abbrev pub bytes_of : SendSlot → List ℕ
bytes_of s = take s.payload_len s.payload

-- Message `i` of the stream has arrived: it has been handed out, or the window keeps it.
abbrev pub has : Receiver → ℕ → Bool
has r i = ltb i (length r.log) || keeps r.window (i - length r.log)

abbrev pub numbered_too : Option ℕ → List (List ℕ) → List ℕ → List (List ℕ)
numbered_too none sent bytes = sent
numbered_too (some seq) sent bytes = sent ++ bytes ∷ []

-- A message is pushed into the send window.
unfoldable pub send : ℕ → List ℕ → Exchange → Exchange
send now_ns bytes s =
    let (code, w, seq) =
      push s.sender.win DeliveryMode.reliable_ordered bytes (length bytes) now_ns in
    record s { sender = record s.sender { win = w }; sent = numbered_too seq s.sent bytes }

-- A slot's packet is sent again.
unfoldable pub send_again : ℕ → ℕ → Exchange → Exchange
send_again now_ns i s = record s {
  sender = record s.sender { win = mark_resent now_ns s.sender.win i };
}

-- The receiver sends an acknowledgement.
unfoldable pub acknowledge : Exchange → Exchange
acknowledge s = record s { acks = get_ack_info s.receiver.window ∷ s.acks }

-- An acknowledgement reaches the sender.
unfoldable pub take_ack : ℕ → ℕ × ℕ → Exchange → Exchange
take_ack now_ns a s = record s { sender = on_ack a.0 a.1 now_ns s.sender }

-- The network may hand over any packet of a message that has been sent and any acknowledgement, at
-- any time and as often as it likes.
pub data Step (max_ready first : ℕ) (s : Exchange) : Exchange → Type 0 where
  sends : (now_ns : ℕ) (bytes : List ℕ) → Step max_ready first s (send now_ns bytes s)
  sends_again : (now_ns i : ℕ) → Step max_ready first s (send_again now_ns i s)
  arrives :
      (i : ℕ) (hdr : Header) (payload : List ℕ)
      → Carries first s.sent i hdr payload
      → Step max_ready first s (record s { receiver = arrive max_ready s.receiver hdr payload })
  hands_out : Step max_ready first s (record s { receiver = hand_out max_ready s.receiver })
  acknowledges : Step max_ready first s (acknowledge s)
  ack_arrives :
      (now_ns k : ℕ) (a : ℕ × ℕ)
      → get_elem? s.acks k ≡ some a
      → Step max_ready first s (take_ack now_ns a s)

-- Both windows are set up with the same number.
abbrev pub opened : ℕ → ℕ → ℕ → Rtt → Stats → Exchange
opened send_capacity recv_capacity first rtt stats = record {
  sender = record { win = Send.fresh send_capacity first; rtt = rtt; stats = stats };
  sent = [];
  receiver = record { window = Recv.fresh recv_capacity first; log = [] };
  acks = [];
}

pub data Reach (max_ready send_capacity recv_capacity first : ℕ) : Exchange → Type 0 where
  start :
      (rtt : Rtt) (stats : Stats)
      → Reach max_ready send_capacity recv_capacity first
          (opened send_capacity recv_capacity first rtt stats)
  later :
      {s t : Exchange}
      → Reach max_ready send_capacity recv_capacity first s
      → Step max_ready first s t
      → Reach max_ready send_capacity recv_capacity first t
