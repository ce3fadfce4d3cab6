-- ===== src/Transfer.antt =====
-- A receive window behind a network that loses, repeats and reorders packets: what
-- `rel4u_recv_window_on_packet` and `rel4u_recv_window_pop_ready` hand out of a stream of
-- reliable ordered messages.
pub mod Kept
pub mod Order
pub mod Progress
mod Tests
use rel4u.Prelude.{ℕ, ◌+◌, ◌%◌, ◌^◌, ◌≤◌, ◌<◌, ◌≡◌, List, [], ◌++◌, map, length, get_or, take}
use rel4u.Packet.{Header}
use rel4u.Packet.DeliveryMode
use rel4u.Prelude.Int.{ℤ}
use rel4u.Window.Recv.{RecvSlot, RecvWindow, fresh, on_packet, pop_ready}

-- The bytes that a slot hands out.
abbrev pub message : RecvSlot → List ℕ
message s = take s.payload_len s.payload

-- The window, and the messages that it has handed out, in their order.
pub record Receiver : Type 0 where
  pub window : RecvWindow
  pub log : List (List ℕ)

-- A packet that carries message `i` of the stream; `first` is the number of the first message.
pub record Carries (first : ℕ) (stream : List (List ℕ)) (i : ℕ) (hdr : Header) (payload : List ℕ)
    : Type 0 where
  pub in_stream : i < length stream
  pub mode_ordered : hdr.delivery_mode ≡ DeliveryMode.reliable_ordered
  pub numbered : hdr.seq_num ≡ (first + i) % 2 ^ 32
  pub whole : hdr.payload_len ≤ length payload
  pub carried : take hdr.payload_len payload ≡ get_or stream i []

-- What the window answers is handed out behind the rest.
abbrev pub handed : Receiver → ℤ × RecvWindow × List RecvSlot → Receiver
handed s a = record { window = a.1; log = s.log ++ map message a.2 }

-- A packet arrives.
unfoldable pub arrive : ℕ → Receiver → Header → List ℕ → Receiver
arrive max_ready s hdr payload = handed s (on_packet s.window hdr payload max_ready)

-- What has become due is fetched.
unfoldable pub hand_out : ℕ → Receiver → Receiver
hand_out max_ready s = handed s (pop_ready s.window max_ready)

-- The network may hand over any packet of the stream, at any time and as often as it likes, and the
-- caller may fetch what is due.
pub data Step (max_ready first : ℕ) (stream : List (List ℕ)) (s : Receiver)
    : Receiver → Type 0 where
  arrives :
      (i : ℕ) (hdr : Header) (payload : List ℕ)
      → Carries first stream i hdr payload
      → Step max_ready first stream s (arrive max_ready s hdr payload)
  hands_out : Step max_ready first stream s (hand_out max_ready s)

pub data Reach (max_ready capacity first : ℕ) (stream : List (List ℕ)) : Receiver → Type 0 where
  start : Reach max_ready capacity first stream (record { window = fresh capacity first; log = [] })
  later :
      {s t : Receiver}
      → Reach max_ready capacity first stream s
      → Step max_ready first stream s t
      → Reach max_ready capacity first stream t
