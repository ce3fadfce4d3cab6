-- ===== src/Endpoint/Tests.antt =====
-- The loops over a data packet at a concrete window.
use rel4u.Prelude.{◌≡◌, refl, true, false, [], ◌∷◌, inl, arith, length, take, drop}
use rel4u.Prelude.Int.{pos}
use rel4u.Packet.{Header, zero_header, header_len, decode_header}
use rel4u.Seq.{seq_lt, seq_diff}
use rel4u.Window.Index.{slot_index, bad_capacity}
use rel4u.Window.Recv.{fresh, on_packet, on_reliable_ordered, refusal, pop_ready}
use rel4u.Window.Recv.Inv.{IsRecvWindow}
use rel4u.Window.Fresh.{fresh-IsRecvWindow}
use rel4u.Endpoint.{packet_header, packet_bytes}
use rel4u.Endpoint.Sending.{sent-decoded}
use rel4u.Endpoint.Inbox.{max_ready, on_data}
use rel4u.Endpoint.Drains.{Settled, on_data-Settled}
use rel4u.Samples.{queue}

four_good : bad_capacity 4 ≡ false
unfolding bad_capacity
four_good = refl

-- An acknowledgement of a window that expects packet 7, with a payload of two bytes.
sent-decoded_example :
    let hdr = packet_header 77 (fresh 4 7) 5 3 9 2 in
    let raw = packet_bytes hdr (7 ∷ 8 ∷ []) 2 in
    (raw.0 ≡ pos header_len)
    × (decode_header raw.1 (length raw.1) zero_header ≡ (pos 0, hdr))
    × (drop header_len raw.1 ≡ take 2 (7 ∷ 8 ∷ []))
sent-decoded_example =
    sent-decoded 77 (fresh 4 7) 5 3 9 (7 ∷ 8 ∷ []) 2 (omega arith) (omega arith) (omega arith)
      (omega arith)

abbrev second : Header
second = record zero_header { delivery_mode = 3; seq_num = 2; payload_len = 2 }

second_taken : (on_packet (fresh 4 1) second (7 ∷ 8 ∷ []) max_ready).0 ≡ pos 0
unfolding on_packet on_reliable_ordered refusal pop_ready seq_lt seq_diff slot_index
second_taken = refl

on_data-Settled_example :
    let r = (on_data 40 (λ seq. true) 0 (fresh 4 1) queue second (7 ∷ 8 ∷ [])).0 in
    Settled r × IsRecvWindow r
on_data-Settled_example =
    on_data-Settled 40 (λ seq. true) 0 (fresh 4 1) queue second (7 ∷ 8 ∷ [])
      (fresh-IsRecvWindow 4 1 four_good (omega arith) (omega arith)) (omega arith) refl
      (inl second_taken)
