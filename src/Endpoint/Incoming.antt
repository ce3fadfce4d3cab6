-- ===== src/Endpoint/Incoming.antt =====
-- What arrives at one end of a connection keeps the receive window valid.
use rel4u.Prelude.{
  ℕ, zero, suc, ◌+◌, ◌^◌, ◌<◌, Bool, ◌&&◌, List, [], ◌∷◌, if_intro, arith, ltb, ◌==◌, length,
  get_or,
}
use rel4u.Prelude.Int.{ℤ}
use rel4u.Packet.{
  Header, get16, get32, zero_header, header_len, magic_number, protocol_version, decode_header,
  read_header,
}
use rel4u.Packet.RoundTrip.{AllBytes}
use rel4u.Window.Send.{}
use rel4u.Window.Recv.{RecvWindow, on_packet, pop_ready}
use rel4u.Window.Recv.Modes.{on_packet-IsRecvWindow, pop_ready_lem}
use rel4u.Mpmc.Defs.{Queue}
use rel4u.Endpoint.Inbox.{max_ready, is_code, push_all, pop_all, pop_more, on_data}
use rel4u.Window.Recv.Inv.{IsRecvWindow}
use rel4u.Endpoint.{Arrival}

-- What is read from bytes fits its width.
get_or-lt : (bs : List ℕ) (i : ℕ) → AllBytes bs → get_or bs i 0 < 2 ^ 8
get_or-lt [] i h = omega arith
get_or-lt (b ∷ bs) zero h = h.0
get_or-lt (b ∷ bs) (suc i) h = get_or-lt bs i h.1

pub get32-lt : (bs : List ℕ) (i : ℕ) → AllBytes bs → get32 bs i < 2 ^ 32
get32-lt bs i h = omega (
  arith,
  get_or-lt bs i h,
  get_or-lt bs (i + 1) h,
  get_or-lt bs (i + 2) h,
  get_or-lt bs (i + 2 + 1) h,
)

-- Data keeps the receive window valid.
module _ (node_size : ℕ) (mem : ℕ → Bool) (client_id : ℕ) where
  popped-IsRecvWindow : (w : RecvWindow) → IsRecvWindow w → IsRecvWindow (pop_ready w max_ready).1
  popped-IsRecvWindow w v = (pop_ready_lem w max_ready v (omega arith)).1

  pop_all-IsRecvWindow :
      (fuel : ℕ) (w : RecvWindow) (q : Queue)
      → IsRecvWindow w
      → IsRecvWindow (pop_all node_size mem client_id fuel w q).0
  unfolding pop_all
  pop_all-IsRecvWindow zero w q v = v
  pop_all-IsRecvWindow (suc fuel) w q v =
      let r = pop_ready w max_ready in
      if_intro (λ (t : RecvWindow × Queue). IsRecvWindow t.0) (is_code 0 r.0 && ltb 0 (length r.2))
        (λ e.
          pop_all-IsRecvWindow fuel r.1 (push_all node_size mem client_id q r.2)
            (popped-IsRecvWindow w v))
        (λ e. popped-IsRecvWindow w v)

  pop_more-IsRecvWindow :
      (fuel ready_count : ℕ) (w : RecvWindow) (q : Queue)
      → IsRecvWindow w
      → IsRecvWindow (pop_more node_size mem client_id fuel ready_count w q).0
  unfolding pop_more
  pop_more-IsRecvWindow zero ready_count w q v = v
  pop_more-IsRecvWindow (suc fuel) ready_count w q v =
      let r = pop_ready w max_ready in
      let Valid = λ (t : RecvWindow × Queue). IsRecvWindow t.0 in
      if_intro Valid (ready_count == max_ready)
        (λ f.
          if_intro Valid (is_code 0 r.0 && ltb 0 (length r.2))
            (λ e.
              pop_more-IsRecvWindow fuel (length r.2) r.1 (push_all node_size mem client_id q r.2)
                (popped-IsRecvWindow w v))
            (λ e. popped-IsRecvWindow w v))
        (λ f. v)

  pub on_data-IsRecvWindow :
      (w : RecvWindow) (q : Queue) (hdr : Header) (payload : List ℕ)
      → IsRecvWindow w
      → hdr.seq_num < 2 ^ 32
      → IsRecvWindow (on_data node_size mem client_id w q hdr payload).0
  unfolding on_data
  on_data-IsRecvWindow w q hdr payload v h =
      let r = on_packet w hdr payload max_ready in
      let u = on_packet-IsRecvWindow w hdr payload max_ready v h in
      let fuel = suc (length w.slots) in
      let Valid = λ (t : RecvWindow × Queue × Bool). IsRecvWindow t.0 in
      if_intro Valid (is_code 0 r.0)
        (λ e.
          pop_more-IsRecvWindow fuel (length r.2) r.1 (push_all node_size mem client_id q r.2) u)
        (λ e. if_intro Valid (is_code 1 r.0) (λ f. pop_all-IsRecvWindow fuel r.1 q u) (λ f. u))

-- A header that is decoded without an error.
pub decoded_seq-lt :
    (bs : List ℕ) → AllBytes bs → (decode_header bs (length bs) zero_header).1.seq_num < 2 ^ 32
unfolding decode_header read_header
decoded_seq-lt bs h =
    let Fits = λ (r : ℤ × Header). r.1.seq_num < 2 ^ 32 in
    let l = get32-lt bs 12 h in
    if_intro Fits (ltb (length bs) header_len) (λ e. omega arith)
      (λ e.
        if_intro Fits (get16 bs 0 == magic_number)
          (λ f.
            if_intro Fits (get_or bs 2 0 == protocol_version)
              (λ g. if_intro Fits (ltb (length bs) (header_len + get16 bs 6)) (λ k. l) (λ k. l))
              (λ g. l))
          (λ f. l))

-- What arrives consists of bytes.
abbrev pub AllArrived : List Arrival → Type 0
AllArrived [] = Unit {0}
AllArrived (a ∷ later) = AllBytes a.bytes × AllArrived later

abbrev pub AllRounds : List (List Arrival) → Type 0
AllRounds [] = Unit {0}
AllRounds (arrivals ∷ rounds) = AllArrived arrivals × AllRounds rounds
