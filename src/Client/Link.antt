-- ===== src/Client/Link.antt =====
-- The table of the datagrams that move the client from one state or session to another.
pub mod Loop
use rel4u.Prelude.{
  ℕ, ◌≡◌, refl, Bool, true, false, not, ◌&&◌, List, [], ◌∷◌, if_intro, arith, ◌==◌, if◌then◌else◌,
  length,
}
use rel4u.Net.{Addr, addr_equal}
use rel4u.Packet.{Header, zero_header, decode_header}
use rel4u.Packet.PktType
use rel4u.Session.{ConnState, disconnected, connecting, connected, disconnecting}
use rel4u.Endpoint.{Platform, Arrival}
use rel4u.Endpoint.Inbox.{is_code}
use rel4u.Client.Worker.{accepts, is_connecting}

-- The state and the session after a packet of the server, from those before it. While connecting, a
-- response with a session connects and a refusal disconnects. While connected, and with the session
-- of the client in the header, a reset starts over, or disconnects a client that may not reconnect,
-- and a disconnection disconnects. Nothing else has an effect.
unfoldable pub link_after : Bool → Header → ConnState → ℕ → ConnState × ℕ
link_after disabled hdr disconnected session = (disconnected, session)
link_after disabled hdr disconnecting session = (disconnecting, session)
link_after disabled hdr connecting session =
    if hdr.packet_type == PktType.reject
    then (disconnected, session)
    else if hdr.packet_type == PktType.connect_resp && not (hdr.session_id == 0)
    then (connected, hdr.session_id)
    else (connecting, session)
link_after disabled hdr connected session =
    if hdr.session_id == session
    then (if hdr.packet_type == PktType.reset
        then (if disabled then (disconnected, session) else (connecting, 0))
        else if hdr.packet_type == PktType.disconnect
        then (disconnected, session)
        else (connected, session))
    else (connected, session)

-- The same over the datagrams at hand, up to the first one without bytes: those of another address
-- and those that do not decode count for nothing.
unfoldable pub link_through : Platform → Addr → Bool → List Arrival → ConnState × ℕ → ConnState × ℕ
link_through env server disabled [] link = link
link_through env server disabled (a ∷ later) link =
    let r = decode_header a.bytes (length a.bytes) zero_header in
    let rest = link_through env server disabled later (
      if addr_equal env.af_inet env.af_inet6 a.src server && is_code 0 r.0
      then link_after disabled r.1 link.0 link.1
      else link) in
    if length a.bytes == 0 then link else rest

-- A disconnected client stays so.
pub link_through-disconnected :
    (env : Platform) (server : Addr) (disabled : Bool) (arrivals : List Arrival) (session : ℕ)
    → link_through env server disabled arrivals (disconnected, session) ≡ (disconnected, session)
unfolding link_through link_after
link_through-disconnected env server disabled [] session = refl
link_through-disconnected env server disabled (a ∷ later) session =
    let Same = λ (l : ConnState × ℕ). l ≡ (disconnected, session) in
    let before = link_through-disconnected env server disabled later session in
    let r = decode_header a.bytes (length a.bytes) zero_header in
    if_intro Same (length a.bytes == 0) (λ e. refl)
      (λ e.
        if_intro (λ l. Same (link_through env server disabled later l))
          (addr_equal env.af_inet env.af_inet6 a.src server && is_code 0 r.0) (λ f. before)
          (λ f. before))

module _ (disabled : Bool) (hdr : Header) where
  pub link_after_response :
      (s : ConnState) (session : ℕ)
      → accepts s session hdr ≡ true
      → (hdr.packet_type == PktType.connect_resp && is_connecting s) ≡ true
      → link_after disabled hdr s session ≡ (connected, hdr.session_id)
  unfolding link_after accepts
  link_after_response disconnected session ok e = ground arith
  link_after_response connecting session ok e = ground arith
  link_after_response connected session ok e = ground arith
  link_after_response disconnecting session ok e = ground arith

  pub link_after-reset :
      (s : ConnState) (session : ℕ)
      → accepts s session hdr ≡ true
      → (hdr.packet_type == PktType.reset) ≡ true
      → link_after disabled hdr s session
        ≡ (if disabled then (disconnected, session) else (connecting, 0))
  unfolding link_after accepts
  link_after-reset disconnected session ok e = ground arith
  link_after-reset connecting session ok e = ground arith
  link_after-reset connected session ok e = ground arith
  link_after-reset disconnecting session ok e = ground arith

  pub link_after-reject :
      (s : ConnState) (session : ℕ)
      → accepts s session hdr ≡ true
      → (hdr.packet_type == PktType.reject) ≡ true
      → link_after disabled hdr s session ≡ (disconnected, session)
  unfolding link_after accepts
  link_after-reject disconnected session ok e = ground arith
  link_after-reject connecting session ok e = ground arith
  link_after-reject connected session ok e = ground arith
  link_after-reject disconnecting session ok e = ground arith

  pub link_after-disconnect :
      (s : ConnState) (session : ℕ)
      → accepts s session hdr ≡ true
      → (hdr.packet_type == PktType.disconnect) ≡ true
      → link_after disabled hdr s session ≡ (disconnected, session)
  unfolding link_after accepts
  link_after-disconnect disconnected session ok e = ground arith
  link_after-disconnect connecting session ok e = ground arith
  link_after-disconnect connected session ok e = ground arith
  link_after-disconnect disconnecting session ok e = ground arith

  pub link_after_other :
      (s : ConnState) (session : ℕ)
      → (hdr.packet_type == PktType.connect_resp && is_connecting s) ≡ false
      → (hdr.packet_type == PktType.reset) ≡ false
      → (hdr.packet_type == PktType.reject) ≡ false
      → (hdr.packet_type == PktType.disconnect) ≡ false
      → link_after disabled hdr s session ≡ (s, session)
  unfolding link_after
  link_after_other disconnected session e f g k = refl
  link_after_other connecting session e f g k = ground arith
  link_after_other connected session e f g k = ground arith
  link_after_other disconnecting session e f g k = refl

  pub link_after_refused :
      (s : ConnState) (session : ℕ)
      → accepts s session hdr ≡ false
      → link_after disabled hdr s session ≡ (s, session)
  unfolding link_after accepts
  link_after_refused disconnected session bad = refl
  link_after_refused connecting session bad = ground arith
  link_after_refused connected session bad = ground arith
  link_after_refused disconnecting session bad = refl
