-- ===== src/Client/States.antt =====
-- Datagrams that are not the server's, which leave `Client.Worker.recv_loop` without effect.
use rel4u.Prelude.{
  ◌≡◌, ◌≢◌, refl, ap, ◌∙◌, Bool, false, not, List, [], ◌∷◌, ◌⊎◌, inl, inr, Bool-cases, if_true,
  if_false, if_intro, arith, ◌==◌, if◌then◌else◌, length,
}
use rel4u.Packet.{Header, zero_header, decode_header}
use rel4u.Net.{addr_equal}
use rel4u.Session.{connected}
use rel4u.Endpoint.{Platform, Arrival}
use rel4u.Endpoint.Inbox.{is_code}
use rel4u.Client.Worker.{Worker, accepts, on_arrival, recv_loop}

-- A datagram that is not the server's: it comes from another address, or a connected client reads
-- another session in its header.
abbrev pub Foreign : Platform → Worker → Arrival → Type 0
Foreign env w a =
    (addr_equal env.af_inet env.af_inet6 a.src w.client.server_addr ≡ false)
    ⊎ ((w.state ≡ connected)
        × ((decode_header a.bytes (length a.bytes) zero_header).1.session_id ≢ w.client.session_id))

abbrev pub AllForeign : Platform → Worker → List Arrival → Type 0
AllForeign env w [] = Unit {0}
AllForeign env w (a ∷ later) = Foreign env w a × AllForeign env w later

module _ (env : Platform) where
  foreign_refused :
      (hdr : Header) (w : Worker)
      → w.state ≡ connected
      → hdr.session_id ≢ w.client.session_id
      → accepts w.state w.client.session_id hdr ≡ false
  unfolding accepts
  foreign_refused hdr w c n = rw c (ground arith)

  on_arrival-Foreign :
      (w : Worker) (a : Arrival) → Foreign env w a → on_arrival env w a ≡ (w, false)
  unfolding on_arrival
  on_arrival-Foreign w a f =
      let r = decode_header a.bytes (length a.bytes) zero_header in
      let Same = λ (x : Worker × Bool). x ≡ (w, false) in
      elim f [
        | inl e ↦ if_true _ _ (ap not e)
        | inr (c, n) ↦
            if_intro Same (not (addr_equal env.af_inet env.af_inet6 a.src w.client.server_addr))
              (λ e. refl)
              (λ e.
                if_intro Same (not (is_code 0 r.0)) (λ g. refl)
                  (λ g. if_false _ _ (foreign_refused r.1 w c n)))
      ]

  -- Datagrams that come from another address than the server's, and those that carry another session
  -- while the client is connected, change nothing of the worker and the client, however many arrive.
  pub recv_loop-Foreign :
      (w : Worker) (arrivals : List Arrival)
      → AllForeign env w arrivals
      → recv_loop env w arrivals ≡ w
  unfolding recv_loop
  recv_loop-Foreign w [] f = refl
  recv_loop-Foreign w (a ∷ later) f =
      let after = recv_loop-Foreign w later f.1 in
      elim (Bool-cases (length a.bytes == 0)) [
        | inl e ↦ if_true _ _ e
        | inr e ↦
            if_false _ _ e
            ∙ ap
                (λ (r : Worker × Bool).
                  let rest = recv_loop env r.0 later in if r.1 then r.0 else rest)
                (on_arrival-Foreign w a f.0)
            ∙ after
      ]
