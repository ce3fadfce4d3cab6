-- ===== src/Client/Messages.antt =====
-- A message on its way out of a client: `rel4u_client_send` puts it into the send queue, and the worker
-- takes it from there into the send window and to the socket.
use rel4u.Prelude.{
  ℕ, suc, ◌^◌, ◌≤◌, ◌<◌, ◌≡◌, sym, ap, ap₂, subst, ◌∙◌, Bool, true, false, not, ◌&&◌, ◌||◌, List,
  [], ◌∷◌, Option, none, if_true, if_false, arith, ltb, length, take, drop, memcpy, length-take,
  length-append, take-memcpy,
}
use rel4u.Prelude.Int.{ℤ, pos}
use rel4u.Window.Index.{max_payload_size}
use rel4u.Window.Send.{is_reliable, can_send}
use rel4u.Window.Send.Inv.{outstanding, can_send_lem}
use rel4u.Mpmc.Defs.{Item, push_back_locked, pop_head_locked}
use rel4u.Mpmc.Ops.{try_push, try_pop, size}
use rel4u.Mpmc.Fixed.{IsRing, contents, spec_pop}
use rel4u.Mpmc.Fixed.Refine.{pop_refines}
use rel4u.Mpmc.Fixed.Alone.{pushed_alone, popped_alone}
use rel4u.Session.{ConnState, connected}
use rel4u.Endpoint.{Platform, World}
use rel4u.Endpoint.Config.{max_payload, message}
use rel4u.Client.{Client}
use rel4u.Client.Inv.{IsClient}
use rel4u.Client.Calls as Calls
use rel4u.Client.Worker.{is_connected, is_connecting, drain_item, drain_loop, drain}
use rel4u.Client.Dispatch.{drain_one, drain_none, Dispatched, drain_item-Dispatched}

length-memcpy : (n : ℕ) (src : List ℕ) → n ≤ length src → n ≤ length (memcpy [] src n)
length-memcpy n src h = omega (arith, h, length-append (take n src) (drop n []), length-take n src)

module _ (env : Platform) where
  -- The item of a message whose mode and length fit their fields.
  message_lem :
      (mode len : ℕ) (payload : List ℕ)
      → mode < 2 ^ 8
      → len ≤ max_payload_size
      → message 0 mode payload len
        ≡ record { client_id = 0; mode = mode; len = len; bytes = memcpy [] payload len }
  unfolding message
  message_lem mode len payload m l =
      ap₂ (λ a b. record { client_id = 0; mode = a; len = b; bytes = memcpy [] payload len })
        (omega (arith, m)) (omega (arith, l))

  -- The queue takes the message.
  send-queued :
      (mem : Bool) (c : Client) (mode len : ℕ) (payload : List ℕ)
      → IsRing c.send_queue
      → contents c.send_queue ≡ []
      → c.running ≡ true
      → c.state ≡ connected
      → len ≤ max_payload c.config.mtu
      → len ≤ max_payload_size
      → mode < 2 ^ 8
      → let s = Calls.send env mem c mode payload len in
        let q = (try_push env.node_size mem c.send_queue (message 0 mode payload len)).0 in
        (s ≡ (pos 0, record c { send_queue = q }))
        × IsRing q
        × (contents q
            ≡ record { client_id = 0; mode = mode; len = len; bytes = memcpy [] payload len } ∷ [])
  unfolding Calls.send try_push message
  send-queued mem c mode len payload ring empty running now_connected fits l m =
      let short : ltb (max_payload c.config.mtu) len ≡ false = ground (arith, fits) in
      let x : Item = record {
        client_id = 0;
        mode = mode;
        len = len;
        bytes = memcpy [] payload len;
      } in
      let r = push_back_locked env.node_size mem c.send_queue (message 0 mode payload len) in
      let p =
        pushed_alone env.node_size mem c.send_queue (message 0 mode payload len) ring empty
          (omega (arith, l)) in
      let refused : ConnState → Bool = λ st.
        not (is_connected st) && (c.config.disable_auto_reconnect || not (is_connecting st)) in
      (
        if_false _ _ short
            ∙ if_false _ _ (ap not running)
            ∙ if_false _ _ (ap refused now_connected)
            ∙ if_true _ _ p.2,
        p.0,
        p.1 ∙ ap (λ (y : Item). y ∷ []) (message_lem mode len payload m l),
      )

  -- The worker takes the one message of the queue.
  drain-Dispatched :
      (c : Client) (u : World) (x : Item)
      → IsClient c
      → c.session_id < 2 ^ 32
      → IsRing c.send_queue
      → contents c.send_queue ≡ x ∷ []
      → is_reliable x.mode ≡ true
      → x.mode < 2 ^ 8
      → x.len ≤ max_payload_size
      → x.len ≤ length x.bytes
      → length (outstanding c.send_win) < c.send_win.capacity
      → Dispatched env c u x.mode x.len x.bytes x.bytes (drain env (c, u))
  unfolding drain size try_pop spec_pop
  drain-Dispatched c u x v h ring one k m l b room =
      let can : can_send c.send_win ≡ true =
        (can_send_lem c.send_win v.send_valid).0 ∙ ground (arith, room) in
      let popped = pop_head_locked c.send_queue in
      let p = popped_alone c.send_queue x ring one in
      let d : Client = record c { send_queue = popped.0 } in
      let t = drain_item-Dispatched env d u x v h k m l b room in
      let r = drain_item env (d, u) x in
      let left : (try_pop r.0.send_queue).1 ≡ none =
        ap (λ q. (pop_head_locked q).1) t.1
        ∙ ap (λ (z : List Item × Option Item). z.1) (pop_refines popped.0 p.0 ∙ ap spec_pop p.1) in
      let e : drain env (c, u) ≡ drain_loop env 1 r =
        ap (λ n. drain_loop env (suc n) (c, u)) p.3 ∙ drain_one env 1 c u x can p.2 in
      let last = drain_none env 0 r left in
      let same_world =
        ap (λ (z : Client × World). z.1.sent) e ∙ ap (λ (z : World). z.sent) last.0 in
      let same_window =
        ap (λ (z : Client × World). outstanding z.0.send_win) e ∙ ap outstanding last.1 in
      record {
        header = t.0.header;
        raw = t.0.raw;
        sent_lem = same_world ∙ t.0.sent_lem;
        decoded = t.0.decoded;
        is_data = t.0.is_data;
        same_session = t.0.same_session;
        next_number = t.0.next_number;
        same_mode = t.0.same_mode;
        same_len = t.0.same_len;
        carried = t.0.carried;
        kept = same_window ∙ t.0.kept;
      }

  -- A connected client with an empty send queue and room in its send window: a call of
  -- `rel4u_client_send` for a reliable message that fits the limit of the configuration and 9216 bytes
  -- returns 0, and the worker then sends one datagram more, to the server. The datagram decodes to a data
  -- packet of the session, in the mode and of the length of the message and with the next sequence number, and behind the
  -- header stands the message. The send window holds it under that number, after those outstanding
  -- before, sent now and not acknowledged.
  pub send-Dispatched :
      (mem : Bool) (c : Client) (u : World) (mode len : ℕ) (payload : List ℕ)
      → IsClient c
      → c.session_id < 2 ^ 32
      → IsRing c.send_queue
      → contents c.send_queue ≡ []
      → length (outstanding c.send_win) < c.send_win.capacity
      → c.running ≡ true
      → c.state ≡ connected
      → is_reliable mode ≡ true
      → mode < 2 ^ 8
      → len ≤ max_payload c.config.mtu
      → len ≤ max_payload_size
      → len ≤ length payload
      → let s = Calls.send env mem c mode payload len in
        (s.0 ≡ pos 0)
        × Dispatched env c u mode len payload (memcpy [] payload len) (drain env (s.1, u))
  send-Dispatched mem c u mode len payload v h ring empty room running now_connected k m fits l
        whole =
      let s = Calls.send env mem c mode payload len in
      let q = send-queued mem c mode len payload ring empty running now_connected fits l m in
      let bytes = memcpy [] payload len in
      let same : take len bytes ≡ take len payload = take-memcpy len [] payload whole in
      let e : s.1 ≡ _ = ap (λ (t : ℤ × Client). t.1) q.0 in
      let d =
        drain-Dispatched _ u (record { client_id = 0; mode = mode; len = len; bytes = bytes }) v h
          q.1 q.2 k m l (omega (arith, length-memcpy len payload whole)) room in
      (
        ap (λ (t : ℤ × Client). t.0) q.0,
        subst (λ (a : Client). Dispatched env c u mode len payload bytes (drain env (a, u))) (sym e)
            (record {
              header = d.header;
              raw = d.raw;
              sent_lem = d.sent_lem;
              decoded = d.decoded;
              is_data = d.is_data;
              same_session = d.same_session;
              next_number = d.next_number;
              same_mode = d.same_mode;
              same_len = d.same_len;
              carried = d.carried ∙ same;
              kept = d.kept;
            }),
      )
