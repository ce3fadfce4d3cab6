-- ===== src/Client/Start.antt =====
-- What `rel4u_client_create` makes.
use rel4u.Prelude.{
  ℕ, ◌^◌, ◌≤◌, ◌<◌, ◌≡◌, ◌≢◌, refl, List, Option, true, false, ◌||◌, none, some, ◌⊎◌, inl, inr,
  Bool-cases, if_false, arith, ltb, ◌==◌, ◌>>=◌,
}
use rel4u.Mpmc.Defs.{MemoryMode, fixed, dynamic, FullPolicy, Queue}
use rel4u.Mpmc.Ops
use rel4u.Window.Index.{bad_capacity, IsCapacity, bad_capacity-IsCapacity, IsCapacity-bad_capacity}
use rel4u.Window.Send
use rel4u.Window.Recv
use rel4u.Window.Fresh.{fresh-IsSendWindow, fresh-IsRecvWindow}
use rel4u.Stats.{no_stats}
use rel4u.Session.{disconnected, default_rtt, zero_session}
use rel4u.Endpoint.Link.{default_rtt-IsValid}
use rel4u.Client.{ClientConfig, Client}
use rel4u.Client.Create.{is_missing, with_defaults, Memory, create}
use rel4u.Client.Inv.{IsClient}

abbrev pub all_memory : Memory
all_memory = record {
  self = true;
  send_queue = true;
  recv_queue = true;
  send_win = true;
  recv_win = true;
}

-- What the call refuses: no server address or port, or a window size that is not a power of two from
-- 2 to 2^30.
abbrev pub Refused : ClientConfig → Type 0
Refused config =
    ((config.server_address ≡ none) ⊎ (config.server_port ≡ 0))
    ⊎ ¬ IsCapacity (with_defaults config).window_size

abbrev pub Accepted : ClientConfig → Type 0
Accepted config =
    ((name : List ℕ) × (config.server_address ≡ some name))
    × (config.server_port ≢ 0)
    × IsCapacity (with_defaults config).window_size

-- The test of the address and the port.
named_cases :
    (address : Option (List ℕ)) (port : ℕ)
    → (((address ≡ none) ⊎ (port ≡ 0)) × ((is_missing address || port == 0) ≡ true))
      ⊎ (((name : List ℕ) × (address ≡ some name))
          × (port ≢ 0)
          × ((is_missing address || port == 0) ≡ false))
named_cases none port = inl (inl refl, refl)
named_cases (some name) port = elim (Bool-cases (port == 0)) [
  | inl e ↦ inl (inr (ground arith), e)
  | inr e ↦ inr ((name, refl), ground arith, e)
]

-- A queue of at least two places can be had.
queue_init :
    (item_size : ℕ) (mode : MemoryMode) (policy : FullPolicy) (capacity max_bytes : ℕ)
    → 2 ≤ capacity
    → (q : Queue) × (Ops.init item_size true mode policy capacity max_bytes ≡ some q)
unfolding Ops.init
queue_init item_size fixed policy capacity max_bytes l =
    (_, if_false {b = ltb capacity 2} _ _ (ground arith))
queue_init item_size dynamic policy capacity max_bytes l = (_, refl)

capacities :
    (k : ClientConfig)
    → (8 ≤ (with_defaults k).send_queue_capacity) × (8 ≤ (with_defaults k).recv_queue_capacity)
unfolding with_defaults
capacities k = ground arith

module _ (item_size : ℕ) (config : ClientConfig)
    (small : (with_defaults config).window_size < 2 ^ 31) where
  abbrev Made : Type 0
  Made =
      (c : Client) × (create item_size all_memory config ≡ some c)
      × IsClient c
      × (c.state ≡ disconnected)
      × (c.running ≡ false)
      × (c.config ≡ with_defaults config)

  made :
      (is_missing config.server_address || config.server_port == 0) ≡ false
      → bad_capacity (with_defaults config).window_size ≡ false
      → Made
  unfolding create Send.init Recv.init
  made named good =
      let k = with_defaults config in
      let l = capacities config in
      let q1 =
        queue_init item_size k.memory_mode k.queue_full_policy k.send_queue_capacity
          k.max_send_memory_bytes (omega arith) in
      let q2 =
        queue_init item_size k.memory_mode k.queue_full_policy k.recv_queue_capacity
          k.max_recv_memory_bytes (omega arith) in
      (
        record {
          config = k;
          sock_open = false;
          server_addr = zero_session.addr;
          worker_started = false;
          running = false;
          state = disconnected;
          session_id = 0;
          rejected = false;
          send_queue = q1.0;
          recv_queue = q2.0;
          send_win = Send.fresh k.window_size 1;
          recv_win = Recv.fresh k.window_size 1;
          rtt = default_rtt;
          last_activity_ns = 0;
          last_heartbeat_sent_ns = 0;
          last_ack_sent_ns = 0;
          ack_pending = false;
          stats = no_stats;
        },
        rw (named, q1.1, q2.1, good, ◌>>=◌) refl,
        record {
          send_valid = fresh-IsSendWindow k.window_size 1 good small (omega arith);
          recv_valid = fresh-IsRecvWindow k.window_size 1 good small (omega arith);
          rtt_valid = default_rtt-IsValid;
        },
        refl,
        refl,
        refl,
      )

  no_name :
      (is_missing config.server_address || config.server_port == 0) ≡ true
      → create item_size all_memory config ≡ none
  unfolding create
  no_name e = rw e refl

  bad_window :
      (is_missing config.server_address || config.server_port == 0) ≡ false
      → bad_capacity (with_defaults config).window_size ≡ true
      → create item_size all_memory config ≡ none
  unfolding create Send.init
  bad_window named bad =
      let k = with_defaults config in
      let l = capacities config in
      let q1 =
        queue_init item_size k.memory_mode k.queue_full_policy k.send_queue_capacity
          k.max_send_memory_bytes (omega arith) in
      let q2 =
        queue_init item_size k.memory_mode k.queue_full_policy k.recv_queue_capacity
          k.max_recv_memory_bytes (omega arith) in
      rw (named, q1.1, q2.1, bad, ◌>>=◌) refl

pub create_lem :
    (item_size : ℕ) (config : ClientConfig)
    → (with_defaults config).window_size < 2 ^ 31
    → (Refused config × (create item_size all_memory config ≡ none))
      ⊎ (Accepted config
          × ((c : Client) × (create item_size all_memory config ≡ some c)
              × IsClient c
              × (c.state ≡ disconnected)
              × (c.running ≡ false)
              × (c.config ≡ with_defaults config)))
create_lem item_size config small =
    let size = (with_defaults config).window_size in
    elim (named_cases config.server_address config.server_port) [
      | inl (missing, e) ↦ inl (inl missing, no_name item_size config small e)
      | inr (name, port, e) ↦ elim (Bool-cases (bad_capacity size)) [
        | inl bad ↦ inl (
          inr (λ v. let good = IsCapacity-bad_capacity size v in ground arith),
          bad_window item_size config small e bad,
        )
        | inr good ↦ inr (
          (name, port, bad_capacity-IsCapacity size good small),
          made item_size config small e good,
        )
      ]
    ]
