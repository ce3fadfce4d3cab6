-- ===== src/Session.antt =====
-- The server's table of sessions: src/core/rel4u_session.c.
pub mod Inv
pub mod Allocate
pub mod Lookup
mod Tests
use mathlib.Core.Option
use rel4u.Prelude.{
  ℕ, zero, suc, ◌+◌, ◌-◌, ◌^◌, Bool, true, false, not, ◌&&◌, ◌||◌, List, [], ◌∷◌, map, Option, none,
  some, ltb, leb, ◌==◌, if◌then◌else◌, get_or, set, ◌>>=◌,
}
use rel4u.Seq.{add32, sub32}
use rel4u.Net.{Addr, addr_equal}
use rel4u.Rtt.{Rtt, default_rto_ms, default_min_rto_ms, default_max_rto_ms}
use rel4u.Rtt
use rel4u.Stats.{Stats, no_stats}
use rel4u.Window.Index.{bad_capacity}
use rel4u.Window.Send.{SendWindow}
use rel4u.Window.Send
use rel4u.Window.Recv.{RecvWindow}
use rel4u.Window.Recv

-- `rel4u_conn_state_t`.
pub data ConnState : Type 0 where
  disconnected : ConnState
  connecting : ConnState
  connected : ConnState
  disconnecting : ConnState

-- `rel4u_max_clients_policy_t`.
pub data MaxClientsPolicy : Type 0 where
  reject : MaxClientsPolicy
  drop_old : MaxClientsPolicy

-- `rel4u_client_session_t`.
pub record ClientSession : Type 0 where
  pub client_id : ℕ
  pub session_id : ℕ
  pub addr : Addr
  pub state : ConnState
  pub send_win : SendWindow
  pub recv_win : RecvWindow
  pub rtt : Rtt
  pub stats : Stats
  pub last_activity_ns : ℕ
  pub last_heartbeat_sent_ns : ℕ
  pub last_ack_sent_ns : ℕ
  pub ack_pending : Bool

-- `rel4u_session_table_t`. `sessions` is empty for a null pointer; a pointer to a session is its index.
pub record SessionTable : Type 0 where
  pub sessions : List ClientSession
  pub max_clients : ℕ
  pub active_count : ℕ
  pub full_policy : MaxClientsPolicy

-- `s->state != REL4U_STATE_DISCONNECTED`.
abbrev pub is_active : ClientSession → Bool
is_active s = elim s.state [ disconnected ↦ false | _ ↦ true ]

-- A session that `calloc` cleared.
abbrev pub zero_session : ClientSession
zero_session = record {
  client_id = 0;
  session_id = 0;
  addr = record { ss_family = 0; sin_port = 0; sin_addr = 0; sin6_port = 0; sin6_addr = [] };
  state = disconnected;
  send_win = record {
    slots = [];
    capacity = 0;
    head_seq = 0;
    next_seq = 0;
    next_unrel_seq = 0;
    in_flight = 0;
  };
  recv_win = record {
    slots = [];
    capacity = 0;
    expected_seq = 0;
    highest_unrel_seq = 0;
    has_highest_unrel = false;
  };
  rtt = record {
    srtt_ms = 0;
    rttvar_ms = 0;
    rto_ms = 0;
    min_rto_ms = 0;
    max_rto_ms = 0;
    has_sample = false;
  };
  stats = no_stats;
  last_activity_ns = 0;
  last_heartbeat_sent_ns = 0;
  last_ack_sent_ns = 0;
  ack_pending = false;
}

abbrev pub default_rtt : Rtt
default_rtt = Rtt.init default_rto_ms default_min_rto_ms default_max_rto_ms

-- The loop of `rel4u_session_table_init` from index `i` on, over `n` sessions: `none` where a window
-- cannot be set up; `mem` tells whether `calloc` returns memory for the windows of a session.
unfoldable pub init_loop : (ℕ → Bool × Bool) → ℕ → ℕ → ℕ → Option (List ClientSession)
init_loop mem window_size i zero = some []
init_loop mem window_size i (suc n) = do
  send_win ← Send.init (mem i).0 window_size 1
  recv_win ← Recv.init (mem i).1 window_size 1
  rest ← init_loop mem window_size (i + 1) n
  some (
      record zero_session {
        client_id = i;
        send_win = send_win;
        recv_win = recv_win;
        rtt = default_rtt;
      }
      ∷ rest)

abbrev pub empty_table : ℕ → MaxClientsPolicy → List ClientSession → SessionTable
empty_table max_clients policy sessions = record {
  sessions = sessions;
  max_clients = max_clients;
  active_count = 0;
  full_policy = policy;
}

-- `rel4u_session_table_init` (`none` for -1); `mem_table` tells whether `calloc` returns memory for the
-- table.
unfoldable pub table_init :
    Bool → (ℕ → Bool × Bool) → ℕ → MaxClientsPolicy → ℕ → Option SessionTable
unfolding bad_capacity
table_init mem_table mem max_clients policy window_size =
    if max_clients == 0 || bad_capacity window_size
    then none
    else if mem_table
    then Option.map (empty_table max_clients policy) (init_loop mem window_size 0 max_clients)
    else none

-- `rel4u_session_table_destroy`.
unfoldable pub table_destroy : SessionTable → SessionTable
table_destroy t = record t { sessions = []; max_clients = 0; active_count = 0 }

-- The index, from `i` on, of the first session that passes a test.
abbrev pub first : (ClientSession → Bool) → ℕ → List ClientSession → Option ℕ
first p i [] = none
first p i (s ∷ ss) = let rest = first p (i + 1) ss in if p s then some i else rest

-- `rel4u_session_find_by_addr`.
unfoldable pub find_by_addr : ℕ → ℕ → SessionTable → Addr → Option ℕ
find_by_addr af_inet af_inet6 t addr =
    first (λ s. is_active s && addr_equal af_inet af_inet6 s.addr addr) 0 t.sessions

-- `rel4u_session_find_by_id`.
unfoldable pub find_by_id : SessionTable → ℕ → Option ℕ
find_by_id t client_id =
    if leb t.max_clients client_id
    then none
    else if is_active (get_or t.sessions client_id zero_session)
    then some client_id
    else none

-- The loop that looks for the least recently active session, from index `i` on.
unfoldable pub oldest_loop : List ClientSession → ℕ → ℕ → Option ℕ → Option ℕ
oldest_loop [] i oldest_time slot_idx = slot_idx
oldest_loop (s ∷ ss) i oldest_time slot_idx =
    let older = is_active s && ltb s.last_activity_ns oldest_time in
    oldest_loop ss (i + 1) (if older then s.last_activity_ns else oldest_time)
      (if older then some i else slot_idx)

-- What a full table does, with the least recently active session if one was found.
unfoldable pub victim : MaxClientsPolicy → Option ℕ → Option ℕ × Bool
victim reject lru = (none, false)
victim drop_old none = (none, false)
victim drop_old (some i) = (some i, true)

-- The slot that `rel4u_session_allocate` gives to a client, and whether its session is evicted.
unfoldable pub choose_slot : SessionTable → Option ℕ × Bool
choose_slot t =
    if ltb t.active_count t.max_clients
    then (first (λ s. not (is_active s)) 0 t.sessions, false)
    else victim t.full_policy (oldest_loop t.sessions 0 (2 ^ 64 - 1) none)

-- What a slot becomes for a client; `mem` tells whether `calloc` returns memory for its windows. A
-- window that cannot be set up is left destroyed.
unfoldable pub admitted : Bool × Bool → ClientSession → Addr → ℕ → ClientSession
admitted mem s addr session_id =
    let win_cap = if s.send_win.capacity == 0 then 64 else s.send_win.capacity in
    record s {
      session_id = session_id;
      addr = addr;
      state = connecting;
      ack_pending = false;
      stats = no_stats;
      send_win = elim (Send.init mem.0 win_cap 1) [ none ↦ Send.destroy s.send_win | some w ↦ w ];
      recv_win = elim (Recv.init mem.1 win_cap 1) [ none ↦ Recv.destroy s.recv_win | some w ↦ w ];
      rtt = default_rtt;
    }

abbrev pub put_session : SessionTable → ℕ → ClientSession → SessionTable
put_session t i s = record t { sessions = set t.sessions i s }

abbrev pub session_at : SessionTable → ℕ → ClientSession
session_at t i = get_or t.sessions i zero_session

-- The rest of `rel4u_session_allocate`, for a slot and whether it is evicted.
unfoldable pub allocate_at :
    Bool × Bool → SessionTable → Addr → ℕ → Option ℕ × Bool → Option ℕ × SessionTable × Bool
allocate_at mem t addr session_id (none, evicted) = (none, t, evicted)
allocate_at mem t addr session_id (some i, evicted) = (
  some i,
  record (put_session t i (admitted mem (session_at t i) addr session_id)) {
    active_count = add32 (if evicted then sub32 t.active_count 1 else t.active_count) 1;
  },
  evicted,
)

-- `rel4u_session_allocate`: the session, the table, and `*out_was_evicted`.
unfoldable pub allocate : Bool × Bool → SessionTable → Addr → ℕ → Option ℕ × SessionTable × Bool
allocate mem t addr session_id = allocate_at mem t addr session_id (choose_slot t)

-- `rel4u_session_touch_lru`.
unfoldable pub touch_lru : SessionTable → ℕ → ℕ → SessionTable
touch_lru t i now_ns = put_session t i (record (session_at t i) { last_activity_ns = now_ns })

-- `rel4u_session_free`.
unfoldable pub free : SessionTable → ℕ → SessionTable
free t i =
    if is_active (session_at t i)
    then record (put_session t i
        (record (session_at t i) { state = disconnected; session_id = 0 })) {
          active_count = if ltb 0 t.active_count then t.active_count - 1 else t.active_count;
        }
    else t
