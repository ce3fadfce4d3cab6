-- ===== src/Endpoint/Config.antt =====
-- What the calls on clients and servers share: the error codes and limits of include/rel4u.h, the
-- defaults of a configuration, and the ways that messages are taken and handed out.
use rel4u.Prelude.{
  ℕ, ◌-◌, ◌*◌, ◌%◌, ◌^◌, Bool, true, false, ◌&&◌, List, [], Option, none, some, ltb, leb, ◌==◌,
  if◌then◌else◌, memcpy,
}
use rel4u.Prelude.Int.{ℤ, pos, negsuc}
use rel4u.Packet.{header_len}
use rel4u.Stats.{Stats}
use rel4u.Mpmc.Defs.{MemoryMode, fixed, dynamic, Item, Queue, add64}
use rel4u.Mpmc.Ops.{size, dropped_count}
use rel4u.Mpmc.Ops
use rel4u.Mpmc.Wait.{Waited, popped, gave_up, blocked}

-- The codes of include/rel4u.h.
abbrev pub err_invalid_param : ℤ
err_invalid_param = negsuc 0

abbrev pub err_socket : ℤ
err_socket = negsuc 2

abbrev pub err_queue_full : ℤ
err_queue_full = negsuc 3

abbrev pub err_queue_empty : ℤ
err_queue_empty = negsuc 4

abbrev pub err_timeout : ℤ
err_timeout = negsuc 5

abbrev pub err_not_connected : ℤ
err_not_connected = negsuc 6

abbrev pub err_msg_too_large : ℤ
err_msg_too_large = negsuc 7

abbrev pub err_server_full : ℤ
err_server_full = negsuc 8

abbrev pub err_client_not_found : ℤ
err_client_not_found = negsuc 9

abbrev pub err_system : ℤ
err_system = negsuc 10

-- `REL4U_MAX_PAYLOAD`.
unfoldable pub max_payload : ℕ → ℕ
max_payload mtu = if ltb header_len mtu then mtu - header_len else 0

-- `if (x < least) x = default;`
abbrev pub or_default : ℕ → ℕ → ℕ → ℕ
or_default least default x = if ltb x least then default else x

abbrev pub is_dynamic : MemoryMode → Bool
is_dynamic fixed = false
is_dynamic dynamic = true

-- `if (memory_mode == REL4U_MEM_DYNAMIC && limit == 0) limit = 1024 * 1024;`
abbrev pub default_limit : MemoryMode → ℕ → ℕ
default_limit mode limit = if is_dynamic mode && limit == 0 then 1024 * 1024 else limit

-- The item that a call to send fills in.
unfoldable pub message : ℕ → ℕ → List ℕ → ℕ → Item
message client_id mode payload len = record {
  client_id = client_id;
  mode = mode % 2 ^ 8;
  len = len % 2 ^ 16;
  bytes = memcpy [] payload len;
}

-- What a call to receive returns.
pub record Received : Type 0 where
  pub code : ℤ
  pub client_id : ℕ
  pub bytes : List ℕ

-- What a call to receive makes of the wait: the queue and its answer, or `none` while it waits. The
-- message is cut to the caller's buffer.
unfoldable pub received : ℕ → Bool → Waited → Option (Queue × Received)
received buffer_size is_try (popped q item) =
    let copy_len = if leb item.len buffer_size then item.len else buffer_size in
    some (
      q,
      record { code = pos 0; client_id = item.client_id; bytes = memcpy [] item.bytes copy_len },
    )
received buffer_size is_try (gave_up q) = some (
  q,
  record { code = if is_try then err_queue_empty else err_timeout; client_id = 0; bytes = [] },
)
received buffer_size is_try blocked = none

-- What both report on their queues.
unfoldable pub queue_stats : Stats → Queue → Queue → Stats
queue_stats st send_queue recv_queue = record st {
  packets_dropped_queue_full = add64 (dropped_count send_queue) (dropped_count recv_queue);
  send_queue_occupancy = size send_queue % 2 ^ 32;
  recv_queue_occupancy = size recv_queue % 2 ^ 32;
  send_queue_bytes = Ops.bytes send_queue;
  recv_queue_bytes = Ops.bytes recv_queue;
}

-- The counter that a call to send updates when the queue refuses the message.
unfoldable pub count_dropped : Stats → Queue → Queue → Stats
count_dropped st send_queue recv_queue = record st {
  packets_dropped_queue_full = add64 (dropped_count send_queue) (dropped_count recv_queue);
}
