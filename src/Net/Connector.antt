-- ===== src/Net/Connector.antt =====
-- net/connector.cc: one connection with its two buffers. The system calls on the descriptor enter
-- as what they return.
pub mod Stream
pub mod Buffers
mod Tests
use sails.Prelude.Ints.{is_positive_int}
use sails.Prelude.{
  ℕ, zero, suc, ◌%◌, ◌^◌, Bool, true, false, ◌&&◌, not, Option, none, some, List, [], ◌∷◌, ◌++◌,
  ltb, leb, ◌==◌, if◌then◌else◌, length, take,
}
use sails.Prelude.Int.{ℤ, pos, negsuc, is_positive}
use sails.Base.Buffer
use sails.Base.Buffer.{Buffer, new_buffer, readable, unread}

pub record Connector : Type 0 where
  pub id : ℕ
  pub ip : List ℕ
  pub port : ℕ
  pub listen_fd : ℤ
  pub connect_fd : ℤ
  pub is_closed : Bool
  pub is_timeout : Bool
  pub last_refresh_time : ℕ
  pub timeout : ℕ
  -- whether `timeoutCB` is set
  pub has_timeout_cb : Bool
  -- the union `ExtData`, by its `u64`
  pub ext_data : ℕ
  pub in_buf : Buffer
  pub out_buf : Buffer

-- The constructor for an accepted descriptor. It sets neither `lastRefreshTime`, `timeout` nor
-- `data`: what the memory held is the last three arguments.
unfoldable pub new_connector : ℤ → ℕ → ℕ → ℕ → Connector
new_connector fd last_refresh_time timeout ext_data = record {
  id = 0;
  ip = [];
  port = 0;
  listen_fd = pos 0;
  connect_fd = fd;
  is_closed = false;
  is_timeout = false;
  last_refresh_time = last_refresh_time;
  timeout = timeout;
  has_timeout_cb = false;
  ext_data = ext_data;
  in_buf = new_buffer;
  out_buf = new_buffer;
}

-- Whether the timeout callback is called, and the connection afterwards.
unfoldable pub set_timeout : Connector → Bool × Connector
set_timeout c = (c.has_timeout_cb, record c { is_timeout = true })

-- The port is kept in 16 bits.
unfoldable pub set_port : Connector → ℕ → Connector
set_port c port = record c { port = port % 2 ^ 16 }

abbrev pub is_open : Connector → Bool
is_open c = not c.is_closed && is_positive c.connect_fd

-- Whether the descriptor is closed now, and the connection afterwards.
pub close : Connector → Bool × Connector
close c = if is_open c then (true, record c { is_closed = true }) else (false, c)

abbrev pub read_bytes : ℕ
read_bytes = 512

-- `read`: the count, `none` for -1; without an open descriptor nothing is read.
pub read : Connector → Option (List ℕ) → Option (Option ℕ × Connector)
read c delivered =
    if is_open c
    then elim (Buffer.read_fd c.in_buf read_bytes delivered) [
      | none ↦ none
      | some (n, b) ↦ some (n, record c { in_buf = b })
    ]
    else some (some 0, c)

pub retrieve : Connector → ℕ → Connector
retrieve c len = record c { in_buf = Buffer.retrieve c.in_buf len }

-- `write` only fills the buffer; it returns 0 in every case.
pub write : Connector → List ℕ → Option Connector
write c [] = some c
write c (x ∷ xs) = elim (Buffer.append c.out_buf (x ∷ xs)) [
  | none ↦ none
  | some b ↦ some (record c { out_buf = b })
]

-- `send`: what `::write` returns is the count of bytes it took, `none` for -1. The result is the
-- return value, the bytes that went to the descriptor, and the connection.
pub send : Connector → Option ℕ → Option ℕ × List ℕ × Connector
send c accepted =
    if is_open c
    then if is_positive_int (readable c.out_buf)
      then elim accepted [
        | none ↦ (none, [], c)
        | some n ↦ (
          some n,
          take n (unread c.out_buf),
          if ltb 0 n then record c { out_buf = Buffer.retrieve c.out_buf n } else c,
        )
      ]
      else (some 0, [], c)
    else (some 0, [], record c { out_buf = Buffer.retrieve_all c.out_buf })
