-- ===== src/Socket.antt =====
-- The data of skynet-src/socket_server.c, and what it asks of the operating system, with the calls of
-- skynet-src/socket_epoll.h. A write buffer's `ptr` is the offset from `buffer`; a list of write
-- buffers is a list, its tail pointer the last node. Where a request names a `buffer` or an address,
-- its bytes are the value. `freeaddrinfo` and the messages to `stderr` are left out.
pub mod Buffers
pub mod Stream
pub mod Flush
pub mod Queueing
pub mod Send
pub mod Requests
pub mod Events
pub mod Invariant
pub mod Starting
pub mod Closing
pub mod Commands
pub mod Ids
pub mod Stale
pub mod Polled
pub mod Accepting
pub mod Handled
mod Tests
use skynet_note.Base.{
  ℕ, ◌+◌, ◌-◌, ◌%◌, ◌^◌, Option, none, some, List, [], ◌∷◌, Bool, true, false, take, drop, ◌==◌,
  not, if◌then◌else◌,
}

-- `MAX_SOCKET`
abbrev pub max_socket : ℕ
max_socket = 2 ^ 16

-- `MIN_READ_BUFFER`
abbrev pub min_read_buffer : ℕ
min_read_buffer = 64

-- `SOCKET_TYPE_INVALID` and the others
pub data SocketType : Type 0 where
  invalid reserve plisten listening connecting connected halfclose paccept bound : SocketType

-- The values of these constants
unfoldable pub type_number : SocketType → ℕ
type_number invalid = 0
type_number reserve = 1
type_number plisten = 2
type_number listening = 3
type_number connecting = 4
type_number connected = 5
type_number halfclose = 6
type_number paccept = 7
type_number bound = 8

-- `s->type == t`
unfoldable pub is_type : SocketType → SocketType → Bool
unfolding type_number
is_type s t = type_number s == type_number t

-- `struct write_buffer`
pub record WriteBuffer : Type 0 where
  pub ptr : ℕ
  pub sz : ℕ
  pub buffer : List ℕ

-- `struct socket`; `wb_size` is an `int64_t` that wraps.
pub record Socket : Type 0 where
  pub fd : ℕ
  pub id : ℕ
  pub type : SocketType
  pub size : ℕ
  pub wb_size : ℕ
  pub opaque : ℕ
  pub high : List WriteBuffer
  pub low : List WriteBuffer

-- `SOCKET_DATA` and the others of socket_server.h
pub data Code : Type 0 where
  socket_data socket_close socket_open socket_accept socket_error socket_exit : Code

-- What the `data` of a `struct socket_message` points to
pub data Payload : Type 0 where
  null : Payload
  text : List ℕ → Payload
  received : List ℕ → Payload

-- `struct socket_message`
pub record SocketMessage : Type 0 where
  pub id : ℕ
  pub opaque : ℕ
  pub ud : ℕ
  pub payload : Payload

-- How a `write` or a `read` on a socket ends, with `errno` where it fails
pub data Errno : Type 0 where
  eintr eagain other : Errno

pub data Io (A : Type 0) : Type 0 where
  failed : Errno → Io A
  moved : A → Io A

-- The events that a descriptor is polled for: the second argument of `epoll_ctl`
pub data EpollOp : Type 0 where
  ctl_add ctl_del : EpollOp
  ctl_mod : Bool → EpollOp

-- How a `connect` ends: at once, with EINPROGRESS, or with an error
pub data Connect : Type 0 where
  connects in_progress refused : Connect

-- The operating system, in states of type `W`. `write` gives the number of bytes, `read` the bytes;
-- `epoll_ctl` gives `true` where it fails; `fcntl` sets O_NONBLOCK, and `setsockopt` SO_KEEPALIVE;
-- `so_error` is `getsockopt` with SO_ERROR, `true` on a failure or an error; `accept` gives the
-- descriptor and the text of the peer's address, and `peer` that text, by `inet_ntop`, which may fail;
-- an address of `getaddrinfo` is a number, `address_text` its text.
pub record Os (W : Type 0) : Type 0 where
  pub write : W → ℕ → List ℕ → Io ℕ × W
  pub read : W → ℕ → ℕ → Io (List ℕ) × W
  pub close : W → ℕ → W
  pub epoll_ctl : W → EpollOp → ℕ → Bool × W
  pub fcntl : W → ℕ → W
  pub setsockopt : W → ℕ → W
  pub so_error : W → ℕ → Bool × W
  pub accept : W → ℕ → Option (ℕ × Payload) × W
  pub peer : W → ℕ → Payload × W
  pub getaddrinfo : W → List ℕ → ℕ → Option (List ℕ) × W
  pub socket : W → ℕ → Option ℕ × W
  pub connect : W → ℕ → ℕ → Connect × W
  pub address_text : ℕ → Payload

module _ {W : Type 0} (os : Os W) where
  -- `sp_add`: it returns `true` where it fails.
  unfoldable pub sp_add : W → ℕ → Bool × W
  sp_add w sock = os.epoll_ctl w ctl_add sock

  unfoldable pub sp_del : W → ℕ → W
  sp_del w sock = (os.epoll_ctl w ctl_del sock).1

  -- `sp_write` polls for writing, too, when `enable` is set.
  unfoldable pub sp_write : W → ℕ → Bool → W
  sp_write w sock enable = (os.epoll_ctl w (ctl_mod enable) sock).1

-- What a handler returns and leaves: its return value, `none` for -1, and the rest of the state.
pub record Outcome (W : Type 0) : Type 0 where
  pub code : Option Code
  pub socket : Socket
  pub message : SocketMessage
  pub world : W

-- `struct socket_server` but for its descriptors and its events. The array of slots is a function of
-- the index.
pub record Server : Type 0 where
  pub alloc_id : ℕ
  pub slot : ℕ → Socket

-- `ss->slot[i] = s`
abbrev pub put : Server → ℕ → Socket → Server
put ss i s = record ss { slot = λ j. if i == j then s else ss.slot j }

-- What a control command returns and leaves
pub record Served (W : Type 0) : Type 0 where
  pub code : Option Code
  pub server : Server
  pub message : SocketMessage
  pub world : W

-- A handler of the slot `i`, for the server
abbrev pub served : {W : Type 0} → Server → ℕ → Outcome W → Served W
served ss i o = record {
  code = o.code;
  server = put ss i o.socket;
  message = o.message;
  world = o.world;
}
