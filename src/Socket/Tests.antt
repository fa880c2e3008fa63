-- ===== src/Socket/Tests.antt =====
-- The sockets of skynet-src/socket_server.c at concrete inputs, over a system that writes three bytes
-- at most at a time and is interrupted some times.
use skynet_note.Base.{
  ℕ, zero, suc, ◌≤◌, ◌<◌, ◌≡◌, ◌≢◌, refl, sym, ap, ◌∙◌, none, List, [], ◌∷◌, ◌++◌, take, length,
  leb, ◌==◌, if◌then◌else◌, true, false, arith, inl,
}
use skynet_note.Base.Run.{done, aborted}
use skynet_note.Socket.{
  reserve, connected, is_type, Socket, SocketMessage, null, Errno, eintr, Io, failed, moved,
  connects, Os, Outcome, Server, Served,
}
use skynet_note.Socket.Buffers.{send_buffer, send_socket}
use skynet_note.Socket.Stream.{Lawful, total}
use skynet_note.Socket.Flush.{Ready, Delivers, send_buffer_lem}
use skynet_note.Socket.Queueing.{Accepts}
use skynet_note.Socket.Send.{Open, send_socket_lem}
use skynet_note.Socket.Requests.{reserve_id, close_socket}
use skynet_note.Socket.Events.{send_request, ctrl_cmd, handle_event}
use skynet_note.Socket.Invariant.{SlotOk}
use skynet_note.Socket.Commands.{Sendable, AllOk, ctrl_cmd-AllOk}
use skynet_note.Socket.Handled.{Pollable, handle_event-AllOk}
use skynet_note.Socket.Ids.{Allocates, reserve_id_lem}
use skynet_note.Socket.Stale.{close_socket-aborts}

-- The interruptions to come, and what has been written
record Wire : Type 0 where
  signals : ℕ
  sent : ℕ → List ℕ

abbrev at_most_three : List ℕ → ℕ
at_most_three bytes = if leb (length bytes) 3 then length bytes else 3

abbrev wire_write : ℕ → (ℕ → List ℕ) → ℕ → List ℕ → Io ℕ × Wire
wire_write (suc k) sent fd bytes = (failed eintr, record { signals = k; sent = sent })
wire_write zero sent fd bytes = (
  moved (at_most_three bytes),
  record {
    signals = 0;
    sent = λ g. if g == fd then sent g ++ take (at_most_three bytes) bytes else sent g;
  },
)

abbrev wire : Os Wire
wire = record {
  write = λ w fd bytes. wire_write w.signals w.sent fd bytes;
  read = λ w fd size. (moved [], w);
  close = λ w fd. w;
  epoll_ctl = λ w op fd. (false, w);
  fcntl = λ w fd. w;
  setsockopt = λ w fd. w;
  so_error = λ w fd. (false, w);
  accept = λ w fd. (none, w);
  peer = λ w fd. (null, w);
  getaddrinfo = λ w host port. (none, w);
  socket = λ w address. (none, w);
  connect = λ w sock address. (connects, w);
  address_text = λ address. null;
}

failed_moved : (x : Errno) (n : ℕ) → failed x ≢ moved n
failed_moved x n e = cc

moved_number : (m n : ℕ) → moved m ≡ moved n → m ≡ n
moved_number m n e = cc

wire_moved :
    (k : ℕ) (sent : ℕ → List ℕ) (fd : ℕ) (bytes : List ℕ) (n : ℕ)
    → (wire_write k sent fd bytes).0 ≡ moved n
    → (n ≤ length bytes)
      × ((wire_write k sent fd bytes).1.sent fd ≡ sent fd ++ take n bytes)
      × ((wire_write k sent fd bytes).1.signals ≤ k)
wire_moved (suc k) sent fd bytes n e = absurd (failed_moved eintr n e)
wire_moved zero sent fd bytes n e =
    let same : at_most_three bytes ≡ n = moved_number (at_most_three bytes) n e in
    (ground (arith, same), ground (arith) ∙ ap (λ k. sent fd ++ take k bytes) same, omega arith)

wire_failed :
    (k : ℕ) (sent : ℕ → List ℕ) (fd : ℕ) (bytes : List ℕ) (x : Errno)
    → (wire_write k sent fd bytes).0 ≡ failed x
    → ((wire_write k sent fd bytes).1.sent fd ≡ sent fd)
      × ((wire_write k sent fd bytes).1.signals ≤ k)
wire_failed (suc k) sent fd bytes x e = (refl, omega arith)
wire_failed zero sent fd bytes x e = absurd (failed_moved x (at_most_three bytes) (sym e))

wire_interrupted :
    (k : ℕ) (sent : ℕ → List ℕ) (fd : ℕ) (bytes : List ℕ)
    → (wire_write k sent fd bytes).0 ≡ failed eintr
    → (wire_write k sent fd bytes).1.signals < k
wire_interrupted (suc k) sent fd bytes e = omega arith
wire_interrupted zero sent fd bytes e = absurd (failed_moved eintr (at_most_three bytes) (sym e))

abbrev wire_laws : Lawful wire
wire_laws = record {
  output = λ w fd. w.sent fd;
  signals = λ w. w.signals;
  write_moved = λ w. wire_moved w.signals w.sent;
  write_failed = λ w. wire_failed w.signals w.sent;
  write_interrupted = λ w. wire_interrupted w.signals w.sent;
  ctl_output = λ w op sock fd. refl;
  close_output = λ w sock fd. refl;
}

abbrev idle_wire : Wire
idle_wire = record { signals = 2; sent = λ fd. [] }

abbrev no_message : SocketMessage
no_message = record { id = 0; opaque = 0; ud = 0; payload = null }

-- A socket that has sent two bytes of a package, with a package of each priority behind it
abbrev busy_socket : Socket
busy_socket = record {
  fd = 9;
  id = 5;
  type = connected;
  size = 64;
  wb_size = 9;
  opaque = 1;
  high =
      record { ptr = 2; sz = 4; buffer = 1 ∷ 2 ∷ 3 ∷ 4 ∷ 5 ∷ 6 ∷ [] }
      ∷ record { ptr = 0; sz = 2; buffer = 7 ∷ 8 ∷ [] }
      ∷ [];
  low = record { ptr = 0; sz = 3; buffer = 9 ∷ 10 ∷ 11 ∷ [] } ∷ [];
}

busy_socket-Ready : Ready busy_socket
unfolding is_type total
busy_socket-Ready = record {
  not_invalid = refl;
  not_reserve = refl;
  high_whole = (refl, (refl, tt));
  low_whole = (refl, tt);
  high_tail = (refl, tt);
  low_untouched = (refl, tt);
  size = refl;
}

busy_socket-Open : Open busy_socket 5
unfolding is_type
busy_socket-Open = record {
  same = refl;
  not_halfclose = refl;
  not_paccept = refl;
  not_plisten = refl;
  not_listening = refl;
}

send_buffer_lem_example :
    (o : Outcome Wire) × (send_buffer wire 6 busy_socket idle_wire no_message ≡ done o)
    × Delivers wire wire_laws busy_socket idle_wire o
send_buffer_lem_example =
    send_buffer_lem wire wire_laws 6 busy_socket idle_wire no_message busy_socket-Ready
      (omega arith) (omega arith)

send_socket_lem_example :
    (o : Outcome Wire) × (send_socket wire busy_socket idle_wire no_message 5 (12 ∷ 13 ∷ []) false
      ≡ done o)
    × Accepts wire wire_laws busy_socket idle_wire (12 ∷ 13 ∷ []) false o
send_socket_lem_example =
    send_socket_lem wire wire_laws busy_socket idle_wire no_message 5 (12 ∷ 13 ∷ []) false
      busy_socket-Ready busy_socket-Open

-- Every slot holds that socket.
abbrev busy_server : Server
busy_server = record { alloc_id = 5; slot = λ i. busy_socket }

busy_server-AllOk : AllOk busy_server
unfolding SlotOk
busy_server-AllOk i = busy_socket-Ready

busy_socket-Sendable : Sendable busy_socket 5
unfolding is_type
busy_socket-Sendable = record { not_plisten = refl; not_listening = refl; not_stale = inl refl }

ctrl_cmd-AllOk_example :
    (r : Served Wire) × (ctrl_cmd wire 6 busy_server idle_wire no_message (send_request 5 (1 ∷ []))
      ≡ done r)
    × AllOk r.server
ctrl_cmd-AllOk_example =
    ctrl_cmd-AllOk wire wire_laws 6 busy_server idle_wire no_message (send_request 5 (1 ∷ []))
      busy_server-AllOk busy_socket-Sendable (λ i. omega arith) (λ i. omega arith)

busy_socket-Pollable : Pollable busy_socket
unfolding Pollable
busy_socket-Pollable = inl refl

handle_event-AllOk_example :
    (r : Served Wire) × (handle_event wire 6 busy_server idle_wire no_message 5 true false ≡ done r)
    × AllOk r.server
handle_event-AllOk_example =
    handle_event-AllOk wire wire_laws 6 busy_server idle_wire no_message 5 true false
      busy_server-AllOk busy_socket-Pollable (omega arith) (omega arith)

reserve_id_lem_example : Allocates busy_server (reserve_id busy_server)
reserve_id_lem_example = reserve_id_lem busy_server

-- The slot is reserved again after a socket of id 5 has been closed.
abbrev reserved_socket : Socket
reserved_socket = record {
  fd = 9;
  id = 5;
  type = reserve;
  size = 64;
  wb_size = 0;
  opaque = 1;
  high = [];
  low = [];
}

close_socket-aborts_example : close_socket wire 6 reserved_socket idle_wire no_message 5 1 ≡ aborted
close_socket-aborts_example =
    close_socket-aborts wire 6 reserved_socket idle_wire no_message 1 refl refl refl
