-- ===== src/Socket/Events.antt =====
-- What skynet-src/socket_server.c does when a socket is opened, when a control command is read, and
-- when `socket_server_poll` finds an event: its `switch`. The loop around that is not modelled, nor is
-- the pipe: a request is the value that the reads of `ctrl_cmd` give, and its id is not negative.
use skynet_note.Base.{
  ℕ, ◌*◌, ◌/◌, ◌%◌, ◌^◌, Option, none, some, List, [], ◌∷◌, Bool, true, false, ◌&&◌, ◌==◌, ltb,
  length, if◌then◌else◌,
}
use skynet_note.Base.Run.{Run, done, ◌>>=◌}
use skynet_note.Socket.{
  max_socket, min_read_buffer, invalid, listening, connecting, connected, halfclose, paccept,
  is_type, Socket, socket_data, socket_close, socket_open, socket_accept, socket_error, socket_exit,
  Payload, null, received, SocketMessage, eintr, eagain, other, failed, moved, Connect, connects,
  in_progress, refused, Os, sp_write, Outcome, Server, Served, served,
}
use skynet_note.Socket.Buffers.{close_with, send_buffer, send_socket}
use skynet_note.Socket.Requests.{
  reserve_id, new_fd, listen_socket, bind_socket, start_socket, close_socket,
}

-- The requests that the other threads write to the pipe: their letter and their package, or a letter
-- that stands for none of them
pub data Request : Type 0 where
  start_request : ℕ → ℕ → Request
  bind_request : ℕ → ℕ → ℕ → Request
  listen_request : ℕ → ℕ → ℕ → Request
  close_request : ℕ → ℕ → Request
  open_request : ℕ → ℕ → ℕ → List ℕ → Request
  exit_request : Request
  send_request : ℕ → List ℕ → Request
  send_low_request : ℕ → List ℕ → Request
  unknown_request : ℕ → Request

-- The size of the next read, after one of `n` bytes
unfoldable pub next_size : ℕ → ℕ → ℕ
next_size size n =
    if n == size
    then size * 2 % 2 ^ 32
    else if ltb min_read_buffer size && ltb (n * 2) size
    then size / 2
    else size

module _ {W : Type 0} (os : Os W) where
  -- The loop of `open_socket`: the first address to which a connection is made or begun
  unfoldable pub connect_any : Bool → List ℕ → W → Option (ℕ × ℕ × Connect) × W
  connect_any blocking [] w = (none, w)
  connect_any blocking (address ∷ list) w =
      let made = os.socket w address in
      elim (made.0) [
        | none ↦ connect_any blocking list made.1
        | some sock ↦
            let alive = os.setsockopt made.1 sock in
            let before = if blocking then alive else os.fcntl alive sock in
            let r = os.connect before sock address in
            let after = if blocking then os.fcntl r.1 sock else r.1 in
            elim (r.0) [
              | refused ↦ connect_any blocking list (os.close r.1 sock)
              | in_progress ↦ (some (sock, address, in_progress), after)
              | connects ↦ (some (sock, address, connects), after)
            ]
      ]

  -- The label `_failed` of `open_socket`
  abbrev pub open_failed : Socket → W → SocketMessage → Outcome W
  open_failed s w told = record {
    code = some socket_error;
    socket = record s { type = invalid };
    world = w;
    message = told;
  }

  -- The rest of `open_socket` after `new_fd`, for the connection found
  unfoldable pub open_made : SocketMessage → ℕ → ℕ → Connect → Bool × Socket × W → Outcome W
  unfolding sp_write
  open_made told sock address how (false, s, w) = open_failed s (os.close w sock) told
  open_made told sock address connects (true, s, w) = record {
    code = some socket_open;
    socket = record s { type = connected };
    world = w;
    message = record told { payload = os.address_text address };
  }
  open_made told sock address in_progress (true, s, w) = record {
    code = none;
    socket = record s { type = connecting };
    world = sp_write os w sock true;
    message = told;
  }
  open_made told sock address refused (true, s, w) = open_failed s w told

  unfoldable pub open_found : Socket → W → SocketMessage → ℕ → ℕ → ℕ → ℕ → Connect → Run (Outcome W)
  open_found s w told id opaque sock address how =
      new_fd os s w id sock opaque true >>= λ r. done (open_made told sock address how r)

  -- `open_socket`
  unfoldable pub open_socket :
      Socket → W → SocketMessage → ℕ → ℕ → ℕ → List ℕ → Bool → Run (Outcome W)
  open_socket s w result id port opaque host blocking =
      let told : SocketMessage = record { id = id; opaque = opaque; ud = 0; payload = null } in
      let found = os.getaddrinfo w host port in
      elim (found.0) [
        | none ↦ done (open_failed s found.1 told)
        | some list ↦
            let r = connect_any blocking list found.1 in
            elim (r.0) [
              | none ↦ done (open_failed s r.1 told)
              | some (sock, address, how) ↦ open_found s r.1 told id opaque sock address how
            ]
      ]

  -- `forward_message`
  unfoldable pub forward_message : Socket → W → SocketMessage → Run (Outcome W)
  forward_message s w result =
      let r = os.read w s.fd s.size in
      let ignored : Outcome W = record { code = none; socket = s; world = r.1; message = result } in
      elim (r.0) [
        | failed eintr ↦ done ignored
        | failed eagain ↦ done ignored
        | failed other ↦ close_with os socket_error s r.1 result
        | moved [] ↦ close_with os socket_close s r.1 result
        | moved (b ∷ bytes) ↦
            if is_type s.type halfclose
            then done ignored
            else done (record {
              code = some socket_data;
              socket = record s { size = next_size s.size (length (b ∷ bytes)) };
              world = r.1;
              message = record {
                id = s.id;
                opaque = s.opaque;
                ud = length (b ∷ bytes);
                payload = received (b ∷ bytes);
              };
            })
      ]

  -- `report_connect`
  unfoldable pub report_connect : Socket → W → SocketMessage → Run (Outcome W)
  report_connect s w result =
      let r = os.so_error w s.fd in
      let told = os.peer (sp_write os r.1 s.fd false) s.fd in
      if r.0
      then close_with os socket_error s r.1 result
      else done (record {
        code = some socket_open;
        socket = record s { type = connected };
        world = told.1;
        message = record { id = s.id; opaque = s.opaque; ud = 0; payload = told.0 };
      })

  -- `report_accept` for the listening socket `s`, after `new_fd`
  unfoldable pub accept_made :
      Socket → SocketMessage → ℕ → ℕ → Payload → Bool × Socket × W → Outcome W
  accept_made s result id client_fd address (true, ns, w) = record {
    code = some socket_accept;
    socket = record ns { type = paccept };
    world = w;
    message = record { id = s.id; opaque = s.opaque; ud = id; payload = address };
  }
  accept_made s result id client_fd address (false, ns, w) = record {
    code = none;
    socket = ns;
    world = os.close w client_fd;
    message = result;
  }

  -- A handler of one slot in the server
  abbrev pub at_slot : Server → ℕ → Run (Outcome W) → Run (Served W)
  at_slot ss id run = run >>= λ o. done (served ss (id % max_socket) o)

  -- `report_accept` for the new connection and its id
  unfoldable pub accept_at : Server → ℕ → Socket → W → SocketMessage → ℕ → Payload → Run (Served W)
  accept_at ss id s w result client_fd address = at_slot ss id (
      new_fd os (ss.slot (id % max_socket)) (os.fcntl (os.setsockopt w client_fd) client_fd) id
        client_fd s.opaque false
      >>= λ r. done (accept_made s result id client_fd address r))

  -- `report_accept`; the code is that of its caller.
  unfoldable pub report_accept : Server → Socket → W → SocketMessage → Run (Served W)
  report_accept ss s w result =
      let r = os.accept w s.fd in
      let ignored : Served W = record { code = none; server = ss; world = r.1; message = result } in
      elim (r.0) [
        | none ↦ done ignored
        | some (client_fd, address) ↦
            let reserved = reserve_id ss in
            elim (reserved.0) [
              | none ↦ done (record ignored { server = reserved.1; world = os.close r.1 client_fd })
              | some id ↦ accept_at reserved.1 id s r.1 result client_fd address
            ]
      ]

  -- The `switch` of `ctrl_cmd`, for the request read from the pipe
  unfoldable pub ctrl_cmd : ℕ → Server → W → SocketMessage → Request → Run (Served W)
  ctrl_cmd fuel ss w result (start_request id opaque) =
      at_slot ss id (done (start_socket os (ss.slot (id % max_socket)) w result id opaque))
  ctrl_cmd fuel ss w result (bind_request id fd opaque) =
      at_slot ss id (bind_socket os (ss.slot (id % max_socket)) w result id fd opaque)
  ctrl_cmd fuel ss w result (listen_request id fd opaque) =
      at_slot ss id (listen_socket os (ss.slot (id % max_socket)) w result id fd opaque)
  ctrl_cmd fuel ss w result (close_request id opaque) =
      at_slot ss id (close_socket os fuel (ss.slot (id % max_socket)) w result id opaque)
  ctrl_cmd fuel ss w result (open_request id port opaque host) =
      at_slot ss id (open_socket (ss.slot (id % max_socket)) w result id port opaque host false)
  ctrl_cmd fuel ss w result exit_request = done (record {
    code = some socket_exit;
    server = ss;
    world = w;
    message = record { id = 0; opaque = 0; ud = 0; payload = null };
  })
  ctrl_cmd fuel ss w result (send_request id buffer) =
      at_slot ss id (send_socket os (ss.slot (id % max_socket)) w result id buffer false)
  ctrl_cmd fuel ss w result (send_low_request id buffer) =
      at_slot ss id (send_socket os (ss.slot (id % max_socket)) w result id buffer true)
  ctrl_cmd fuel ss w result (unknown_request letter) =
      done (record { code = none; server = ss; world = w; message = result })

  -- The `switch` of `socket_server_poll` for an event at slot `i`
  unfoldable pub handle_event : ℕ → Server → W → SocketMessage → ℕ → Bool → Bool → Run (Served W)
  handle_event fuel ss w result i write read =
      let s = ss.slot i in
      let nothing : Served W = record { code = none; server = ss; world = w; message = result } in
      if is_type s.type connecting
      then at_slot ss i (report_connect s w result)
      else if is_type s.type listening
      then report_accept ss s w result
      else if is_type s.type invalid
      then done nothing
      else if write
      then at_slot ss i (send_buffer os fuel s w result)
      else if read
      then at_slot ss i (forward_message s w result)
      else done nothing
