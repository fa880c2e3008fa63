-- ===== src/Socket/Requests.antt =====
-- The slots of skynet-src/socket_server.c: the ids, and what the control commands do to a slot.
use skynet_note.Base.{
  ℕ, zero, suc, ◌+◌, ◌%◌, ◌^◌, Option, none, some, [], ◌∷◌, Bool, true, false, not, ◌||◌, ◌==◌, ltb,
  bit_and, if◌then◌else◌,
}
use skynet_note.Base.Run.{Run, done, aborted, ◌>>=◌}
use skynet_note.Socket.{
  max_socket, min_read_buffer, invalid, reserve, plisten, listening, connected, halfclose, paccept,
  bound, is_type, Socket, socket_close, socket_open, socket_error, null, text, SocketMessage, Os,
  sp_add, Outcome, Server, put,
}
use skynet_note.Socket.Buffers.{send_buffer_empty, close_with, send_buffer}

-- `++ss->alloc_id` on an `int` that wraps, made non-negative
unfoldable pub next_id : ℕ → ℕ
next_id alloc_id =
    let id = (alloc_id + 1) % 2 ^ 32 in if ltb id (2 ^ 31) then id else bit_and id 0x7fffffff

-- The loop of `reserve_id` with `n` rounds left: no other thread reserves a slot meanwhile.
unfoldable pub reserve_loop : ℕ → Server → Option ℕ × Server
reserve_loop zero ss = (none, ss)
reserve_loop (suc n) ss =
    let id = next_id ss.alloc_id in
    let s = ss.slot (id % max_socket) in
    let rest = reserve_loop n (record ss { alloc_id = id }) in
    if is_type s.type invalid
    then (
      some id,
      put (record ss { alloc_id = id }) (id % max_socket) (record s { type = reserve }),
    )
    else rest

-- `reserve_id`
unfoldable pub reserve_id : Server → Option ℕ × Server
reserve_id ss = reserve_loop max_socket ss

module _ {W : Type 0} (os : Os W) where
  -- `sp_add` in `new_fd`, when its argument `add` is set
  unfoldable pub poll_new : W → ℕ → Bool → Bool × W
  unfolding sp_add
  poll_new w fd add = if add then sp_add os w fd else (false, w)

  -- `new_fd` at the slot of the id: `false` where it returns NULL; it asserts that the slot is
  -- reserved and has no write buffers.
  unfoldable pub new_fd : Socket → W → ℕ → ℕ → ℕ → Bool → Run (Bool × Socket × W)
  new_fd s w id fd opaque add =
      let polled = poll_new w fd add in
      let fresh : Socket = record s {
        id = id;
        fd = fd;
        size = min_read_buffer;
        opaque = opaque;
        wb_size = 0;
      } in
      if not (is_type s.type reserve)
      then aborted
      else if polled.0
      then done (false, record s { type = invalid }, polled.1)
      else if send_buffer_empty s
      then done (true, fresh, polled.1)
      else aborted

  -- `listen_socket` and `bind_socket` after `new_fd`
  unfoldable pub listen_made : SocketMessage → ℕ → ℕ → ℕ → Bool × Socket × W → Outcome W
  listen_made result id fd opaque (true, s, w) = record {
    code = none;
    socket = record s { type = plisten };
    world = w;
    message = result;
  }
  listen_made result id fd opaque (false, s, w) = record {
    code = some socket_error;
    socket = record s { type = invalid };
    world = os.close w fd;
    message = record { id = id; opaque = opaque; ud = 0; payload = null };
  }

  unfoldable pub bind_made : ℕ → ℕ → ℕ → Bool × Socket × W → Outcome W
  bind_made id fd opaque (true, s, w) = record {
    code = some socket_open;
    socket = record s { type = bound };
    world = os.fcntl w fd;
    message = record {
      id = id;
      opaque = opaque;
      ud = 0;
      payload = text (b'b' ∷ b'i' ∷ b'n' ∷ b'd' ∷ b'i' ∷ b'n' ∷ b'g' ∷ []);
    };
  }
  bind_made id fd opaque (false, s, w) = record {
    code = some socket_error;
    socket = s;
    world = w;
    message = record { id = id; opaque = opaque; ud = 0; payload = null };
  }

  -- `listen_socket` at the slot `s` of the request's id
  unfoldable pub listen_socket : Socket → W → SocketMessage → ℕ → ℕ → ℕ → Run (Outcome W)
  listen_socket s w result id fd opaque =
      new_fd s w id fd opaque false >>= λ r. done (listen_made result id fd opaque r)

  -- `bind_socket`
  unfoldable pub bind_socket : Socket → W → SocketMessage → ℕ → ℕ → ℕ → Run (Outcome W)
  bind_socket s w result id fd opaque =
      new_fd s w id fd opaque true >>= λ r. done (bind_made id fd opaque r)

  -- `start_socket`
  unfoldable pub start_socket : Socket → W → SocketMessage → ℕ → ℕ → Outcome W
  unfolding sp_add
  start_socket s w result id opaque =
      let told : SocketMessage = record { id = id; opaque = opaque; ud = 0; payload = null } in
      let polled : Bool × W = sp_add os w s.fd in
      if is_type s.type invalid || not (s.id == id)
      then record { code = some socket_error; socket = s; world = w; message = told }
      else if is_type s.type paccept || is_type s.type plisten
      then (if polled.0
          then record {
            code = some socket_error;
            socket = record s { type = invalid };
            world = polled.1;
            message = told;
          }
          else record {
            code = some socket_open;
            socket = record s {
              type = if is_type s.type paccept then connected else listening;
              opaque = opaque;
            };
            world = polled.1;
            message = record told { payload = text (b's' ∷ b't' ∷ b'a' ∷ b'r' ∷ b't' ∷ []) };
          })
      else if is_type s.type connected
      then record {
        code = some socket_open;
        socket = record s { opaque = opaque };
        world = w;
        message = record told {
          payload = text (b't' ∷ b'r' ∷ b'a' ∷ b'n' ∷ b's' ∷ b'f' ∷ b'e' ∷ b'r' ∷ []);
        };
      }
      else record { code = none; socket = s; world = w; message = told }

  -- The end of `close_socket`: what is still queued decides.
  unfoldable pub close_or_wait : Socket → W → SocketMessage → ℕ → ℕ → Run (Outcome W)
  close_or_wait s w result id opaque =
      if send_buffer_empty s
      then (close_with os socket_close s w result >>= λ o.
          done (record o { message = record (o.message) { id = id; opaque = opaque } }))
      else done (record {
        code = none;
        socket = record s { type = halfclose };
        world = w;
        message = result;
      })

  -- `close_socket` on fuel for `send_buffer`
  unfoldable pub close_socket : ℕ → Socket → W → SocketMessage → ℕ → ℕ → Run (Outcome W)
  close_socket fuel s w result id opaque =
      if is_type s.type invalid || not (s.id == id)
      then done (record {
        code = some socket_close;
        socket = s;
        world = w;
        message = record { id = id; opaque = opaque; ud = 0; payload = null };
      })
      else if send_buffer_empty s
      then close_or_wait s w result id opaque
      else (send_buffer os fuel s w result >>= λ o. elim (o.code) [
        | some code ↦ done o
        | none ↦ close_or_wait o.socket o.world o.message id opaque
      ])
