-- ===== src/Socket/Buffers.antt =====
-- The write buffers of a socket in skynet-src/socket_server.c, from `force_close` to `send_socket`.
use skynet_note.Base.{
  ℕ, zero, suc, ◌+◌, ◌-◌, ◌%◌, ◌^◌, none, some, List, [], ◌∷◌, ◌++◌, Bool, true, false, not, ◌&&◌,
  ◌||◌, take, drop, ◌==◌, length, if◌then◌else◌,
}
use skynet_note.Base.Run.{Run, done, aborted, unfinished, ◌>>=◌}
use skynet_note.Socket.{
  invalid, reserve, plisten, listening, halfclose, paccept, bound, is_type, WriteBuffer, Socket,
  Code, socket_close, null, SocketMessage, eintr, eagain, other, failed, moved, Os, sp_del,
  sp_write, Outcome,
}

-- What a `write` of the buffer is given
unfoldable pub unsent : WriteBuffer → List ℕ
unsent wb = take wb.sz (drop wb.ptr wb.buffer)

-- `int64_t` arithmetic wraps.
abbrev pub sub64 : ℕ → ℕ → ℕ
sub64 a b = (a + 2 ^ 64 - b % 2 ^ 64) % 2 ^ 64

abbrev pub add64 : ℕ → ℕ → ℕ
add64 a b = (a + b) % 2 ^ 64

-- What the loop of `send_list` leaves: the list and `wb_size`, or the error on which the caller
-- closes the socket
pub data Flushed : Type 0 where
  kept : List WriteBuffer → ℕ → Flushed
  broken : ℕ → Flushed

-- A partial write: `tmp->ptr += sz; tmp->sz -= sz;`
abbrev pub wrote : WriteBuffer → ℕ → WriteBuffer
wrote tmp n = record tmp { ptr = tmp.ptr + n; sz = tmp.sz - n }

-- `list_uncomplete`
unfoldable pub list_uncomplete : List WriteBuffer → Bool
list_uncomplete [] = false
list_uncomplete (wb ∷ l) = not (wb.ptr == 0)

-- `append_sendbuffer_`: the new node, last in its list
abbrev pub node : List ℕ → ℕ → WriteBuffer
node buffer n = record { ptr = n; sz = length buffer - n; buffer = buffer }

unfoldable pub append_sendbuffer : Socket → List ℕ → ℕ → Socket
append_sendbuffer s buffer n = record s {
  high = s.high ++ node buffer n ∷ [];
  wb_size = add64 s.wb_size (length buffer - n);
}

unfoldable pub append_sendbuffer_low : Socket → List ℕ → Socket
append_sendbuffer_low s buffer = record s {
  low = s.low ++ node buffer 0 ∷ [];
  wb_size = add64 s.wb_size (length buffer);
}

unfoldable pub is_empty : List WriteBuffer → Bool
is_empty [] = true
is_empty (wb ∷ l) = false

unfoldable pub send_buffer_empty : Socket → Bool
unfolding is_empty
send_buffer_empty s = is_empty s.high && is_empty s.low

-- `raise_uncomplete` for the lists `high` and `low` of a socket: the head of the low list becomes the
-- high list, which it asserts is empty; it reads through the head of the low list.
unfoldable pub raise_uncomplete : Socket → List WriteBuffer → List WriteBuffer → Run Socket
raise_uncomplete s [] (tmp ∷ l) = done (record s { high = tmp ∷ []; low = l })
raise_uncomplete s high low = aborted

module _ {W : Type 0} (os : Os W) where
  -- What `force_close` asks of the system
  unfoldable pub release_fd : Socket → W → W
  unfolding sp_del
  release_fd s w =
      let unpolled =
        if is_type s.type paccept || is_type s.type plisten then w else sp_del os w s.fd in
      if is_type s.type bound then unpolled else os.close unpolled s.fd

  -- `force_close`: the socket, the system and the message that it leaves
  unfoldable pub force_close : Socket → W → SocketMessage → Run (Socket × W × SocketMessage)
  unfolding release_fd
  force_close s w result =
      let told : SocketMessage = record { id = s.id; opaque = s.opaque; ud = 0; payload = null } in
      if is_type s.type invalid
      then done (s, w, told)
      else if is_type s.type reserve
      then aborted
      else done (record s { high = []; low = []; type = invalid }, release_fd s w, told)

  -- `force_close`, and return `code`
  unfoldable pub close_with : Code → Socket → W → SocketMessage → Run (Outcome W)
  unfolding force_close
  close_with code s w result = force_close s w result >>= λ r.
      done (record { code = some code; socket = r.0; world = r.1; message = r.2 })

  -- The loops of `send_list`, on fuel, up to an error that is neither EINTR nor EAGAIN
  unfoldable pub send_list : ℕ → ℕ → ℕ → List WriteBuffer → W → Run (Flushed × W)
  unfolding unsent
  send_list zero fd wb_size list w = unfinished
  send_list (suc fuel) fd wb_size [] w = done (kept [] wb_size, w)
  send_list (suc fuel) fd wb_size (tmp ∷ list) w =
      let r = os.write w fd (unsent tmp) in
      elim (r.0) [
        | failed eintr ↦ send_list fuel fd wb_size (tmp ∷ list) r.1
        | failed eagain ↦ done (kept (tmp ∷ list) wb_size, r.1)
        | failed other ↦ done (broken wb_size, r.1)
        | moved n ↦
            let rest = send_list fuel fd (sub64 wb_size n) list r.1 in
            if n == tmp.sz then rest else done (kept (wrote tmp n ∷ list) (sub64 wb_size n), r.1)
      ]

  -- Step 3 of `send_buffer`, for what the low list has become
  unfoldable pub settle_low : Socket → SocketMessage → Flushed × W → Run (Outcome W)
  unfolding close_with raise_uncomplete list_uncomplete
  settle_low s result (broken wb_size, w) =
      close_with socket_close (record s { wb_size = wb_size }) w result
  settle_low s result (kept low wb_size, w) =
      let s' = record s { low = low; wb_size = wb_size } in
      (if list_uncomplete low then raise_uncomplete s' s'.high low else done s') >>= λ t.
      done (record { code = none; socket = t; world = w; message = result })

  -- Steps 2 to 4, for a socket whose high list is empty
  unfoldable pub send_low : ℕ → Socket → W → SocketMessage → List WriteBuffer → Run (Outcome W)
  unfolding send_list settle_low sp_write
  send_low fuel s w result [] =
      let quiet = sp_write os w s.fd false in
      if is_type s.type halfclose
      then close_with socket_close s quiet result
      else done (record { code = none; socket = s; world = quiet; message = result })
  send_low fuel s w result (tmp ∷ list) =
      send_list fuel s.fd s.wb_size (tmp ∷ list) w >>= λ f. settle_low s result f

  -- What follows step 1, for what the high list has become
  unfoldable pub settle_high : ℕ → Socket → SocketMessage → Flushed × W → Run (Outcome W)
  unfolding send_low
  settle_high fuel s result (broken wb_size, w) =
      close_with socket_close (record s { wb_size = wb_size }) w result
  settle_high fuel s result (kept [] wb_size, w) =
      send_low fuel (record s { high = []; wb_size = wb_size }) w result s.low
  settle_high fuel s result (kept (tmp ∷ list) wb_size, w) = done (record {
    code = none;
    socket = record s { high = tmp ∷ list; wb_size = wb_size };
    world = w;
    message = result;
  })

  -- `send_buffer`
  unfoldable pub send_buffer : ℕ → Socket → W → SocketMessage → Run (Outcome W)
  unfolding settle_high
  send_buffer fuel s w result =
      if list_uncomplete s.low
      then aborted
      else send_list fuel s.fd s.wb_size s.high w >>= λ f. settle_high fuel s result f

  -- The rest of a request is appended and the socket is polled for writing, unless all was written.
  unfoldable pub send_rest : Socket → W → SocketMessage → List ℕ → ℕ → Outcome W
  unfolding append_sendbuffer sp_write
  send_rest s w result buffer n =
      if n == length buffer
      then record { code = none; socket = s; world = w; message = result }
      else record {
        code = none;
        socket = append_sendbuffer s buffer n;
        world = sp_write os w s.fd true;
        message = result;
      }

  -- The direct `write` of `send_socket` to a socket with nothing to send
  unfoldable pub send_direct : Socket → W → SocketMessage → List ℕ → Run (Outcome W)
  unfolding send_rest close_with
  send_direct s w result buffer =
      let r = os.write w s.fd buffer in
      elim (r.0) [
        | failed other ↦ close_with socket_close s r.1 result
        | failed eintr ↦ done (send_rest s r.1 result buffer 0)
        | failed eagain ↦ done (send_rest s r.1 result buffer 0)
        | moved n ↦ done (send_rest s r.1 result buffer n)
      ]

  -- `send_socket` at the slot `s` of the request's id; `low` is PRIORITY_LOW
  unfoldable pub send_socket : Socket → W → SocketMessage → ℕ → List ℕ → Bool → Run (Outcome W)
  send_socket s w result id buffer low =
      let ignored : Outcome W = record { code = none; socket = s; world = w; message = result } in
      if is_type s.type invalid
        || not (s.id == id)
        || is_type s.type halfclose
        || is_type s.type paccept
      then done ignored
      else if is_type s.type plisten || is_type s.type listening
      then aborted
      else if send_buffer_empty s
      then send_direct s w result buffer
      else if low
      then done (record ignored { socket = append_sendbuffer_low s buffer })
      else done (record ignored { socket = append_sendbuffer s buffer 0 })
