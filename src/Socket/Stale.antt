-- ===== src/Socket/Stale.antt =====
-- A second `close` of an id whose slot is reserved again, in skynet-src/socket_server.c.
use skynet_note.Base.{ℕ, ◌≡◌, ap, ◌∙◌, [], true, false, arith}
use skynet_note.Base.Run.{aborted}
use skynet_note.Socket.{invalid, reserve, is_type, Socket, SocketMessage, Os}
use skynet_note.Socket.Buffers.{send_buffer_empty, force_close, close_with}
use skynet_note.Socket.Requests.{close_or_wait, close_socket}
use skynet_note.Socket.Invariant.{reserved, nothing_queued}
use skynet_note.Socket.Closing.{close_socket-empty}

module _ {W : Type 0} (os : Os W) where
  reserved_aborts :
      (s : Socket) (w : W) (result : SocketMessage) (id opaque : ℕ)
      → is_type s.type reserve ≡ true
      → is_type s.type invalid ≡ false
      → send_buffer_empty s ≡ true
      → close_or_wait os s w result id opaque ≡ aborted
  unfolding close_or_wait close_with force_close
  reserved_aborts s w result id opaque e live nothing = ground (arith, e, live, nothing)

  reserve_live : (s : Socket) → s.type ≡ reserve → is_type s.type invalid ≡ false
  unfolding is_type
  reserve_live s e = ap (λ t. is_type t invalid) e

  -- A slot keeps the id of its last socket when it is reserved for the next one. A `close` of that old
  -- id then fails the assertion in `force_close`, whatever the fuel.
  pub close_socket-aborts :
      (fuel : ℕ) (s : Socket) (w : W) (result : SocketMessage) (opaque : ℕ)
      → s.type ≡ reserve
      → s.high ≡ []
      → s.low ≡ []
      → close_socket os fuel s w result s.id opaque ≡ aborted
  close_socket-aborts fuel s w result opaque e h l =
      let live = reserve_live s e in
      close_socket-empty os fuel s w result s.id opaque (ground (arith, live))
        (nothing_queued s h l)
      ∙ reserved_aborts s w result s.id opaque (reserved s e) live (nothing_queued s h l)
