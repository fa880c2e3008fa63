-- ===== src/Socket/Send.antt =====
-- `send_socket` of skynet-src/socket_server.c: where the bytes of a request go.
use mathlib.Core.List.{append_assoc}
use skynet_note.Base.{
  ℕ, ◌≡◌, refl, ap, ◌∙◌, List, [], ◌∷◌, ◌++◌, arith, Bool, true, false, Bool-cases, inl, inr, none,
}
use skynet_note.Base.Run.{done}
use skynet_note.Socket.{
  halfclose, paccept, plisten, listening, is_type, WriteBuffer, Socket, SocketMessage, Os, Outcome,
}
use skynet_note.Socket.Buffers.{
  node, append_sendbuffer, append_sendbuffer_low, is_empty, send_buffer_empty, send_direct,
  send_socket,
}
use skynet_note.Socket.Stream.{Lawful, pending}
use skynet_note.Socket.Flush.{Ready}
use skynet_note.Socket.Queueing.{
  TailUntouched-snoc, with_request, Accepts, append_high, append_low, send_direct_lem,
}

-- A socket to which `send_socket` takes a request with this id
pub record Open (s : Socket) (id : ℕ) : Type 0 where
  pub same : s.id ≡ id
  pub not_halfclose : is_type s.type halfclose ≡ false
  pub not_paccept : is_type s.type paccept ≡ false
  pub not_plisten : is_type s.type plisten ≡ false
  pub not_listening : is_type s.type listening ≡ false

is_empty_lem : (l : List WriteBuffer) → is_empty l ≡ true → l ≡ []
unfolding is_empty
is_empty_lem [] e = refl
is_empty_lem (wb ∷ l) e = cc

empty_lists : (s : Socket) → send_buffer_empty s ≡ true → (s.high ≡ []) × (s.low ≡ [])
unfolding send_buffer_empty
empty_lists s e = ground (arith, e, is_empty_lem s.high, is_empty_lem s.low)

-- What each branch of `send_socket` does
module _ {W : Type 0} (os : Os W) (s : Socket) (w : W) (result : SocketMessage) (id : ℕ)
    (buffer : List ℕ) (ready : Ready s) (o : Open s id) where
  direct_branch :
      (low : Bool)
      → send_buffer_empty s ≡ true
      → send_socket os s w result id buffer low ≡ send_direct os s w result buffer
  unfolding send_socket
  direct_branch low e = ground (
    arith, e, ready.not_invalid, o.same, o.not_halfclose, o.not_paccept, o.not_plisten,
    o.not_listening,
  )

  low_branch :
      send_buffer_empty s ≡ false
      → send_socket os s w result id buffer true
        ≡ done (record {
          code = none;
          socket = append_sendbuffer_low s buffer;
          world = w;
          message = result;
        })
  unfolding send_socket
  low_branch e = ground (
    arith, e, ready.not_invalid, o.same, o.not_halfclose, o.not_paccept, o.not_plisten,
    o.not_listening,
  )

  high_branch :
      send_buffer_empty s ≡ false
      → send_socket os s w result id buffer false
        ≡ done (record {
          code = none;
          socket = append_sendbuffer s buffer 0;
          world = w;
          message = result;
        })
  unfolding send_socket
  high_branch e = ground (
    arith, e, ready.not_invalid, o.same, o.not_halfclose, o.not_paccept, o.not_plisten,
    o.not_listening,
  )

high_place :
    (s : Socket) (out buffer : List ℕ)
    → out ++ ((pending s.high ++ buffer) ++ pending s.low) ≡ out ++ with_request s buffer false
unfolding with_request
high_place s out buffer = ap (λ t. out ++ t) (append_assoc (pending s.high) buffer (pending s.low))

module _ {W : Type 0} (os : Os W) (L : Lawful os) where
  -- For an open socket with well-formed buffers `send_socket` comes to an end. Either the socket stays
  -- open with well-formed buffers, and the bytes of the request are written or queued: a request of low
  -- priority behind all that is queued, one of high priority behind what has high priority. Or the
  -- socket is closed with the message for it, and what was written is a part of what was queued.
  pub send_socket_lem :
      (s : Socket) (w : W) (result : SocketMessage) (id : ℕ) (buffer : List ℕ) (low : Bool)
      → Ready s
      → Open s id
      → (o : Outcome W) × (send_socket os s w result id buffer low ≡ done o)
        × Accepts os L s w buffer low o
  send_socket_lem s w result id buffer low ready o = elim (Bool-cases (send_buffer_empty s)) [
    | inl nothing ↦
        let (h, l) = empty_lists s nothing in
        let (out, sent, accepts) = send_direct_lem os L s w buffer low ready h l result in
        (out, direct_branch os s w result id buffer ready o low nothing ∙ sent, accepts)
    | inr something ↦ queues low something
  ]
    where
      queues :
          (low : Bool)
          → send_buffer_empty s ≡ false
          → (o : Outcome W) × (send_socket os s w result id buffer low ≡ done o)
            × Accepts os L s w buffer low o
      queues true something = (
        record {
          code = none;
          socket = append_sendbuffer_low s buffer;
          world = w;
          message = result;
        },
        low_branch os s w result id buffer ready o something,
        inl (refl, append_low os L s w buffer ready),
      )
      queues false something = (
        record { code = none; socket = append_sendbuffer s buffer 0; world = w; message = result },
        high_branch os s w result id buffer ready o something,
        inl (
          refl,
          append_high os L s w w buffer 0 false ready (omega arith)
              (TailUntouched-snoc s.high (node buffer 0) ready.high_tail refl)
              (high_place s (L.output w s.fd) buffer),
        ),
      )
