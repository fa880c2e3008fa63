-- ===== src/Socket/Closing.antt =====
-- `close_socket` and `send_socket` of skynet-src/socket_server.c leave well-formed slots.
use skynet_note.Base.{
  ℕ, ◌+◌, ◌<◌, ◌≡◌, ◌≢◌, refl, sym, ap, ◌∙◌, subst, [], ◌==◌, length, arith, true, false, not, ◌||◌,
  Bool-cases, ◌⊎◌, inl, inr, Option, none, some,
}
use skynet_note.Base.Run.{Run, done, ◌>>=◌}
use skynet_note.Socket.{
  invalid, reserve, halfclose, is_type, Socket, Code, socket_close, SocketMessage, null, Os,
  Outcome,
}
use skynet_note.Socket.Buffers.{send_buffer_empty, release_fd, force_close, close_with, send_buffer}
use skynet_note.Socket.Stream.{Lawful}
use skynet_note.Socket.Flush.{Ready, send_buffer_lem}
use skynet_note.Socket.Requests.{close_or_wait, close_socket}
use skynet_note.Socket.Invariant.{
  active, phase, SlotOk, Fine, free-SlotOk, retype-Ready, Ready-SlotOk, writing_slot,
}

halfclosed-Ready : (s : Socket) → Ready s → Ready (record s { type = halfclose })
unfolding is_type
halfclosed-Ready s r = retype-Ready s halfclose refl refl r

module _ {W : Type 0} (os : Os W) where
  pub close_with-closed :
      (code : Code) (s : Socket) (w : W) (result : SocketMessage)
      → is_type s.type invalid ≡ false
      → is_type s.type reserve ≡ false
      → (o : Outcome W) × (close_with os code s w result ≡ done o)
        × (o.socket ≡ record s { high = []; low = []; type = invalid })
  unfolding close_with force_close
  close_with-closed code s w result live open_ = (
    record {
      code = some code;
      socket = record s { high = []; low = []; type = invalid };
      world = release_fd os s w;
      message = record { id = s.id; opaque = s.opaque; ud = 0; payload = null };
    },
    ground (arith, live, open_),
    refl,
  )

  pub closed-SlotOk :
      (s t : Socket) → t ≡ record s { high = []; low = []; type = invalid } → SlotOk t
  closed-SlotOk s t e =
      subst SlotOk (sym e)
        (free-SlotOk (record s { high = []; low = []; type = invalid }) refl refl refl)

  -- The two ways of `close_or_wait`
  close_or_wait-empty :
      (s : Socket) (w : W) (result : SocketMessage) (id opaque : ℕ) (o : Outcome W)
      → send_buffer_empty s ≡ true
      → close_with os socket_close s w result ≡ done o
      → close_or_wait os s w result id opaque
        ≡ done (record o { message = record (o.message) { id = id; opaque = opaque } })
  unfolding close_or_wait
  close_or_wait-empty s w result id opaque o nothing run = ground (arith, nothing, run)

  close_or_wait-waits :
      (s : Socket) (w : W) (result : SocketMessage) (id opaque : ℕ)
      → send_buffer_empty s ≡ false
      → close_or_wait os s w result id opaque
        ≡ done (record {
          code = none;
          socket = record s { type = halfclose };
          world = w;
          message = result;
        })
  unfolding close_or_wait
  close_or_wait-waits s w result id opaque something = ground (arith, something)

  -- The end of `close_socket`
  close_or_wait-Fine :
      (s : Socket) (w : W) (result : SocketMessage) (id opaque : ℕ)
      → is_type s.type invalid ≡ false
      → is_type s.type reserve ≡ false
      → SlotOk s
      → Fine (close_or_wait os s w result id opaque)
  close_or_wait-Fine s w result id opaque live open_ ok = elim (Bool-cases (send_buffer_empty s)) [
    | inl nothing ↦
        let (o, run, closed) = close_with-closed socket_close s w result live open_ in
        (
          record o { message = record (o.message) { id = id; opaque = opaque } },
          close_or_wait-empty s w result id opaque o nothing run,
          closed-SlotOk s o.socket closed,
        )
    | inr something ↦
        let (e, r) = writing_slot s ok something in
        (
          record {
            code = none;
            socket = record s { type = halfclose };
            world = w;
            message = result;
          },
          close_or_wait-waits s w result id opaque something,
          Ready-SlotOk (record s { type = halfclose }) refl (halfclosed-Ready s r),
        )
  ]

  -- What `close_socket` does after `send_buffer`
  abbrev after_flush : ℕ → ℕ → Outcome W → Run (Outcome W)
  after_flush id opaque o = elim (o.code) as (λ c. Run (Outcome W)) [
    | some code ↦ done o
    | none ↦ close_or_wait os o.socket o.world o.message id opaque
  ]

  -- The three ways of `close_socket`
  close_socket-stale :
      (fuel : ℕ) (s : Socket) (w : W) (result : SocketMessage) (id opaque : ℕ)
      → (is_type s.type invalid || not (s.id == id)) ≡ true
      → close_socket os fuel s w result id opaque
        ≡ done (record {
          code = some socket_close;
          socket = s;
          world = w;
          message = record { id = id; opaque = opaque; ud = 0; payload = null };
        })
  unfolding close_socket
  close_socket-stale fuel s w result id opaque stale = ground (arith, stale)

  pub close_socket-empty :
      (fuel : ℕ) (s : Socket) (w : W) (result : SocketMessage) (id opaque : ℕ)
      → (is_type s.type invalid || not (s.id == id)) ≡ false
      → send_buffer_empty s ≡ true
      → close_socket os fuel s w result id opaque ≡ close_or_wait os s w result id opaque
  unfolding close_socket
  close_socket-empty fuel s w result id opaque own nothing = ground (arith, own, nothing)

  close_socket-flushes :
      (fuel : ℕ) (s : Socket) (w : W) (result : SocketMessage) (id opaque : ℕ)
      → (is_type s.type invalid || not (s.id == id)) ≡ false
      → send_buffer_empty s ≡ false
      → close_socket os fuel s w result id opaque
        ≡ (send_buffer os fuel s w result >>= λ o. after_flush id opaque o)
  unfolding close_socket
  close_socket-flushes fuel s w result id opaque own something = ground (arith, own, something)

  module _ (L : Lawful os) where
    -- `send_buffer` on a writable socket
    pub send_buffer-Fine :
        (fuel : ℕ) (s : Socket) (w : W) (result : SocketMessage)
        → phase s.type ≡ active
        → Ready s
        → L.signals w + length s.high < fuel
        → L.signals w + length s.low < fuel
        → (o : Outcome W) × (send_buffer os fuel s w result ≡ done o)
          × SlotOk o.socket
          × (((o.code ≡ none) × (phase o.socket.type ≡ active) × Ready o.socket)
              ⊎ (o.code ≡ some socket_close))
    send_buffer-Fine fuel s w result e r enough enough' =
        let (o, run, delivers) = send_buffer_lem os L fuel s w result r enough enough' in
        elim delivers [
          | inl (code, keeps) ↦
              let still : phase o.socket.type ≡ active = ap phase keeps.type ∙ e in
              (o, run, Ready-SlotOk o.socket still keeps.ready, inl (code, still, keeps.ready))
          | inr (code, closes) ↦
              (o, run, free-SlotOk o.socket closes.type closes.high closes.low, inr code)
        ]

    after_flush-none :
        (id opaque : ℕ) (o : Outcome W)
        → o.code ≡ none
        → after_flush id opaque o ≡ close_or_wait os o.socket o.world o.message id opaque
    after_flush-none id opaque o e =
        ap
          (λ (c : Option Code). elim c as (λ c. Run (Outcome W)) [
            | some code ↦ done o
            | none ↦ close_or_wait os o.socket o.world o.message id opaque
          ])
          e

    after_flush-some :
        (id opaque : ℕ) (o : Outcome W) (code : Code)
        → o.code ≡ some code
        → after_flush id opaque o ≡ done o
    after_flush-some id opaque o code e =
        ap
          (λ (c : Option Code). elim c as (λ c. Run (Outcome W)) [
            | some code ↦ done o
            | none ↦ close_or_wait os o.socket o.world o.message id opaque
          ])
          e

    -- `close_socket` on a well-formed slot that is not reserved under the id of the request
    pub close-Fine :
        (fuel : ℕ) (s : Socket) (w : W) (result : SocketMessage) (id opaque : ℕ)
        → SlotOk s
        → (is_type s.type reserve ≡ false) ⊎ (s.id ≢ id)
        → L.signals w + length s.high < fuel
        → L.signals w + length s.low < fuel
        → Fine (close_socket os fuel s w result id opaque)
    close-Fine fuel s w result id opaque ok not_stale enough enough' =
        elim (Bool-cases (is_type s.type invalid || not (s.id == id))) [
          | inl stale ↦ (
            record {
              code = some socket_close;
              socket = s;
              world = w;
              message = record { id = id; opaque = opaque; ud = 0; payload = null };
            },
            close_socket-stale fuel s w result id opaque stale,
            ok,
          )
          | inr own ↦
              let live : is_type s.type invalid ≡ false = ground (arith, own) in
              let open_ : is_type s.type reserve ≡ false = ground (arith, own, not_stale) in
              elim (Bool-cases (send_buffer_empty s)) [
                | inl nothing ↦
                    let (o, run, fine) = close_or_wait-Fine s w result id opaque live open_ ok in
                    (o, close_socket-empty fuel s w result id opaque own nothing ∙ run, fine)
                | inr something ↦
                    let (e, r) = writing_slot s ok something in
                    let flushed = send_buffer-Fine fuel s w result e r enough enough' in
                    let start =
                      close_socket-flushes fuel s w result id opaque own something
                      ∙ ap (λ r. r >>= λ o. after_flush id opaque o) flushed.1 in
                    elim (flushed.3) [
                      | inl (code, still, ready) ↦
                          let (o, run, fine) =
                            close_or_wait-Fine flushed.0.socket flushed.0.world flushed.0.message id
                              opaque ready.not_invalid ready.not_reserve flushed.2 in
                          (o, start ∙ after_flush-none id opaque flushed.0 code ∙ run, fine)
                      | inr code ↦ (
                        flushed.0,
                        start ∙ after_flush-some id opaque flushed.0 socket_close code,
                        flushed.2,
                      )
                    ]
              ]
        ]
