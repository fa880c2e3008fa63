-- ===== src/Socket/Polled.antt =====
-- What skynet-src/socket_server.c does when a connection is made or bytes come in leaves well-formed slots.
use skynet_note.Base.{
  ℕ, ◌≡◌, refl, sym, ◌∙◌, subst, List, [], ◌∷◌, length, arith, true, false, Bool-cases, inl, inr,
  none, some,
}
use skynet_note.Base.Run.{done}
use skynet_note.Socket.{
  connected, halfclose, is_type, Socket, socket_close, socket_open, socket_error, socket_data,
  SocketMessage, received, Os, sp_write, Outcome, eintr, eagain, other, failed, moved,
}
use skynet_note.Socket.Buffers.{close_with}
use skynet_note.Socket.Stream.{Io-cases}
use skynet_note.Socket.Flush.{Ready}
use skynet_note.Socket.Events.{next_size, forward_message, report_connect}
use skynet_note.Socket.Invariant.{active, phase, SlotOk, Fine, Ready-SlotOk, retype-Ready}
use skynet_note.Socket.Closing.{close_with-closed, closed-SlotOk}

size-Ready : (s : Socket) (n : ℕ) → Ready s → Ready (record s { size = n })
size-Ready s n r = record {
  not_invalid = r.not_invalid;
  not_reserve = r.not_reserve;
  high_whole = r.high_whole;
  low_whole = r.low_whole;
  high_tail = r.high_tail;
  low_untouched = r.low_untouched;
  size = r.size;
}

connected-Ready : (s : Socket) → Ready s → Ready (record s { type = connected })
unfolding is_type
connected-Ready s = retype-Ready s connected refl refl

module _ {W : Type 0} (os : Os W) where
  -- The ways of `forward_message`
  module _ (s : Socket) (w : W) (result : SocketMessage) where
    forward-interrupted :
        (os.read w s.fd s.size).0 ≡ failed eintr
        → forward_message os s w result
          ≡ done (record {
            code = none;
            socket = s;
            world = (os.read w s.fd s.size).1;
            message = result;
          })
    unfolding forward_message
    forward-interrupted e = ground (arith, e)

    forward-again :
        (os.read w s.fd s.size).0 ≡ failed eagain
        → forward_message os s w result
          ≡ done (record {
            code = none;
            socket = s;
            world = (os.read w s.fd s.size).1;
            message = result;
          })
    unfolding forward_message
    forward-again e = ground (arith, e)

    forward-broken :
        (os.read w s.fd s.size).0 ≡ failed other
        → forward_message os s w result
          ≡ close_with os socket_error s ((os.read w s.fd s.size).1) result
    unfolding forward_message
    forward-broken e = ground (arith, e)

    forward-end :
        (os.read w s.fd s.size).0 ≡ moved []
        → forward_message os s w result
          ≡ close_with os socket_close s ((os.read w s.fd s.size).1) result
    unfolding forward_message
    forward-end e = ground (arith, e)

    forward-half :
        (b : ℕ) (bytes : List ℕ)
        → (os.read w s.fd s.size).0 ≡ moved (b ∷ bytes)
        → is_type s.type halfclose ≡ true
        → forward_message os s w result
          ≡ done (record {
            code = none;
            socket = s;
            world = (os.read w s.fd s.size).1;
            message = result;
          })
    unfolding forward_message
    forward-half b bytes e half = ground (arith, e, half)

    pub forward-bytes :
        (b : ℕ) (bytes : List ℕ)
        → (os.read w s.fd s.size).0 ≡ moved (b ∷ bytes)
        → is_type s.type halfclose ≡ false
        → forward_message os s w result
          ≡ done (record {
            code = some socket_data;
            socket = record s { size = next_size s.size (length (b ∷ bytes)) };
            world = (os.read w s.fd s.size).1;
            message = record {
              id = s.id;
              opaque = s.opaque;
              ud = length (b ∷ bytes);
              payload = received (b ∷ bytes);
            };
          })
    unfolding forward_message
    forward-bytes b bytes e half = ground (arith, e, half)

  pub forward-Fine :
      (s : Socket) (w : W) (result : SocketMessage)
      → phase s.type ≡ active
      → Ready s
      → Fine (forward_message os s w result)
  forward-Fine s w result e r =
      let v : W = (os.read w s.fd s.size).1 in
      let ignored : Outcome W = record { code = none; socket = s; world = v; message = result } in
      let ok : SlotOk s = Ready-SlotOk s e r in
      elim (Io-cases (os.read w s.fd s.size).0) [
        | inl intr ↦ (ignored, forward-interrupted s w result intr, ok)
        | inr (inl again) ↦ (ignored, forward-again s w result again, ok)
        | inr (inr (inl broke)) ↦
            let (o, run, closed) =
              close_with-closed os socket_error s v result r.not_invalid r.not_reserve in
            (o, forward-broken s w result broke ∙ run, closed-SlotOk os s o.socket closed)
        | inr (inr (inr (bytes, came))) ↦ received_ok bytes came
      ]
    where
      received_ok :
          (bytes : List ℕ)
          → (os.read w s.fd s.size).0 ≡ moved bytes
          → Fine (forward_message os s w result)
      received_ok [] came =
          let (o, run, closed) =
            close_with-closed os socket_close s ((os.read w s.fd s.size).1) result r.not_invalid
              r.not_reserve in
          (o, forward-end s w result came ∙ run, closed-SlotOk os s o.socket closed)
      received_ok (b ∷ bytes) came = elim (Bool-cases (is_type s.type halfclose)) [
        | inl half ↦ (
          record { code = none; socket = s; world = (os.read w s.fd s.size).1; message = result },
          forward-half s w result b bytes came half,
          Ready-SlotOk s e r,
        )
        | inr open_ ↦ (
          record {
            code = some socket_data;
            socket = record s { size = next_size s.size (length (b ∷ bytes)) };
            world = (os.read w s.fd s.size).1;
            message = record {
              id = s.id;
              opaque = s.opaque;
              ud = length (b ∷ bytes);
              payload = received (b ∷ bytes);
            };
          },
          forward-bytes s w result b bytes came open_,
          Ready-SlotOk (record s { size = next_size s.size (length (b ∷ bytes)) }) e
              (size-Ready s (next_size s.size (length (b ∷ bytes))) r),
        )
      ]

  connect-fails :
      (s : Socket) (w : W) (result : SocketMessage)
      → (os.so_error w s.fd).0 ≡ true
      → report_connect os s w result ≡ close_with os socket_error s ((os.so_error w s.fd).1) result
  unfolding report_connect
  connect-fails s w result e = ground (arith, e)

  connect-succeeds :
      (s : Socket) (w : W) (result : SocketMessage)
      → (os.so_error w s.fd).0 ≡ false
      → (o : Outcome W) × (report_connect os s w result ≡ done o)
        × (o.socket ≡ record s { type = connected })
  unfolding report_connect
  connect-succeeds s w result e =
      let told = os.peer (sp_write os ((os.so_error w s.fd).1) s.fd false) s.fd in
      (
        record {
          code = some socket_open;
          socket = record s { type = connected };
          world = told.1;
          message = record { id = s.id; opaque = s.opaque; ud = 0; payload = told.0 };
        },
        ground (arith, e),
        refl,
      )

  pub connect-Fine :
      (s : Socket) (w : W) (result : SocketMessage) → Ready s → Fine (report_connect os s w result)
  connect-Fine s w result r = elim (Bool-cases (os.so_error w s.fd).0) [
    | inl fails ↦
        let (o, run, closed) =
          close_with-closed os socket_error s ((os.so_error w s.fd).1) result r.not_invalid
            r.not_reserve in
        (o, connect-fails s w result fails ∙ run, closed-SlotOk os s o.socket closed)
    | inr succeeds ↦
        let (o, run, same) = connect-succeeds s w result succeeds in
        (
          o,
          run,
          subst SlotOk (sym same)
              (Ready-SlotOk (record s { type = connected }) refl (connected-Ready s r)),
        )
  ]
