-- ===== src/Socket/Handled.antt =====
-- Every event of the poll that skynet-src/socket_server.c handles leaves well-formed slots.
use skynet_note.Base.{
  ℕ, ◌+◌, ◌<◌, ◌≡◌, sym, ap, ◌∙◌, length, arith, Bool, true, false, Bool-cases, ◌⊎◌, inl, inr, none,
}
use skynet_note.Base.Run.{done}
use skynet_note.Socket.{
  invalid, listening, connecting, is_type, Socket, SocketMessage, Os, Server, Served,
}
use skynet_note.Socket.Buffers.{send_buffer}
use skynet_note.Socket.Stream.{Lawful}
use skynet_note.Socket.Flush.{Ready}
use skynet_note.Socket.Events.{
  forward_message, report_connect, report_accept, at_slot, handle_event,
}
use skynet_note.Socket.Invariant.{active, phase, active_slot}
use skynet_note.Socket.Closing.{send_buffer-Fine}
use skynet_note.Socket.Commands.{AllOk, at_slot-AllOk}
use skynet_note.Socket.Polled.{forward-Fine, connect-Fine}
use skynet_note.Socket.Accepting.{connecting_of, report_accept-AllOk}

-- The phases of a polled socket
unfoldable pub Pollable : Socket → Type 0
Pollable s = (phase s.type ≡ active) ⊎ ((s.type ≡ listening) ⊎ (s.type ≡ invalid))

-- The ways of `handle_event`
module _ {W : Type 0} (os : Os W) (fuel : ℕ) (ss : Server) (w : W) (result : SocketMessage) (i : ℕ)
    (write read : Bool) where
  event_connects :
      is_type (ss.slot i).type connecting ≡ true
      → handle_event os fuel ss w result i write read
        ≡ at_slot os ss i (report_connect os (ss.slot i) w result)
  unfolding handle_event
  event_connects c = ground (arith, c)

  event_listens :
      is_type (ss.slot i).type connecting ≡ false
      → is_type (ss.slot i).type listening ≡ true
      → handle_event os fuel ss w result i write read ≡ report_accept os ss (ss.slot i) w result
  unfolding handle_event
  event_listens c l = ground (arith, c, l)

  event_ignored :
      is_type (ss.slot i).type connecting ≡ false
      → is_type (ss.slot i).type listening ≡ false
      → (is_type (ss.slot i).type invalid ≡ true) ⊎ ((write ≡ false) × (read ≡ false))
      → handle_event os fuel ss w result i write read
        ≡ done (record { code = none; server = ss; message = result; world = w })
  unfolding handle_event
  event_ignored c l (inl v) = ground (arith, c, l, v)
  event_ignored c l (inr (no_write, no_read)) =
      elim (Bool-cases (is_type (ss.slot i).type invalid)) [
        | inl v ↦ ground (arith, c, l, v)
        | inr v ↦ ground (arith, c, l, v, no_write, no_read)
      ]

  event_writes :
      is_type (ss.slot i).type connecting ≡ false
      → is_type (ss.slot i).type listening ≡ false
      → is_type (ss.slot i).type invalid ≡ false
      → write ≡ true
      → handle_event os fuel ss w result i write read
        ≡ at_slot os ss i (send_buffer os fuel (ss.slot i) w result)
  unfolding handle_event
  event_writes c l v b = ground (arith, c, l, v, b)

  event_reads :
      is_type (ss.slot i).type connecting ≡ false
      → is_type (ss.slot i).type listening ≡ false
      → is_type (ss.slot i).type invalid ≡ false
      → write ≡ false
      → read ≡ true
      → handle_event os fuel ss w result i write read
        ≡ at_slot os ss i (forward_message os (ss.slot i) w result)
  unfolding handle_event
  event_reads c l v b b' = ground (arith, c, l, v, b, b')

-- What is polled, neither connecting, listening nor closed, is open for writing.
polled_active :
    (s : Socket)
    → Pollable s
    → is_type s.type listening ≡ false
    → is_type s.type invalid ≡ false
    → phase s.type ≡ active
unfolding Pollable is_type
polled_active s (inl a) l v = a
polled_active s (inr (inl e)) l v =
    let clash : true ≡ false = sym (ap (λ t. is_type t listening) e) ∙ l in absurd cc
polled_active s (inr (inr e)) l v =
    let clash : true ≡ false = sym (ap (λ t. is_type t invalid) e) ∙ v in absurd cc

module _ {W : Type 0} (os : Os W) (L : Lawful os) where
  -- When every slot is well formed, and the event is on a socket that is open for writing, listening or
  -- closed, its handling, given fuel for the interruptions and the buffers, ends without a failed
  -- assertion and leaves every slot well formed.
  pub handle_event-AllOk :
      (fuel : ℕ) (ss : Server) (w : W) (result : SocketMessage) (i : ℕ) (write read : Bool)
      → AllOk ss
      → Pollable (ss.slot i)
      → L.signals w + length (ss.slot i).high < fuel
      → L.signals w + length (ss.slot i).low < fuel
      → (r : Served W) × (handle_event os fuel ss w result i write read ≡ done r) × AllOk r.server
  handle_event-AllOk fuel ss w result i write read ok polled enough enough' =
      elim (Bool-cases (is_type (ss.slot i).type connecting)) [
        | inl c ↦
            let ready : Ready (ss.slot i) =
              active_slot (ss.slot i) (ap phase (connecting_of (ss.slot i).type c)) (ok i) in
            let (r, run, fine) =
              at_slot-AllOk os ss i (report_connect os (ss.slot i) w result) ok
                (connect-Fine os (ss.slot i) w result ready) in
            (r, event_connects os fuel ss w result i write read c ∙ run, fine)
        | inr c ↦ elim (Bool-cases (is_type (ss.slot i).type listening)) [
          | inl l ↦
              let (r, run, fine) = report_accept-AllOk os ss (ss.slot i) w result ok in
              (r, event_listens os fuel ss w result i write read c l ∙ run, fine)
          | inr l ↦ elim (Bool-cases (is_type (ss.slot i).type invalid)) [
            | inl v ↦ (
              record { code = none; server = ss; message = result; world = w },
              event_ignored os fuel ss w result i write read c l (inl v),
              ok,
            )
            | inr v ↦
                let a : phase (ss.slot i).type ≡ active = polled_active (ss.slot i) polled l v in
                opened c l v a (active_slot (ss.slot i) a (ok i))
          ]
        ]
      ]
    where
      opened :
          is_type (ss.slot i).type connecting ≡ false
          → is_type (ss.slot i).type listening ≡ false
          → is_type (ss.slot i).type invalid ≡ false
          → phase (ss.slot i).type ≡ active
          → Ready (ss.slot i)
          → (r : Served W) × (handle_event os fuel ss w result i write read ≡ done r)
            × AllOk r.server
      opened c l v a ready = elim (Bool-cases write) [
        | inl b ↦
            let (o, run, fine, rest) =
              send_buffer-Fine os L fuel (ss.slot i) w result a ready enough enough' in
            let (r, run', fine') =
              at_slot-AllOk os ss i (send_buffer os fuel (ss.slot i) w result) ok (o, run, fine) in
            (r, event_writes os fuel ss w result i write read c l v b ∙ run', fine')
        | inr b ↦ elim (Bool-cases read) [
          | inl b' ↦
              let (r, run, fine) =
                at_slot-AllOk os ss i (forward_message os (ss.slot i) w result) ok
                  (forward-Fine os (ss.slot i) w result a ready) in
              (r, event_reads os fuel ss w result i write read c l v b b' ∙ run, fine)
          | inr b' ↦ (
            record { code = none; server = ss; message = result; world = w },
            event_ignored os fuel ss w result i write read c l (inr (b, b')),
            ok,
          )
        ]
      ]
