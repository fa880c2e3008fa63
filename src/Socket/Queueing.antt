-- ===== src/Socket/Queueing.antt =====
-- How `send_socket` of skynet-src/socket_server.c writes a package at once or queues the rest of it.
use mathlib.Core.List.{append_assoc, append-nil}
use skynet_note.Base.{
  ℕ, ◌+◌, ◌-◌, ◌≤◌, ◌≡◌, ◌≢◌, refl, sym, ap, ap₂, ◌∙◌, subst, List, [], ◌∷◌, ◌++◌, length, arith,
  Bool, true, Bool-cases, ◌⊎◌, inl, inr, ℕ_discrete, none, some, if◌then◌else◌, take, drop,
  take_all, take-append-drop,
}
use skynet_note.Base.Run.{done}
use skynet_note.Socket.{
  WriteBuffer, ctl_mod, Socket, socket_close, SocketMessage, Os, sp_write, Outcome, eintr, eagain,
  other, failed,
}
use skynet_note.Socket.Buffers.{
  node, unsent, append_sendbuffer, append_sendbuffer_low, close_with, send_rest, send_direct,
}
use skynet_note.Socket.Stream.{
  Lawful, pending, total, AllWhole, AllUntouched, TailUntouched, unsent_lem, Io-cases,
}
use skynet_note.Socket.Flush.{Ready, queued, Closes, close_with_lem}

pending-snoc :
    (l : List WriteBuffer) (wb : WriteBuffer) → pending (l ++ wb ∷ []) ≡ pending l ++ unsent wb
unfolding pending
pending-snoc [] wb = append-nil (unsent wb)
pending-snoc (x ∷ l) wb =
    ap (λ t. unsent x ++ t) (pending-snoc l wb)
    ∙ sym (append_assoc (unsent x) (pending l) (unsent wb))

total-snoc : (l : List WriteBuffer) (wb : WriteBuffer) → total (l ++ wb ∷ []) ≡ total l + wb.sz
unfolding total
total-snoc [] wb = omega arith
total-snoc (x ∷ l) wb = omega (arith, total-snoc l wb)

AllWhole-snoc :
    (l : List WriteBuffer) (wb : WriteBuffer)
    → AllWhole l
    → wb.ptr + wb.sz ≡ length wb.buffer
    → AllWhole (l ++ wb ∷ [])
AllWhole-snoc [] wb h e = (e, tt)
AllWhole-snoc (x ∷ l) wb h e = (h.0, AllWhole-snoc l wb h.1 e)

AllUntouched-snoc :
    (l : List WriteBuffer) (wb : WriteBuffer)
    → AllUntouched l
    → wb.ptr ≡ 0
    → AllUntouched (l ++ wb ∷ [])
AllUntouched-snoc [] wb h e = (e, tt)
AllUntouched-snoc (x ∷ l) wb h e = (h.0, AllUntouched-snoc l wb h.1 e)

pub TailUntouched-snoc :
    (l : List WriteBuffer) (wb : WriteBuffer)
    → TailUntouched l
    → wb.ptr ≡ 0
    → TailUntouched (l ++ wb ∷ [])
TailUntouched-snoc [] wb h e = tt
TailUntouched-snoc (x ∷ l) wb h e = AllUntouched-snoc l wb h e

-- The bytes to be written after a request: a low one goes behind all, a high one behind the high ones.
unfoldable pub with_request : Socket → List ℕ → Bool → List ℕ
with_request s buffer low =
    if low then queued s ++ buffer else pending s.high ++ (buffer ++ pending s.low)

module _ {W : Type 0} (os : Os W) (L : Lawful os) where
  -- The socket is open as before, and the request's bytes are written or queued in their place.
  pub record Takes (s s' : Socket) (w w' : W) (buffer : List ℕ) (low : Bool) : Type 0 where
    pub ready : Ready s'
    pub fd : s'.fd ≡ s.fd
    pub id : s'.id ≡ s.id
    pub type : s'.type ≡ s.type
    pub stream : L.output w' s.fd ++ queued s' ≡ L.output w s.fd ++ with_request s buffer low

  abbrev pub Accepts : Socket → W → List ℕ → Bool → Outcome W → Type 0
  Accepts s w buffer low o =
      ((o.code ≡ none) × Takes s o.socket w o.world buffer low)
      ⊎ ((o.code ≡ some socket_close) × Closes os L s o.socket w o.world o.message)

  pub append_high :
      (s : Socket) (w v : W) (buffer : List ℕ) (n : ℕ) (low : Bool)
      → Ready s
      → n ≤ length buffer
      → TailUntouched (s.high ++ node buffer n ∷ [])
      → L.output v s.fd ++ ((pending s.high ++ drop n buffer) ++ pending s.low)
        ≡ L.output w s.fd ++ with_request s buffer low
      → Takes s (append_sendbuffer s buffer n) w v buffer low
  unfolding append_sendbuffer queued
  append_high s w v buffer n low ready fits tail e =
      let whole : n + (length buffer - n) ≡ length buffer = omega (arith, fits) in
      record {
        ready = record {
          not_invalid = ready.not_invalid;
          not_reserve = ready.not_reserve;
          high_whole = AllWhole-snoc s.high (node buffer n) ready.high_whole whole;
          low_whole = ready.low_whole;
          high_tail = tail;
          low_untouched = ready.low_untouched;
          size = omega (arith, ready.size, total-snoc s.high (node buffer n));
        };
        fd = refl;
        id = refl;
        type = refl;
        stream =
            ap (λ t. L.output v s.fd ++ (t ++ pending s.low))
              (pending-snoc s.high (node buffer n)
                ∙ ap (λ t. pending s.high ++ t) (unsent_lem (node buffer n) whole))
            ∙ e;
      }

  pub append_low :
      (s : Socket) (w : W) (buffer : List ℕ)
      → Ready s
      → Takes s (append_sendbuffer_low s buffer) w w buffer true
  unfolding append_sendbuffer_low queued with_request
  append_low s w buffer ready = record {
    ready = record {
      not_invalid = ready.not_invalid;
      not_reserve = ready.not_reserve;
      high_whole = ready.high_whole;
      low_whole = AllWhole-snoc s.low (node buffer 0) ready.low_whole (omega arith);
      high_tail = ready.high_tail;
      low_untouched = AllUntouched-snoc s.low (node buffer 0) ready.low_untouched refl;
      size = omega (arith, ready.size, total-snoc s.low (node buffer 0));
    };
    fd = refl;
    id = refl;
    type = refl;
    stream =
        ap (λ t. L.output w s.fd ++ (pending s.high ++ t))
          (pending-snoc s.low (node buffer 0)
            ∙ ap (λ t. pending s.low ++ t) (unsent_lem (node buffer 0) (omega arith)))
        ∙ ap (λ t. L.output w s.fd ++ t)
            (sym (append_assoc (pending s.high) (pending s.low) buffer));
  }

  send_rest_all :
      (s : Socket) (v : W) (result : SocketMessage) (buffer : List ℕ) (n : ℕ)
      → n ≡ length buffer
      → send_rest os s v result buffer n
        ≡ record { code = none; socket = s; world = v; message = result }
  unfolding send_rest
  send_rest_all s v result buffer n all = ground (arith, all)

  send_rest_part :
      (s : Socket) (v : W) (result : SocketMessage) (buffer : List ℕ) (n : ℕ)
      → n ≢ length buffer
      → send_rest os s v result buffer n ≡ record {
        code = none;
        socket = append_sendbuffer s buffer n;
        world = sp_write os v s.fd true;
        message = result;
      }
  unfolding send_rest
  send_rest_part s v result buffer n part = ground (arith, part)

  send_direct_broken :
      (s : Socket) (w : W) (result : SocketMessage) (buffer : List ℕ)
      → (os.write w s.fd buffer).0 ≡ failed other
      → send_direct os s w result buffer
        ≡ close_with os socket_close s ((os.write w s.fd buffer).1) result
  unfolding send_direct
  send_direct_broken s w result buffer broke = ground (arith, broke)

  module _ (s : Socket) (w : W) (buffer : List ℕ) (low : Bool) (ready : Ready s)
      (no_high : s.high ≡ []) (no_low : s.low ≡ []) where
    queued_none : queued s ≡ []
    unfolding queued pending
    queued_none = ap₂ (λ h l. pending h ++ pending l) no_high no_low

    only_request : with_request s buffer low ≡ buffer
    unfolding with_request pending
    only_request = elim (Bool-cases low) [
      | inl yes_low ↦
          ap
            (λ (b : Bool).
              if b then queued s ++ buffer else pending s.high ++ (buffer ++ pending s.low))
            yes_low
          ∙ ap (λ q. q ++ buffer) queued_none
      | inr no_low' ↦
          ap
            (λ (b : Bool).
              if b then queued s ++ buffer else pending s.high ++ (buffer ++ pending s.low))
            no_low'
          ∙ ap₂ (λ h l. h ++ (buffer ++ l)) (ap pending no_high) (ap pending no_low)
          ∙ append-nil buffer
    ]

    send_rest_lem :
        (v : W) (result : SocketMessage) (n : ℕ)
        → n ≤ length buffer
        → L.output v s.fd ≡ L.output w s.fd ++ take n buffer
        → Accepts s w buffer low (send_rest os s v result buffer n)
    unfolding sp_write pending
    send_rest_lem v result n fits out = elim (ℕ_discrete n (length buffer)) [
      | yes all ↦
          let run : send_rest os s v result buffer n
              ≡ record { code = none; socket = s; world = v; message = result } =
            send_rest_all s v result buffer n all in
          subst (Accepts s w buffer low) (sym run) (
            inl (
              refl,
              record {
                ready = ready;
                fd = refl;
                id = refl;
                type = refl;
                stream =
                    ap (λ t. L.output v s.fd ++ t) queued_none
                    ∙ append-nil (L.output v s.fd)
                    ∙ out
                    ∙ ap (λ t. L.output w s.fd ++ t)
                        (take_all n buffer (omega (arith, all)) ∙ sym only_request);
              },
            ))
      | no part ↦
          let polled : W = sp_write os v s.fd true in
          let same : L.output polled s.fd ≡ L.output v s.fd =
            L.ctl_output v (ctl_mod true) s.fd s.fd in
          let run : send_rest os s v result buffer n ≡ record {
            code = none;
            socket = append_sendbuffer s buffer n;
            world = polled;
            message = result;
          } =
            send_rest_part s v result buffer n part in
          subst (Accepts s w buffer low) (sym run) (
            inl (
              refl,
              append_high s w polled buffer n low ready fits
                  (subst (λ h. TailUntouched (h ++ node buffer n ∷ [])) (sym no_high) tt)
                  (ap₂ (λ h l. L.output polled s.fd ++ ((h ++ drop n buffer) ++ l))
                      (ap pending no_high) (ap pending no_low)
                    ∙ ap (λ t. L.output polled s.fd ++ t) (append-nil (drop n buffer))
                    ∙ ap (λ t. t ++ drop n buffer) (same ∙ out)
                    ∙ append_assoc (L.output w s.fd) (take n buffer) (drop n buffer)
                    ∙ ap (λ t. L.output w s.fd ++ t)
                        (take-append-drop n buffer ∙ sym only_request)),
            ))
    ]

    -- The direct write to a socket with nothing to send
    pub send_direct_lem :
        (result : SocketMessage)
        → (o : Outcome W) × (send_direct os s w result buffer ≡ done o) × Accepts s w buffer low o
    unfolding send_direct
    send_direct_lem result =
        let v : W = (os.write w s.fd buffer).1 in
        elim (Io-cases (os.write w s.fd buffer).0) [
          | inl interrupted ↦ (
            send_rest os s v result buffer 0,
            ground (arith, interrupted),
            send_rest_lem v result 0 (omega arith) (
                (L.write_failed w s.fd buffer eintr interrupted).0
                ∙ sym (append-nil (L.output w s.fd))),
          )
          | inr (inl again) ↦ (
            send_rest os s v result buffer 0,
            ground (arith, again),
            send_rest_lem v result 0 (omega arith) (
                (L.write_failed w s.fd buffer eagain again).0 ∙ sym (append-nil (L.output w s.fd))),
          )
          | inr (inr (inl broke)) ↦
              let same : L.output v s.fd ≡ L.output w s.fd =
                (L.write_failed w s.fd buffer other broke).0 in
              let (o, run, code, closes) =
                close_with_lem os L socket_close s s w v result ready.not_invalid ready.not_reserve
                  refl refl refl (queued s, ap (λ t. t ++ queued s) same) in
              (o, send_direct_broken s w result buffer broke ∙ run, inr (code, closes))
          | inr (inr (inr (n, moved_n))) ↦
              let (fits, out, le) = L.write_moved w s.fd buffer n moved_n in
              (
                send_rest os s v result buffer n,
                ground (arith, moved_n),
                send_rest_lem v result n fits out,
              )
        ]
