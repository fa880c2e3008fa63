-- ===== src/Socket/Flush.antt =====
-- `send_buffer` of skynet-src/socket_server.c: it comes to an end without a failed assertion, and
-- keeps the order of the bytes.
use mathlib.Core.List.{append_assoc, append-nil}
use skynet_note.Base.{
  ℕ, ◌+◌, ◌%◌, ◌^◌, ◌<◌, ◌≡◌, refl, sym, ap, ap₂, ◌∙◌, List, [], ◌∷◌, ◌++◌, length, arith, Bool,
  false, Bool-cases, ◌⊎◌, inl, inr, ℕ_discrete, none, some, if◌then◌else◌,
}
use skynet_note.Base.Run.{done, aborted, ◌>>=◌}
use skynet_note.Socket.{
  invalid, reserve, halfclose, is_type, WriteBuffer, ctl_del, ctl_mod, Socket, Code, socket_close,
  SocketMessage, null, Os, sp_del, sp_write, Outcome,
}
use skynet_note.Socket.Buffers.{
  Flushed, kept, broken, list_uncomplete, release_fd, force_close, close_with, unsent, send_list,
  settle_low, send_low, settle_high, send_buffer,
}
use skynet_note.Socket.Stream.{
  Lawful, pending, total, AllWhole, AllUntouched, TailUntouched, Sent, AllUntouched-tail,
  send_list_lem,
}

-- The buffers of an open socket: only the first high one may be written in part, and `wb_size`
-- counts the bytes to be written.
pub record Ready (s : Socket) : Type 0 where
  pub not_invalid : is_type s.type invalid ≡ false
  pub not_reserve : is_type s.type reserve ≡ false
  pub high_whole : AllWhole s.high
  pub low_whole : AllWhole s.low
  pub high_tail : TailUntouched s.high
  pub low_untouched : AllUntouched s.low
  pub size : s.wb_size ≡ (total s.high + total s.low) % 2 ^ 64

-- What is still to be written, in its order
unfoldable pub queued : Socket → List ℕ
queued s = pending s.high ++ pending s.low

-- More bytes behind do not matter.
behind :
    (out' left out before more : List ℕ)
    → out' ++ left ≡ out ++ before
    → out' ++ (left ++ more) ≡ out ++ (before ++ more)
behind out' left out before more e =
    sym (append_assoc out' left more) ∙ ap (λ t. t ++ more) e ∙ append_assoc out before more

untouched_complete : (l : List WriteBuffer) → AllUntouched l → list_uncomplete l ≡ false
unfolding list_uncomplete
untouched_complete [] h = refl
untouched_complete (wb ∷ l) h = ground (arith, h.0)

module _ {W : Type 0} (os : Os W) (L : Lawful os) where
  -- The socket lives on: its buffers are well formed, and every byte is written or queued in order.
  pub record Keeps (s s' : Socket) (w w' : W) : Type 0 where
    pub ready : Ready s'
    pub fd : s'.fd ≡ s.fd
    pub id : s'.id ≡ s.id
    pub type : s'.type ≡ s.type
    pub stream : L.output w' s.fd ++ queued s' ≡ L.output w s.fd ++ queued s

  -- The socket is closed, and a part of the bytes from their start has been written.
  pub record Closes (s s' : Socket) (w w' : W) (result : SocketMessage) : Type 0 where
    pub type : s'.type ≡ invalid
    pub high : s'.high ≡ []
    pub low : s'.low ≡ []
    pub told : result ≡ record { id = s.id; opaque = s.opaque; ud = 0; payload = null }
    pub prefix : (rest : List ℕ) × (L.output w' s.fd ++ rest ≡ L.output w s.fd ++ queued s)

  abbrev pub Delivers : Socket → W → Outcome W → Type 0
  Delivers s w o =
      ((o.code ≡ none) × Keeps s o.socket w o.world)
      ⊎ ((o.code ≡ some socket_close) × Closes s o.socket w o.world o.message)

  release_fd_output :
      (s : Socket) (w : W) (fd : ℕ) → L.output (release_fd os s w) fd ≡ L.output w fd
  unfolding release_fd sp_del
  release_fd_output s w fd = ground (
    arith,
    L.close_output w s.fd fd,
    L.ctl_output w ctl_del s.fd fd,
    L.close_output ((os.epoll_ctl w ctl_del s.fd).1) s.fd fd,
  )

  pub close_with_lem :
      (code : Code) (s t : Socket) (w v : W) (result : SocketMessage)
      → is_type t.type invalid ≡ false
      → is_type t.type reserve ≡ false
      → t.fd ≡ s.fd
      → t.id ≡ s.id
      → t.opaque ≡ s.opaque
      → (rest : List ℕ) × (L.output v s.fd ++ rest ≡ L.output w s.fd ++ queued s)
      → (o : Outcome W) × (close_with os code t v result ≡ done o)
        × (o.code ≡ some code)
        × Closes s o.socket w o.world o.message
  unfolding close_with force_close
  close_with_lem code s t w v result live open_ fd id opaque (rest, e) =
      let closed : Socket = record t { high = []; low = []; type = invalid } in
      let told : SocketMessage = record { id = t.id; opaque = t.opaque; ud = 0; payload = null } in
      (
        record { code = some code; socket = closed; world = release_fd os t v; message = told },
        ground (arith, live, open_),
        refl,
        record {
          type = refl;
          high = refl;
          low = refl;
          told = ap₂ (λ i q. record { id = i; opaque = q; ud = 0; payload = null }) id opaque;
          prefix = (rest, ap (λ x. x ++ rest) (release_fd_output t v s.fd) ∙ e);
        },
      )

  -- The socket `t` of `s` with other buffers is closed.
  close-Delivers :
      (s : Socket) (high low : List WriteBuffer) (wb_size : ℕ) (w v : W) (result : SocketMessage)
      → Ready s
      → (rest : List ℕ) × (L.output v s.fd ++ rest ≡ L.output w s.fd ++ queued s)
      → (o : Outcome W) × (close_with os socket_close
            (record s { high = high; low = low; wb_size = wb_size })
            v
            result
          ≡ done o)
        × Delivers s w o
  close-Delivers s high low wb_size w v result ready left =
      let (o, run, code, closes) =
        close_with_lem socket_close s (record s { high = high; low = low; wb_size = wb_size }) w v
          result ready.not_invalid ready.not_reserve refl refl refl left in
      (o, run, inr (code, closes))

  still-Ready :
      (s : Socket) (high low : List WriteBuffer) (wb_size : ℕ) (w v : W)
      → Ready s
      → AllWhole high
      → TailUntouched high
      → AllWhole low
      → AllUntouched low
      → wb_size ≡ (total high + total low) % 2 ^ 64
      → L.output v s.fd ++ (pending high ++ pending low) ≡ L.output w s.fd ++ queued s
      → Keeps s (record s { high = high; low = low; wb_size = wb_size }) w v
  unfolding queued
  still-Ready s high low wb_size w v ready hw ht lw lu size stream = record {
    ready = record {
      not_invalid = ready.not_invalid;
      not_reserve = ready.not_reserve;
      high_whole = hw;
      low_whole = lw;
      high_tail = ht;
      low_untouched = lu;
      size = size;
    };
    fd = refl;
    id = refl;
    type = refl;
    stream = stream;
  }

  -- Step 3: what the low list has become, the high list being empty
  settle_low_lem :
      (s : Socket) (x : ℕ) (w v : W) (result : SocketMessage) (f : Flushed × W)
      → Ready s
      → L.output v s.fd ++ pending s.low ≡ L.output w s.fd ++ queued s
      → Sent os L s.fd 0 s.low v f
      → (o : Outcome W) × (settle_low os (record s { high = []; wb_size = x }) result f ≡ done o)
        × Delivers s w o
  unfolding settle_low list_uncomplete pending total
  settle_low_lem s x w v result (broken wb_size, v') ready e (rest, sent) =
      close-Delivers s [] s.low wb_size w v' result ready (rest, sent ∙ e)
  settle_low_lem s x w v result (kept [] wb_size, v') ready e (sent, whole, tail, size, le) = (
    record {
      code = none;
      socket = record s { high = []; low = []; wb_size = wb_size };
      world = v';
      message = result;
    },
    refl,
    inl (refl, still-Ready s [] [] wb_size w v' ready tt tt tt tt size (sent ∙ e)),
  )
  settle_low_lem s x w v result (kept (tmp ∷ l) wb_size, v') ready e (sent, whole, tail, size, le) =
      elim (ℕ_discrete tmp.ptr 0) [
        | yes untouched ↦ (
          record {
            code = none;
            socket = record s { high = []; low = tmp ∷ l; wb_size = wb_size };
            world = v';
            message = result;
          },
          ground (arith, untouched),
          inl (
            refl,
            still-Ready s [] (tmp ∷ l) wb_size w v' ready tt tt whole (untouched, tail) size
                (sent ∙ e),
          ),
        )
        | no touched ↦
            let joined : (unsent tmp ++ []) ++ pending l ≡ unsent tmp ++ pending l =
              ap (λ t. t ++ pending l) (append-nil (unsent tmp)) in
            (
              record {
                code = none;
                socket = record s { high = tmp ∷ []; low = l; wb_size = wb_size };
                world = v';
                message = result;
              },
              ground (arith, touched),
              inl (
                refl,
                still-Ready s (tmp ∷ []) l wb_size w v' ready (whole.0, tt) tt whole.1 tail
                    (omega (arith, size)) (ap (λ t. L.output v' s.fd ++ t) joined ∙ sent ∙ e),
              ),
            )
      ]

  -- Steps 2 to 4: the high list is empty.
  send_low_lem :
      (fuel : ℕ) (s : Socket) (x : ℕ) (w v : W) (result : SocketMessage) (low : List WriteBuffer)
      → s.low ≡ low
      → Ready s
      → x ≡ (0 + total s.low) % 2 ^ 64
      → L.signals v + length s.low < fuel
      → L.output v s.fd ++ pending s.low ≡ L.output w s.fd ++ queued s
      → (o : Outcome W) × (send_low os fuel (record s { high = []; wb_size = x }) v result low
          ≡ done o)
        × Delivers s w o
  unfolding send_low sp_write pending total
  send_low_lem fuel s x w v result [] is_low ready size enough e =
      let t : Socket = record s { high = []; wb_size = x } in
      let quiet : W = sp_write os v s.fd false in
      let same : L.output quiet s.fd ≡ L.output v s.fd = L.ctl_output v (ctl_mod false) s.fd s.fd in
      let none_left : L.output quiet s.fd ++ [] ≡ L.output w s.fd ++ queued s =
        ap (λ o. o ++ []) same ∙ ap (λ l. L.output v s.fd ++ pending l) (sym is_low) ∙ e in
      elim (Bool-cases (is_type s.type halfclose)) [
        | inl half ↦
            let (o, run, delivers) =
              close-Delivers s [] s.low x w quiet result ready ([], none_left) in
            (
              o,
              ap
                    (λ (b : Bool).
                      if b
                      then close_with os socket_close t quiet result
                      else done
                          (record { code = none; socket = t; world = quiet; message = result }))
                    half
                  ∙ run,
              delivers,
            )
        | inr open_ ↦ (
          record { code = none; socket = t; world = quiet; message = result },
          ap
              (λ (b : Bool).
                if b
                then close_with os socket_close t quiet result
                else done (record { code = none; socket = t; world = quiet; message = result }))
              open_,
          inl (
            refl,
            still-Ready s [] s.low x w quiet ready tt tt ready.low_whole ready.low_untouched size
                (ap (λ o. o ++ pending s.low) same ∙ e),
          ),
        )
      ]
  send_low_lem fuel s x w v result (tmp ∷ l) is_low ready size enough e =
      let t : Socket = record s { high = []; wb_size = x } in
      let (f, run, sent) =
        send_list_lem os L fuel s.fd 0 x s.low v enough ready.low_whole
          (AllUntouched-tail s.low ready.low_untouched) size in
      let (o, settled, delivers) = settle_low_lem s x w v result f ready e sent in
      (
        o,
        ap (λ z. send_list os fuel s.fd x z v >>= λ f. settle_low os t result f) (sym is_low)
            ∙ ap (λ z. z >>= λ f. settle_low os t result f) run
            ∙ settled,
        delivers,
      )

  -- What the high list has become
  settle_high_lem :
      (fuel : ℕ) (s : Socket) (w : W) (result : SocketMessage) (f : Flushed × W)
      → Ready s
      → L.signals w + length s.low < fuel
      → Sent os L s.fd (total s.low) s.high w f
      → (o : Outcome W) × (settle_high os fuel s result f ≡ done o) × Delivers s w o
  unfolding settle_high pending total queued
  settle_high_lem fuel s w result (broken wb_size, v) ready enough (rest, sent) =
      close-Delivers s s.high s.low wb_size w v result ready (
        rest ++ pending s.low,
        behind (L.output v s.fd) rest (L.output w s.fd) (pending s.high) (pending s.low) sent,
      )
  settle_high_lem fuel s w result (kept [] wb_size, v) ready enough (sent, whole, tail, size, le) =
      send_low_lem fuel s wb_size w v result s.low refl ready (omega (arith, size))
        (omega (arith, le, enough))
        (behind (L.output v s.fd) (pending []) (L.output w s.fd) (pending s.high) (pending s.low)
          sent)
  settle_high_lem fuel s w result (kept (tmp ∷ l) wb_size, v) ready enough
        (sent, whole, tail, size, le) =
      (
        record {
          code = none;
          socket = record s { high = tmp ∷ l; wb_size = wb_size };
          world = v;
          message = result;
        },
        refl,
        inl (
          refl,
          still-Ready s (tmp ∷ l) s.low wb_size w v ready whole tail ready.low_whole
              ready.low_untouched (omega (arith, size))
              (behind (L.output v s.fd) (pending (tmp ∷ l)) (L.output w s.fd) (pending s.high)
                (pending s.low) sent),
        ),
      )

  -- For an open socket with well-formed buffers, `send_buffer` ends without a failed assertion, given
  -- fuel for the interruptions and the buffers. Either the socket stays open with well-formed buffers,
  -- and every byte is written or queued in order, or it is closed with the message for it, and what
  -- was written is a part of the bytes from their start.
  pub send_buffer_lem :
      (fuel : ℕ) (s : Socket) (w : W) (result : SocketMessage)
      → Ready s
      → L.signals w + length s.high < fuel
      → L.signals w + length s.low < fuel
      → (o : Outcome W) × (send_buffer os fuel s w result ≡ done o) × Delivers s w o
  unfolding send_buffer list_uncomplete
  send_buffer_lem fuel s w result ready enough enough' =
      let (f, run, sent) =
        send_list_lem os L fuel s.fd (total s.low) s.wb_size s.high w enough ready.high_whole
          ready.high_tail (omega (arith, ready.size)) in
      let (o, settled, delivers) = settle_high_lem fuel s w result f ready enough' sent in
      let complete : list_uncomplete s.low ≡ false = untouched_complete s.low ready.low_untouched in
      (
        o,
        ap
              (λ (b : Bool).
                if b
                then aborted
                else send_list os fuel s.fd s.wb_size s.high w >>= λ f.
                    settle_high os fuel s result f)
              complete
            ∙ ap (λ z. z >>= λ f. settle_high os fuel s result f) run
            ∙ settled,
        delivers,
      )
