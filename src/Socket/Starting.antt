-- ===== src/Socket/Starting.antt =====
-- `new_fd`, `listen_socket`, `bind_socket` and `start_socket` of skynet-src/socket_server.c leave
-- well-formed slots.
use skynet_note.Base.{
  ℕ, ◌≡◌, refl, sym, ap, subst, [], ◌==◌, arith, Bool, true, false, not, ◌||◌, Bool-cases, ◌⊎◌, inl,
  inr, if◌then◌else◌,
}
use skynet_note.Base.Run.{done, ◌>>=◌}
use skynet_note.Socket.{
  min_read_buffer, invalid, reserve, plisten, listening, connected, paccept, bound, is_type, Socket,
  SocketMessage, Os, sp_add, Outcome,
}
use skynet_note.Socket.Requests.{
  poll_new, new_fd, listen_made, bind_made, listen_socket, bind_socket, start_socket,
}
use skynet_note.Socket.Invariant.{
  active, SlotOk, Fine, blank-Fits, blank-SlotOk, free-SlotOk, opaque-SlotOk, waits_to_start,
  waiting_blank, started_type, reserved, nothing_queued,
}

module _ {W : Type 0} (os : Os W) where
  -- `new_fd` on a reserved slot with no write buffers: the slot is made, or it is freed.
  pub new_fd_lem :
      (s : Socket) (w : W) (id fd opaque : ℕ) (add : Bool)
      → s.type ≡ reserve
      → s.high ≡ []
      → s.low ≡ []
      → (new_fd os s w id fd opaque add
          ≡ done (
            true,
            record s { id = id; fd = fd; size = min_read_buffer; opaque = opaque; wb_size = 0 },
            (poll_new os w fd add).1,
          ))
        ⊎ (new_fd os s w id fd opaque add
            ≡ done (false, record s { type = invalid }, (poll_new os w fd add).1))
  unfolding new_fd
  new_fd_lem s w id fd opaque add e h l = elim (Bool-cases (poll_new os w fd add).0) [
    | inl fails ↦ inr (ground (arith, fails, reserved s e))
    | inr polled ↦ inl (ground (arith, polled, reserved s e, nothing_queued s h l))
  ]

  -- What follows `new_fd`
  pub new_fd-Fine :
      (k : Bool × Socket × W → Outcome W) (s : Socket) (w : W) (id fd opaque : ℕ) (add : Bool)
      → ((t : Socket) (v : W)
          → t.high ≡ []
          → t.low ≡ []
          → t.wb_size ≡ 0
          → SlotOk (k (true, t, v)).socket)
      → ((t : Socket) (v : W)
          → t.type ≡ invalid
          → t.high ≡ []
          → t.low ≡ []
          → SlotOk (k (false, t, v)).socket)
      → s.type ≡ reserve
      → s.high ≡ []
      → s.low ≡ []
      → Fine (new_fd os s w id fd opaque add >>= λ r. done (k r))
  new_fd-Fine k s w id fd opaque add good bad e h l =
      let v : W = (poll_new os w fd add).1 in
      let fresh : Socket = record s {
        id = id;
        fd = fd;
        size = min_read_buffer;
        opaque = opaque;
        wb_size = 0;
      } in
      let freed : Socket = record s { type = invalid } in
      elim (new_fd_lem s w id fd opaque add e h l) [
        | inl made ↦
            (k (true, fresh, v), ap (λ r. r >>= λ x. done (k x)) made, good fresh v h l refl)
        | inr gone ↦
            (k (false, freed, v), ap (λ r. r >>= λ x. done (k x)) gone, bad freed v refl h l)
      ]

  -- `listen_socket` and `bind_socket` on a reserved slot
  pub listen-Fine :
      (s : Socket) (w : W) (result : SocketMessage) (id fd opaque : ℕ)
      → s.type ≡ reserve
      → s.high ≡ []
      → s.low ≡ []
      → Fine (listen_socket os s w result id fd opaque)
  unfolding listen_socket listen_made SlotOk
  listen-Fine s w result id fd opaque =
      new_fd-Fine (listen_made os result id fd opaque) s w id fd opaque false
        (λ t v h l z. (h, l, z)) (λ t v e h l. (h, l))

  pub bind-Fine :
      (s : Socket) (w : W) (result : SocketMessage) (id fd opaque : ℕ)
      → s.type ≡ reserve
      → s.high ≡ []
      → s.low ≡ []
      → Fine (bind_socket os s w result id fd opaque)
  unfolding bind_socket bind_made SlotOk is_type
  bind-Fine s w result id fd opaque =
      new_fd-Fine (bind_made os id fd opaque) s w id fd opaque true
        (λ t v. blank-Fits (record t { type = bound }) active refl refl) (λ t v. free-SlotOk t)

  -- The three ways of `start_socket`
  start_socket_idle :
      (s : Socket) (w : W) (result : SocketMessage) (id opaque : ℕ)
      → (is_type s.type paccept || is_type s.type plisten) ≡ false
      → ((start_socket os s w result id opaque).socket ≡ s)
        ⊎ ((start_socket os s w result id opaque).socket ≡ record s { opaque = opaque })
  unfolding start_socket
  start_socket_idle s w result id opaque e =
      elim (Bool-cases (is_type s.type invalid || not (s.id == id))) [
        | inl stale ↦ inl (ground (arith, stale))
        | inr own ↦ elim (Bool-cases (is_type s.type connected)) [
          | inl transfers ↦ inr (ground (arith, own, e, transfers))
          | inr ignores ↦ inl (ground (arith, own, e, ignores))
        ]
      ]

  start_socket_new :
      (s : Socket) (w : W) (result : SocketMessage) (id opaque : ℕ)
      → (is_type s.type paccept || is_type s.type plisten) ≡ true
      → ((start_socket os s w result id opaque).socket ≡ s)
        ⊎ (((start_socket os s w result id opaque).socket ≡ record s { type = invalid })
            ⊎ ((start_socket os s w result id opaque).socket ≡ record s {
              type = if is_type s.type paccept then connected else listening;
              opaque = opaque;
            }))
  unfolding start_socket
  start_socket_new s w result id opaque e =
      elim (Bool-cases (is_type s.type invalid || not (s.id == id))) [
        | inl stale ↦ inl (ground (arith, stale))
        | inr own ↦ elim (Bool-cases (sp_add os w s.fd).0) [
          | inl fails ↦ inr (inl (ground (arith, own, e, fails)))
          | inr polled ↦ inr (inr (ground (arith, own, e, polled)))
        ]
      ]

  pub start-SlotOk :
      (s : Socket) (w : W) (result : SocketMessage) (id opaque : ℕ)
      → SlotOk s
      → SlotOk (start_socket os s w result id opaque).socket
  start-SlotOk s w result id opaque ok =
      elim (Bool-cases (is_type s.type paccept || is_type s.type plisten)) [
        | inr e ↦ elim (start_socket_idle s w result id opaque e) [
          | inl same ↦ subst SlotOk (sym same) ok
          | inr transferred ↦ subst SlotOk (sym transferred) (opaque-SlotOk s opaque ok)
        ]
        | inl e ↦
            let (h, l, z) = waiting_blank s (waits_to_start s.type e) ok in
            elim (start_socket_new s w result id opaque e) [
              | inl same ↦ subst SlotOk (sym same) ok
              | inr (inl freed) ↦
                  subst SlotOk (sym freed) (free-SlotOk (record s { type = invalid }) refl h l)
              | inr (inr started) ↦
                  let (live, open_) = started_type (is_type s.type paccept) in
                  subst SlotOk (sym started) (
                    blank-SlotOk
                      (record s {
                        type = if is_type s.type paccept then connected else listening;
                        opaque = opaque;
                      })
                      live open_ h l z)
            ]
      ]
