-- ===== src/Socket/Accepting.antt =====
-- `report_accept` of skynet-src/socket_server.c: the slot that it takes for a new connection.
use skynet_note.Base.{
  ℕ, ◌%◌, ◌≡◌, refl, sym, ap, ◌∙◌, subst, [], arith, true, false, inl, inr, Option, none, some,
  Option-cases,
}
use skynet_note.Base.Run.{done, ◌>>=◌}
use skynet_note.Socket.{
  max_socket, SocketType, invalid, reserve, plisten, listening, connecting, connected, halfclose,
  paccept, bound, is_type, Socket, SocketMessage, Payload, Os, Server, put, Served,
}
use skynet_note.Socket.Requests.{new_fd, reserve_id}
use skynet_note.Socket.Events.{accept_made, accept_at, report_accept}
use skynet_note.Socket.Invariant.{phase, Fits, SlotOk, free-SlotOk}
use skynet_note.Socket.Starting.{new_fd-Fine}
use skynet_note.Socket.Commands.{AllOk, put-AllOk, at_slot-AllOk, put_here}
use skynet_note.Socket.Ids.{Reserves, Allocates, reserve_id_lem}

invalid_of : (t : SocketType) → is_type t invalid ≡ true → t ≡ invalid
unfolding is_type
invalid_of invalid e = refl
invalid_of reserve e = cc
invalid_of plisten e = cc
invalid_of listening e = cc
invalid_of connecting e = cc
invalid_of connected e = cc
invalid_of halfclose e = cc
invalid_of paccept e = cc
invalid_of bound e = cc

pub connecting_of : (t : SocketType) → is_type t connecting ≡ true → t ≡ connecting
unfolding is_type
connecting_of invalid e = cc
connecting_of reserve e = cc
connecting_of plisten e = cc
connecting_of listening e = cc
connecting_of connecting e = refl
connecting_of connected e = cc
connecting_of halfclose e = cc
connecting_of paccept e = cc
connecting_of bound e = cc

-- A reserved slot keeps the others as they are, and is blank.
Reserves-AllOk :
    (ss ss' : Server) (id : ℕ)
    → AllOk ss
    → Reserves ss id ss'
    → AllOk ss'
      × ((ss'.slot (id % max_socket)).type ≡ reserve)
      × ((ss'.slot (id % max_socket)).high ≡ [])
      × ((ss'.slot (id % max_socket)).low ≡ [])
unfolding SlotOk
Reserves-AllOk ss ss' id ok g =
    let s : Socket = ss.slot (id % max_socket) in
    let (h, l) =
      subst (λ t. Fits (phase t) s) (invalid_of s.type g.was_free) (ok (id % max_socket)) in
    let new : Socket = record s { type = reserve } in
    let mid : Server = put (record ss { alloc_id = id }) (id % max_socket) new in
    let here : mid.slot (id % max_socket) ≡ new =
      put_here (record ss { alloc_id = id }) (id % max_socket) (id % max_socket) new refl in
    subst
      (λ t.
        AllOk t
        × ((t.slot (id % max_socket)).type ≡ reserve)
        × ((t.slot (id % max_socket)).high ≡ [])
        × ((t.slot (id % max_socket)).low ≡ []))
      (sym g.taken)
      (
        put-AllOk (record ss { alloc_id = id }) (id % max_socket) new ok (h, l),
        ap (λ t. t.type) here,
        ap (λ t. t.high) here ∙ h,
        ap (λ t. t.low) here ∙ l,
      )

module _ {W : Type 0} (os : Os W) where
  accept-AllOk :
      (ss : Server) (id : ℕ) (s : Socket) (w : W) (result : SocketMessage) (client_fd : ℕ)
      (address : Payload)
      → AllOk ss
      → (ss.slot (id % max_socket)).type ≡ reserve
      → (ss.slot (id % max_socket)).high ≡ []
      → (ss.slot (id % max_socket)).low ≡ []
      → (r : Served W) × (accept_at os ss id s w result client_fd address ≡ done r) × AllOk r.server
  unfolding accept_at accept_made SlotOk
  accept-AllOk ss id s w result client_fd address ok e h l =
      at_slot-AllOk os ss id
        (new_fd os (ss.slot (id % max_socket)) (os.fcntl (os.setsockopt w client_fd) client_fd) id
            client_fd s.opaque false
          >>= λ r. done (accept_made os s result id client_fd address r))
        ok
        (new_fd-Fine os (accept_made os s result id client_fd address) (ss.slot (id % max_socket))
          (os.fcntl (os.setsockopt w client_fd) client_fd) id client_fd s.opaque false
          (λ t v h l z. (h, l, z)) (λ t v. free-SlotOk t) e h l)

  module _ (ss : Server) (s : Socket) (w : W) (result : SocketMessage) where
    accept-fails :
        (os.accept w s.fd).0 ≡ none
        → report_accept os ss s w result
          ≡ done
              (record { code = none; server = ss; message = result; world = (os.accept w s.fd).1 })
    unfolding report_accept
    accept-fails e = ground (arith, e)

    accept-crowded :
        (fd : ℕ) (address : Payload)
        → (os.accept w s.fd).0 ≡ some (fd, address)
        → (reserve_id ss).0 ≡ none
        → report_accept os ss s w result
          ≡ done (record {
            code = none;
            server = (reserve_id ss).1;
            message = result;
            world = os.close ((os.accept w s.fd).1) fd;
          })
    unfolding report_accept
    accept-crowded fd address e e' = ground (arith, e, e')

    accept-takes :
        (fd id : ℕ) (address : Payload)
        → (os.accept w s.fd).0 ≡ some (fd, address)
        → (reserve_id ss).0 ≡ some id
        → report_accept os ss s w result
          ≡ accept_at os ((reserve_id ss).1) id s ((os.accept w s.fd).1) result fd address
    unfolding report_accept
    accept-takes fd id address e e' = ground (arith, e, e')

  pub report_accept-AllOk :
      (ss : Server) (s : Socket) (w : W) (result : SocketMessage)
      → AllOk ss
      → (r : Served W) × (report_accept os ss s w result ≡ done r) × AllOk r.server
  report_accept-AllOk ss s w result ok = elim (Option-cases (os.accept w s.fd).0) [
    | inl fails ↦ (
      record { code = none; server = ss; message = result; world = (os.accept w s.fd).1 },
      accept-fails ss s w result fails,
      ok,
    )
    | inr ((fd, address), came) ↦ reserves fd address came (reserve_id ss) refl (reserve_id_lem ss)
  ]
    where
      reserves :
          (fd : ℕ) (address : Payload)
          → (os.accept w s.fd).0 ≡ some (fd, address)
          → (r : Option ℕ × Server) → reserve_id ss ≡ r
          → Allocates ss r
          → (r : Served W) × (report_accept os ss s w result ≡ done r) × AllOk r.server
      reserves fd address came (none, ss') e (same, full) = (
        record {
          code = none;
          server = (reserve_id ss).1;
          message = result;
          world = os.close ((os.accept w s.fd).1) fd;
        },
        accept-crowded ss s w result fd address came (ap (λ r. r.0) e),
        λ i. subst SlotOk (sym (ap (λ r. r.1.slot i) e ∙ ap (λ f. f i) same)) (ok i),
      )
      reserves fd address came (some id, ss') e g =
          let (ok', t, h, l) = Reserves-AllOk ss ss' id ok g in
          let (r, run, fine) =
            accept-AllOk ss' id s ((os.accept w s.fd).1) result fd address ok' t h l in
          (
            r,
            accept-takes ss s w result fd id address came (ap (λ r. r.0) e)
                ∙ ap (λ t. accept_at os t id s ((os.accept w s.fd).1) result fd address)
                    (ap (λ r. r.1) e)
                ∙ run,
            fine,
          )
