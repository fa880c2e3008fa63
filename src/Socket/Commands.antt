-- ===== src/Socket/Commands.antt =====
-- Every control command of skynet-src/socket_server.c leaves well-formed slots.
use skynet_note.Base.{
  ℕ, ◌+◌, ◌%◌, ◌<◌, ◌≡◌, ◌≢◌, refl, sym, ap, ◌∙◌, subst, List, [], ◌==◌, length, arith, Bool, true,
  false, not, ◌||◌, Bool-cases, ◌⊎◌, inl, inr, ℕ_discrete, none, some, Option-cases,
}
use skynet_note.Base.Run.{Run, done, ◌>>=◌}
use skynet_note.Socket.{
  max_socket, SocketType, invalid, reserve, plisten, listening, connecting, connected, halfclose,
  paccept, bound, is_type, Socket, SocketMessage, null, Os, Outcome, Connect, connects, in_progress,
  refused, Server, put, Served, served, socket_exit,
}
use skynet_note.Socket.Buffers.{send_socket}
use skynet_note.Socket.Stream.{Lawful}
use skynet_note.Socket.Send.{Open, send_socket_lem}
use skynet_note.Socket.Requests.{start_socket, listen_socket, bind_socket, close_socket}
use skynet_note.Socket.Events.{
  Request, start_request, bind_request, listen_request, close_request, open_request, exit_request,
  send_request, send_low_request, unknown_request, connect_any, open_failed, open_made, open_found,
  open_socket, at_slot, ctrl_cmd,
}
use skynet_note.Socket.Invariant.{
  active, phase, Fits, SlotOk, Fine, blank-Fits, free-SlotOk, Ready-SlotOk, active_slot,
}
use skynet_note.Socket.Starting.{new_fd-Fine, listen-Fine, bind-Fine, start-SlotOk}
use skynet_note.Socket.Closing.{close-Fine}

-- What `send_socket` goes on with is open for writing.
sendable_type :
    (t : SocketType)
    → (is_type t invalid || is_type t halfclose || is_type t paccept) ≡ false
    → is_type t reserve ≡ false
    → is_type t plisten ≡ false
    → is_type t listening ≡ false
    → phase t ≡ active
unfolding is_type
sendable_type invalid e r p l = cc
sendable_type reserve e r p l = cc
sendable_type plisten e r p l = cc
sendable_type listening e r p l = cc
sendable_type connecting e r p l = refl
sendable_type connected e r p l = refl
sendable_type halfclose e r p l = refl
sendable_type paccept e r p l = cc
sendable_type bound e r p l = refl

reserved_blank : (s : Socket) → s.type ≡ reserve → SlotOk s → (s.high ≡ []) × (s.low ≡ [])
unfolding SlotOk
reserved_blank s e ok = subst (λ t. Fits (phase t) s) e ok

-- A request of data for a slot: the slot is not that of a listening socket, and not reserved under
-- the same id.
pub record Sendable (s : Socket) (id : ℕ) : Type 0 where
  pub not_plisten : is_type s.type plisten ≡ false
  pub not_listening : is_type s.type listening ≡ false
  pub not_stale : (is_type s.type reserve ≡ false) ⊎ (s.id ≢ id)

-- What a request needs of the slot of its id
abbrev pub Admissible : Server → Request → Type 0
Admissible ss (start_request id opaque) = Unit
Admissible ss (bind_request id fd opaque) = (ss.slot (id % max_socket)).type ≡ reserve
Admissible ss (listen_request id fd opaque) = (ss.slot (id % max_socket)).type ≡ reserve
Admissible ss (close_request id opaque) =
    (is_type (ss.slot (id % max_socket)).type reserve ≡ false)
    ⊎ ((ss.slot (id % max_socket)).id ≢ id)
Admissible ss (open_request id port opaque host) = (ss.slot (id % max_socket)).type ≡ reserve
Admissible ss exit_request = Unit
Admissible ss (send_request id buffer) = Sendable (ss.slot (id % max_socket)) id
Admissible ss (send_low_request id buffer) = Sendable (ss.slot (id % max_socket)) id
Admissible ss (unknown_request letter) = Unit

abbrev pub AllOk : Server → Type 0
AllOk ss = (i : ℕ) → SlotOk (ss.slot i)

pub put_here : (ss : Server) (i j : ℕ) (s : Socket) → i ≡ j → (put ss i s).slot j ≡ s
put_here ss i j s e = ground (arith, e)

pub put_there : (ss : Server) (i j : ℕ) (s : Socket) → i ≢ j → (put ss i s).slot j ≡ ss.slot j
put_there ss i j s ne = ground (arith, ne)

pub put-AllOk : (ss : Server) (i : ℕ) (s : Socket) → AllOk ss → SlotOk s → AllOk (put ss i s)
put-AllOk ss i s ok new j = elim (ℕ_discrete i j) [
  | yes here ↦ subst SlotOk (sym (put_here ss i j s here)) new
  | no there ↦ subst SlotOk (sym (put_there ss i j s there)) (ok j)
]

module _ {W : Type 0} (os : Os W) where
  -- A handler of one slot in the server
  pub at_slot-AllOk :
      (ss : Server) (id : ℕ) (run : Run (Outcome W))
      → AllOk ss
      → Fine run
      → (r : Served W) × (at_slot os ss id run ≡ done r) × AllOk r.server
  at_slot-AllOk ss id run ok (o, ends, fine) = (
    served ss (id % max_socket) o,
    ap (λ r. r >>= λ o. done (served ss (id % max_socket) o)) ends,
    put-AllOk ss (id % max_socket) o.socket ok fine,
  )

module _ {W : Type 0} (os : Os W) (L : Lawful os) where
  send_socket-ignores :
      (s : Socket) (w : W) (result : SocketMessage) (id : ℕ) (buffer : List ℕ) (low : Bool)
      → (is_type s.type invalid
          || not (s.id == id)
          || is_type s.type halfclose
          || is_type s.type paccept)
        ≡ true
      → send_socket os s w result id buffer low
        ≡ done (record { code = none; socket = s; world = w; message = result })
  unfolding send_socket
  send_socket-ignores s w result id buffer low e = ground (arith, e)

  send-Fine :
      (s : Socket) (w : W) (result : SocketMessage) (id : ℕ) (buffer : List ℕ) (low : Bool)
      → SlotOk s
      → Sendable s id
      → Fine (send_socket os s w result id buffer low)
  send-Fine s w result id buffer low ok can =
      elim (Bool-cases (
        is_type s.type invalid
        || not (s.id == id)
        || is_type s.type halfclose
        || is_type s.type paccept)) [
          | inl ignored ↦ (
            record { code = none; socket = s; world = w; message = result },
            send_socket-ignores s w result id buffer low ignored,
            ok,
          )
          | inr taken ↦
              let own : s.id ≡ id = ground (arith, taken) in
              let open_ : is_type s.type reserve ≡ false = ground (arith, own, can.not_stale) in
              let typed : (is_type s.type invalid
                    || is_type s.type halfclose
                    || is_type s.type paccept)
                  ≡ false =
                ground (arith, taken) in
              let e : phase s.type ≡ active =
                sendable_type s.type typed open_ can.not_plisten can.not_listening in
              let o : Open s id = record {
                same = own;
                not_halfclose = ground (arith, taken);
                not_paccept = ground (arith, taken);
                not_plisten = can.not_plisten;
                not_listening = can.not_listening;
              } in
              let (r, run, accepts) =
                send_socket_lem os L s w result id buffer low (active_slot s e ok) o in
              elim accepts [
                | inl (code, takes) ↦
                    (r, run, Ready-SlotOk r.socket (ap phase takes.type ∙ e) takes.ready)
                | inr (code, closes) ↦
                    (r, run, free-SlotOk r.socket closes.type closes.high closes.low)
              ]
        ]

  made-SlotOk :
      (told : SocketMessage) (sock address : ℕ) (how : Connect) (t : Socket) (v : W)
      → t.high ≡ []
      → t.low ≡ []
      → t.wb_size ≡ 0
      → SlotOk (open_made os told sock address how (true, t, v)).socket
  unfolding open_made SlotOk is_type
  made-SlotOk told sock address connects t v =
      blank-Fits (record t { type = connected }) active refl refl
  made-SlotOk told sock address in_progress t v =
      blank-Fits (record t { type = connecting }) active refl refl
  made-SlotOk told sock address refused t v = λ h l z. (h, l)

  unmade-SlotOk :
      (told : SocketMessage) (sock address : ℕ) (how : Connect) (t : Socket) (v : W)
      → t.type ≡ invalid
      → t.high ≡ []
      → t.low ≡ []
      → SlotOk (open_made os told sock address how (false, t, v)).socket
  unfolding open_made SlotOk
  unmade-SlotOk told sock address how t v e h l = (h, l)

  -- The three ways of `open_socket`
  module _ (s : Socket) (w : W) (result : SocketMessage) (id port opaque : ℕ) (host : List ℕ)
      (blocking : Bool) where
    told : SocketMessage
    told = record { id = id; opaque = opaque; ud = 0; payload = null }

    open_socket-unresolved :
        (os.getaddrinfo w host port).0 ≡ none
        → open_socket os s w result id port opaque host blocking
          ≡ done (open_failed os s ((os.getaddrinfo w host port).1) told)
    unfolding open_socket told
    open_socket-unresolved e = ground (arith, e)

    open_socket-unconnected :
        (list : List ℕ)
        → (os.getaddrinfo w host port).0 ≡ some list
        → (connect_any os blocking list ((os.getaddrinfo w host port).1)).0 ≡ none
        → open_socket os s w result id port opaque host blocking
          ≡ done (
              open_failed os s
                ((connect_any os blocking list ((os.getaddrinfo w host port).1)).1)
                told)
    unfolding open_socket told
    open_socket-unconnected list e e' = ground (arith, e, e')

    open_socket-found :
        (list : List ℕ) (sock address : ℕ) (how : Connect)
        → (os.getaddrinfo w host port).0 ≡ some list
        → (connect_any os blocking list ((os.getaddrinfo w host port).1)).0
          ≡ some (sock, address, how)
        → open_socket os s w result id port opaque host blocking
          ≡ open_found os s
              ((connect_any os blocking list ((os.getaddrinfo w host port).1)).1)
              told
              id
              opaque
              sock
              address
              how
    unfolding open_socket told
    open_socket-found list sock address how e e' = ground (arith, e, e')

  -- `open_socket` on a reserved slot
  open-Fine :
      (s : Socket) (w : W) (result : SocketMessage) (id port opaque : ℕ) (host : List ℕ)
      (blocking : Bool)
      → s.type ≡ reserve
      → s.high ≡ []
      → s.low ≡ []
      → Fine (open_socket os s w result id port opaque host blocking)
  unfolding open_found
  open-Fine s w result id port opaque host blocking e h l =
      let answer : SocketMessage = told s w result id port opaque host blocking in
      elim (Option-cases (os.getaddrinfo w host port).0) [
        | inl unresolved ↦ (
          open_failed os s ((os.getaddrinfo w host port).1) answer,
          open_socket-unresolved s w result id port opaque host blocking unresolved,
          free-SlotOk (record s { type = invalid }) refl h l,
        )
        | inr (list, resolved) ↦
            let v : W = (os.getaddrinfo w host port).1 in
            elim (Option-cases (connect_any os blocking list v).0) [
              | inl unconnected ↦ (
                open_failed os s ((connect_any os blocking list v).1) answer,
                open_socket-unconnected s w result id port opaque host blocking list resolved
                    unconnected,
                free-SlotOk (record s { type = invalid }) refl h l,
              )
              | inr ((sock, address, how), found) ↦
                  let (o, run, fine) =
                    new_fd-Fine os (open_made os answer sock address how) s
                      ((connect_any os blocking list v).1) id sock opaque true
                      (made-SlotOk answer sock address how) (unmade-SlotOk answer sock address how)
                      e h l in
                  (
                    o,
                    open_socket-found s w result id port opaque host blocking list sock address how
                          resolved found
                        ∙ run,
                    fine,
                  )
            ]
      ]

  -- When every slot is well formed, each control command whose slot is as its request needs it, given
  -- fuel for the interruptions and the buffers, ends without a failed assertion and leaves every slot
  -- well formed.
  pub ctrl_cmd-AllOk :
      (fuel : ℕ) (ss : Server) (w : W) (result : SocketMessage) (request : Request)
      → AllOk ss
      → Admissible ss request
      → ((i : ℕ) → L.signals w + length (ss.slot i).high < fuel)
      → ((i : ℕ) → L.signals w + length (ss.slot i).low < fuel)
      → (r : Served W) × (ctrl_cmd os fuel ss w result request ≡ done r) × AllOk r.server
  unfolding ctrl_cmd
  ctrl_cmd-AllOk fuel ss w result (start_request id opaque) ok can enough enough' =
      at_slot-AllOk os ss id (done (start_socket os (ss.slot (id % max_socket)) w result id opaque))
        ok
        (
          start_socket os (ss.slot (id % max_socket)) w result id opaque,
          refl,
          start-SlotOk os (ss.slot (id % max_socket)) w result id opaque (ok (id % max_socket)),
        )
  ctrl_cmd-AllOk fuel ss w result (bind_request id fd opaque) ok can enough enough' =
      let (h, l) = reserved_blank (ss.slot (id % max_socket)) can (ok (id % max_socket)) in
      at_slot-AllOk os ss id (bind_socket os (ss.slot (id % max_socket)) w result id fd opaque) ok
        (bind-Fine os (ss.slot (id % max_socket)) w result id fd opaque can h l)
  ctrl_cmd-AllOk fuel ss w result (listen_request id fd opaque) ok can enough enough' =
      let (h, l) = reserved_blank (ss.slot (id % max_socket)) can (ok (id % max_socket)) in
      at_slot-AllOk os ss id (listen_socket os (ss.slot (id % max_socket)) w result id fd opaque) ok
        (listen-Fine os (ss.slot (id % max_socket)) w result id fd opaque can h l)
  ctrl_cmd-AllOk fuel ss w result (close_request id opaque) ok can enough enough' =
      at_slot-AllOk os ss id (close_socket os fuel (ss.slot (id % max_socket)) w result id opaque)
        ok
        (close-Fine os L fuel (ss.slot (id % max_socket)) w result id opaque (ok (id % max_socket))
          can (enough (id % max_socket)) (enough' (id % max_socket)))
  ctrl_cmd-AllOk fuel ss w result (open_request id port opaque host) ok can enough enough' =
      let (h, l) = reserved_blank (ss.slot (id % max_socket)) can (ok (id % max_socket)) in
      at_slot-AllOk os ss id
        (open_socket os (ss.slot (id % max_socket)) w result id port opaque host false) ok
        (open-Fine (ss.slot (id % max_socket)) w result id port opaque host false can h l)
  ctrl_cmd-AllOk fuel ss w result exit_request ok can enough enough' = (
    record {
      code = some socket_exit;
      server = ss;
      world = w;
      message = record { id = 0; opaque = 0; ud = 0; payload = null };
    },
    refl,
    ok,
  )
  ctrl_cmd-AllOk fuel ss w result (send_request id buffer) ok can enough enough' =
      at_slot-AllOk os ss id (send_socket os (ss.slot (id % max_socket)) w result id buffer false)
        ok
        (send-Fine (ss.slot (id % max_socket)) w result id buffer false (ok (id % max_socket)) can)
  ctrl_cmd-AllOk fuel ss w result (send_low_request id buffer) ok can enough enough' =
      at_slot-AllOk os ss id (send_socket os (ss.slot (id % max_socket)) w result id buffer true) ok
        (send-Fine (ss.slot (id % max_socket)) w result id buffer true (ok (id % max_socket)) can)
  ctrl_cmd-AllOk fuel ss w result (unknown_request letter) ok can enough enough' =
      (record { code = none; server = ss; world = w; message = result }, refl, ok)
