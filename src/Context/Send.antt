-- ===== src/Context/Send.antt =====
-- `skynet_send` of skynet-src/skynet_server.c.
use skynet_note.Base.{
  ℕ, ◌+◌, ◌*◌, ◌^◌, ◌<◌, ◌≡◌, ◌≢◌, refl, sym, ap, ◌∙◌, subst, Option, none, some, List, [], ◌∷◌,
  ◌++◌, false, arith, ◌==◌, if◌then◌else◌, ◌>>=◌, ℕ_discrete,
}
use skynet_note.Mq.{Message, int_limit}
use skynet_note.Mq.Fifo.{Represents}
use skynet_note.Mq.Push.{unlocks, Wakes}
use skynet_note.Harbor.{harbor_message_isremote}
use skynet_note.Context.{Context, Node, put, minus_one, context_push}
use skynet_note.Context.Push.{Serves, Delivered, context_push-delivers, put_self, put_ne}
use skynet_note.Context.Filter.{
  Filtered, filter_args, pack, unpack, bit, signed_byte, sent_session, sender_after, sent_content,
  pack-unpack, filter_args_lem,
}

-- `struct remote_message` for `skynet_harbor_send`, with its source and session
pub record RemoteMessage : Type 0 where
  pub destination : ℕ
  pub message : ℕ
  pub sz : ℕ
  pub source : ℕ
  pub session : ℕ

-- What `skynet_send` returns and leaves: a message for the harbor, if there is one, and the data that
-- it freed
pub record Sent : Type 0 where
  pub code : ℕ
  pub node : Node
  pub remote : Option RemoteMessage
  pub freed : List ℕ

-- The end of `skynet_send` for a local service: a message that was not taken is freed.
unfoldable pub send_local : Node → ℕ → Message → Option Sent
send_local n destination m = context_push n destination m >>= λ (r, t). some (
    if r == 0
    then record { code = m.session; node = t; remote = none; freed = [] }
    else record { code = minus_one; node = t; remote = none; freed = m.content ∷ [] })

-- `skynet_send` after `_filter_args`
unfoldable pub send_filtered : ℕ → Node → ℕ → ℕ → Filtered → Option Sent
send_filtered harbor n source destination f =
    let source' = if source == 0 then f.context.handle else source in
    if destination == 0
    then some (record { code = f.session; node = n; remote = none; freed = [] })
    else if harbor_message_isremote harbor destination
    then some (record {
      code = f.session;
      node = n;
      remote = some (record {
        destination = destination;
        message = f.content;
        sz = f.sz;
        source = source';
        session = f.session;
      });
      freed = [];
    })
    else send_local n destination
        (record { source = source'; session = f.session; content = f.content; sz = f.sz })

-- The node in which the context at `a` is `ctx`
abbrev pub with_context : Node → ℕ → Context → Node
with_context n a ctx = record n { contexts = put n.contexts a (some ctx) }

-- `skynet_send`, for the sender at `a`; its first argument is `HARBOR`.
unfoldable pub send : ℕ → Node → ℕ → ℕ → ℕ → ℕ → ℕ → ℕ → ℕ → ℕ → Option Sent
send harbor n a source destination type session content sz copy = n.contexts a >>= λ ctx.
    filter_args ctx type session content sz copy >>= λ f.
    send_filtered harbor (with_context n a f.context) source destination f

-- The message that `skynet_send` makes for a service of this node
abbrev pub message_of : ℕ → Filtered → Message
message_of source f = record {
  source = if source == 0 then f.context.handle else source;
  session = f.session;
  content = f.content;
  sz = f.sz;
}

pub send_filtered_local :
    (harbor : ℕ) (n : Node) (source destination : ℕ) (f : Filtered)
    → destination ≢ 0
    → harbor_message_isremote harbor destination ≡ false
    → send_filtered harbor n source destination f ≡ send_local n destination (message_of source f)
unfolding send_filtered
send_filtered_local harbor n source destination f ne near = ground (arith, ne, near)

send_local-done :
    (n t : Node) (destination : ℕ) (m : Message)
    → context_push n destination m ≡ some (0, t)
    → send_local n destination m
      ≡ some (record { code = m.session; node = t; remote = none; freed = [] })
unfolding send_local
send_local-done n t destination m e = ground (arith, e)

pub send-filtered :
    (harbor : ℕ) (n : Node) (a source destination type session content sz copy : ℕ) (ctx : Context)
    (f : Filtered)
    → n.contexts a ≡ some ctx
    → filter_args ctx type session content sz copy ≡ some f
    → send harbor n a source destination type session content sz copy
      ≡ send_filtered harbor (with_context n a f.context) source destination f
unfolding send
send-filtered harbor n a source destination type session content sz copy ctx f e g = rw (e, g) refl

-- The context of the receiver after the sender took a session, where the two may be the same.
Serves-sender :
    (n : Node) (a destination b type : ℕ) (ctx to : Context)
    → n.contexts a ≡ some ctx
    → Serves n destination b to
    → (to' : Context) × Serves (with_context n a (sender_after ctx type)) destination b to'
      × (to'.queue ≡ to.queue)
Serves-sender n a destination b type ctx to alive v =
    let ctx' : Context = sender_after ctx type in
    elim (ℕ_discrete a b) [
      | yes p ↦
          let one : to ≡ ctx =
            (let two : some to ≡ some ctx = sym v.alive ∙ ap n.contexts (sym p) ∙ alive in cc) in
          (
            ctx',
            record {
              cell = v.cell;
              alive = ap (put n.contexts a (some ctx')) (sym p) ∙ put_self n.contexts a (some ctx');
              same = ap (λ (t : Context). t.handle) (sym one) ∙ v.same;
              held = subst (λ (t : Context). 0 < t.ref) one v.held;
              small = subst (λ (t : Context). t.ref + 1 < 2 ^ 32) one v.small;
            },
            ap (λ (t : Context). t.queue) (sym one),
          )
      | no p ↦ (
        to,
        record {
          cell = v.cell;
          alive = put_ne n.contexts a (some ctx') b p ∙ v.alive;
          same = v.same;
          held = v.held;
          small = v.small;
        },
        refl,
      )
    ]

Delivered-queue :
    (n : Node) (c d : Context) (ms : List Message) (t : Node)
    → c.queue ≡ d.queue
    → Delivered n c ms t
    → Delivered n d ms t
Delivered-queue n c d ms t e v = record {
  messages = subst (λ q. Represents (t.queues q) ms) e v.messages;
  wakes = subst (λ q. Wakes q (n.queues q) n.global (t.queues q) t.global) e v.wakes;
  other_queues = λ b ne. v.other_queues b (λ p. ne (sym e ∙ p));
  contexts = v.contexts;
  storage = v.storage;
  total = v.total;
  released = v.released;
}

-- A send to a service of this node that is held, of a size of 24 bits, where a new session is asked for
-- only with none given, and the session is not the one that locks the receiver's queue. The send
-- returns the session given or the sender's next one, and frees nothing. One message is appended to
-- the receiver's queue, which is woken as it should be; nothing else changes but the sender's session.
-- The message has the source, the session and the data sent, or the copy of the data, and the
-- receiver's callback gets the size and the low byte of the type, read with a sign.
pub send_lem :
    (harbor : ℕ) (n : Node) (a source destination type session content sz copy b : ℕ)
    (ctx to : Context) (ms : List Message)
    → n.contexts a ≡ some ctx
    → (bit 17 type ≢ 0 → session ≡ 0)
    → sz < 2 ^ 24
    → destination ≢ 0
    → harbor_message_isremote harbor destination ≡ false
    → Serves n destination b to
    → Represents (n.queues to.queue) ms
    → (n.queues to.queue).cap * 2 < int_limit
    → ((n.queues to.queue).lock_session ≢ 0
        → sent_session ctx type session ≢ (n.queues to.queue).lock_session)
    → (t : Node) × (m : Message) × (send harbor n a source destination type session content sz copy
        ≡ some
            (record { code = sent_session ctx type session; node = t; remote = none; freed = [] }))
      × Delivered (with_context n a (sender_after ctx type)) to (ms ++ (m ∷ [])) t
      × (m.source ≡ (if source == 0 then ctx.handle else source))
      × (m.session ≡ sent_session ctx type session)
      × (m.content ≡ sent_content type content copy)
      × (unpack m.sz ≡ (signed_byte type, sz))
send_lem harbor n a source destination type session content sz copy b ctx to ms alive free small ne
      near serves rep cap plain =
    let ctx' : Context = sender_after ctx type in
    let f : Filtered = record {
      context = ctx';
      session = sent_session ctx type session;
      content = sent_content type content copy;
      sz = pack type sz;
    } in
    let m : Message = message_of source f in
    let here : Node = with_context n a ctx' in
    let (to', serves', same) = Serves-sender n a destination b type ctx to alive serves in
    let open_ : unlocks (n.queues to.queue) m ≡ false = ground (arith, plain) in
    let (t, pushed, delivered) =
      context_push-delivers here destination b to' m ms serves'
        (subst (λ q. Represents (n.queues q) ms) (sym same) rep)
        (subst (λ q. (n.queues q).cap * 2 < int_limit) (sym same) cap)
        (subst (λ q. unlocks (n.queues q) m ≡ false) (sym same) open_) in
    (
      t,
      m,
      send-filtered harbor n a source destination type session content sz copy ctx f alive
            (filter_args_lem ctx type session content sz copy free small)
          ∙ send_filtered_local harbor here source destination f ne near
          ∙ send_local-done here t destination m pushed,
      Delivered-queue here to' to (ms ++ (m ∷ [])) t same delivered,
      refl,
      refl,
      refl,
      pack-unpack type sz small,
    )
