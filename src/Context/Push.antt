-- ===== src/Context/Push.antt =====
-- `skynet_context_push` of skynet-src/skynet_server.c: the reference that it takes and gives back, and
-- the message that it leaves in the queue.
use skynet_note.Base.{
  ℕ, suc, ◌+◌, ◌-◌, ◌*◌, ◌%◌, ◌<◌, ◌≡◌, ◌≢◌, refl, ap, ◌∙◌, sym, subst, Option, none, some, List,
  [], ◌∷◌, ◌++◌, false, arith, ℕ_discrete, get_or,
}
use skynet_note.GlobalQueue.{GlobalQueue}
use skynet_note.Mq.{Message, MessageQueue, int_limit, mq_push}
use skynet_note.Mq.Fifo.{Represents}
use skynet_note.Mq.Push.{unlocks, Wakes, mq_push-queues}
use skynet_note.Handle.{hash}
use skynet_note.Context.{
  Context, Node, put, word32, minus_one, context_grab, context_release, cell_named, handle_grab,
  push_to, context_push,
}

pub put_self : {A : Type 0} (f : ℕ → A) (a : ℕ) (x : A) → put f a x a ≡ x
put_self f a x = ground arith

pub put_ne : {A : Type 0} (f : ℕ → A) (a : ℕ) (x : A) (b : ℕ) → a ≢ b → put f a x b ≡ f b
put_ne f a x b ne = ground (arith, ne)

-- A context with another number of references
abbrev pub referenced : Context → ℕ → Context
referenced ctx ref = record ctx { ref = ref }

context_grab-some :
    (n : Node) (a : ℕ) (ctx : Context)
    → n.contexts a ≡ some ctx
    → context_grab n a
      ≡ some (record n {
        contexts = put n.contexts a (some (referenced ctx ((ctx.ref + 1) % word32)));
      })
unfolding context_grab
context_grab-some n a ctx e = ground (arith, e)

context_release-some :
    (n : Node) (a r : ℕ) (ctx : Context)
    → n.contexts a ≡ some ctx
    → (ctx.ref + minus_one) % word32 ≡ suc r
    → context_release n a
      ≡ some (some a, record n { contexts = put n.contexts a (some (referenced ctx (suc r))) })
unfolding context_release
context_release-some n a r ctx e f = ground (arith, e, f)

cell_named-some :
    (n : Node) (handle a : ℕ) (ctx : Context)
    → n.contexts a ≡ some ctx
    → ctx.handle ≡ handle
    → cell_named n handle (some a) ≡ some (some a)
unfolding cell_named
cell_named-some n handle a ctx e f = ground (arith, e, f)

push_to-some :
    (n : Node) (a : ℕ) (m : Message) (ctx : Context) (q : MessageQueue) (g : GlobalQueue)
    → n.contexts a ≡ some ctx
    → mq_push ctx.queue (n.queues ctx.queue) n.global m ≡ some (q, g)
    → push_to n a m ≡ some (record n { queues = put n.queues ctx.queue q; global = g })
unfolding push_to
push_to-some n a m ctx q g e f = ground (arith, e, f)

-- The handle names the context `ctx` at `a`, which is held at least once.
pub record Serves (n : Node) (handle a : ℕ) (ctx : Context) : Type 0 where
  pub cell : get_or n.storage.slot (hash n.storage.slot_size handle) none ≡ some a
  pub alive : n.contexts a ≡ some ctx
  pub same : ctx.handle ≡ handle
  pub held : 0 < ctx.ref
  pub small : ctx.ref + 1 < word32

handle_grab-some :
    (n t : Node) (handle a : ℕ) (ctx : Context)
    → Serves n handle a ctx
    → context_grab n a ≡ some t
    → handle_grab n handle ≡ some (some a, t)
unfolding handle_grab
handle_grab-some n t handle a ctx v e =
    let found : cell_named n handle (get_or n.storage.slot (hash n.storage.slot_size handle) none)
        ≡ some (some a) =
      ap (cell_named n handle) v.cell ∙ cell_named-some n handle a ctx v.alive v.same in
    rw (found, e) refl

context_push-some :
    (n t u v : Node) (handle a : ℕ) (m : Message) (r : Option ℕ)
    → handle_grab n handle ≡ some (some a, t)
    → push_to t a m ≡ some u
    → context_release u a ≡ some (r, v)
    → context_push n handle m ≡ some (0, v)
unfolding context_push
context_push-some n t u v handle a m r e f g = rw (e, f, g) refl

pub context_push-none :
    (n t : Node) (handle : ℕ) (m : Message)
    → handle_grab n handle ≡ some (none, t)
    → context_push n handle m ≡ some (minus_one, t)
unfolding context_push
context_push-none n t handle m e = rw e refl

-- What a push changes: the queue of the context and the global queue, and nothing else.
pub record Delivered (n : Node) (ctx : Context) (ms : List Message) (t : Node) : Type 0 where
  pub messages : Represents (t.queues ctx.queue) ms
  pub wakes : Wakes ctx.queue (n.queues ctx.queue) n.global (t.queues ctx.queue) t.global
  pub other_queues : (b : ℕ) → ctx.queue ≢ b → t.queues b ≡ n.queues b
  pub contexts : (b : ℕ) → t.contexts b ≡ n.contexts b
  pub storage : t.storage ≡ n.storage
  pub total : t.total ≡ n.total
  pub released : t.released ≡ n.released

-- A push to a handle that names a context which is held at least once, and a message that does not
-- unlock its queue: the push returns 0, the message stands behind those of that context's queue, the
-- queue is woken as it should be, and every context is as before, its references included.
pub context_push-delivers :
    (n : Node) (handle a : ℕ) (ctx : Context) (m : Message) (ms : List Message)
    → Serves n handle a ctx
    → Represents (n.queues ctx.queue) ms
    → (n.queues ctx.queue).cap * 2 < int_limit
    → unlocks (n.queues ctx.queue) m ≡ false
    → (t : Node) × (context_push n handle m ≡ some (0, t)) × Delivered n ctx (ms ++ (m ∷ [])) t
context_push-delivers n handle a ctx m ms v rep small plain =
    let more : Context = referenced ctx ((ctx.ref + 1) % word32) in
    let t : Node = record n { contexts = put n.contexts a (some more) } in
    let alive : t.contexts a ≡ some more = put_self n.contexts a (some more) in
    let (q, g, run, rep', wakes, x, y, z) = mq_push-queues ctx.queue n.global m rep small plain in
    let u : Node = record t { queues = put n.queues ctx.queue q; global = g } in
    let r : ℕ = ctx.ref - 1 in
    let back : suc (ctx.ref - 1) ≡ ctx.ref = omega (arith, v.held) in
    let once : (more.ref + minus_one) % word32 ≡ suc r = omega (arith, v.held, v.small) in
    let here : put n.queues ctx.queue q ctx.queue ≡ q = put_self n.queues ctx.queue q in
    let less : Context = referenced more (suc r) in
    let restored : less ≡ ctx = ap (referenced ctx) back in
    (
      record u { contexts = put u.contexts a (some less) },
      context_push-some n t u (record u { contexts = put u.contexts a (some less) }) handle a m
          (some a) (handle_grab-some n t handle a ctx v (context_grab-some n a ctx v.alive))
          (push_to-some t a m more q g alive run) (context_release-some u a r more alive once),
      record {
        messages = subst (λ q. Represents q (ms ++ (m ∷ []))) (sym here) rep';
        wakes = subst (λ q. Wakes ctx.queue (n.queues ctx.queue) n.global q g) (sym here) wakes;
        other_queues = λ b ne. put_ne n.queues ctx.queue q b ne;
        contexts = λ b. elim (ℕ_discrete a b) [
          | yes p ↦
              ap (put u.contexts a (some less)) (sym p)
              ∙ put_self u.contexts a (some less)
              ∙ ap some restored
              ∙ sym v.alive
              ∙ ap n.contexts p
          | no p ↦ put_ne u.contexts a (some less) b p ∙ put_ne n.contexts a (some more) b p
        ];
        storage = refl;
        total = refl;
        released = refl;
      },
    )
