-- ===== src/Context/Life.antt =====
-- The end of a service context in skynet-src/skynet_server.c: the release of its last reference.
use skynet_note.Base.{
  ℕ, ◌+◌, ◌%◌, ◌≡◌, ◌≢◌, refl, ◌∙◌, none, some, [], ◌∷◌, ◌++◌, true, false, arith, if◌then◌else◌,
}
use skynet_note.GlobalQueue.{GlobalQueue, globalmq_push}
use skynet_note.Mq.{MessageQueue}
use skynet_note.Mq.Life.{is_in_global, mq_mark_release}
use skynet_note.Context.{
  Context, Node, put, word32, minus_one, delete_context, context_release, context_grab,
}
use skynet_note.Context.Push.{put_self, put_ne, referenced}

mark_release_lem :
    (self : ℕ) (q : MessageQueue) (g : GlobalQueue)
    → q.release ≡ false
    → mq_mark_release self q g
      ≡ some (
        record q { release = true },
        if is_in_global q.in_global then g else globalmq_push self g,
      )
unfolding mq_mark_release
mark_release_lem self q g e = ground (arith, e)

delete_context-some :
    (n : Node) (a : ℕ) (ctx : Context) (q : MessageQueue) (g : GlobalQueue)
    → n.contexts a ≡ some ctx
    → mq_mark_release ctx.queue (n.queues ctx.queue) n.global ≡ some (q, g)
    → delete_context n a
      ≡ some (record n {
        released = n.released ++ (a ∷ []);
        queues = put n.queues ctx.queue q;
        global = g;
        contexts = put n.contexts a none;
        total = (n.total + minus_one) % word32;
      })
unfolding delete_context
delete_context-some n a ctx q g e f = ground (arith, e, f)

release_last :
    (n t : Node) (a : ℕ) (ctx : Context)
    → n.contexts a ≡ some ctx
    → ctx.ref ≡ 1
    → delete_context (record n { contexts = put n.contexts a (some (referenced ctx 0)) }) a ≡ some t
    → context_release n a ≡ some (none, t)
unfolding context_release
release_last n t a ctx e one f =
    let zero_left : (ctx.ref + minus_one) % word32 ≡ 0 = omega (arith, one) in
    ground (arith, e, zero_left, f)

-- A context that is freed: it is gone, its module was released, its queue is marked with its messages
-- kept and stands in the global queue, and nothing else changed.
pub record Freed (n : Node) (a : ℕ) (ctx : Context) (t : Node) : Type 0 where
  pub gone : t.contexts a ≡ none
  pub dangling : context_grab t a ≡ none
  pub others : (b : ℕ) → a ≢ b → t.contexts b ≡ n.contexts b
  pub module_released : t.released ≡ n.released ++ (a ∷ [])
  pub marked : t.queues ctx.queue ≡ record (n.queues ctx.queue) { release = true }
  pub woken : t.global ≡ (
      if is_in_global (n.queues ctx.queue).in_global
      then n.global
      else globalmq_push ctx.queue n.global)
  pub other_queues : (b : ℕ) → ctx.queue ≢ b → t.queues b ≡ n.queues b
  pub counted : (t.total + 1) % word32 ≡ n.total % word32

grab-none : (n : Node) (a : ℕ) → n.contexts a ≡ none → context_grab n a ≡ none
unfolding context_grab
grab-none n a e = ground (arith, e)

-- The release of the last reference of a context whose queue is not marked frees the context once: its
-- module is released, its queue is marked, keeps its messages and is woken, one context less is
-- counted, every other context and queue is as before, and a later grab at its address aborts.
pub context_release-frees :
    (n : Node) (a : ℕ) (ctx : Context)
    → n.contexts a ≡ some ctx
    → ctx.ref ≡ 1
    → (n.queues ctx.queue).release ≡ false
    → (t : Node) × (context_release n a ≡ some (none, t)) × Freed n a ctx t
context_release-frees n a ctx alive one open_ =
    let last : Context = referenced ctx 0 in
    let m : Node = record n { contexts = put n.contexts a (some last) } in
    let held : m.contexts a ≡ some last = put_self n.contexts a (some last) in
    let q : MessageQueue = record (n.queues ctx.queue) { release = true } in
    let g : GlobalQueue =
      if is_in_global (n.queues ctx.queue).in_global
      then n.global
      else globalmq_push ctx.queue n.global in
    let t : Node = record m {
      released = n.released ++ (a ∷ []);
      queues = put n.queues ctx.queue q;
      global = g;
      contexts = put m.contexts a none;
      total = (n.total + minus_one) % word32;
    } in
    let gone : t.contexts a ≡ none = put_self m.contexts a none in
    (
      t,
      release_last n t a ctx alive one (
          delete_context-some m a last q g held
            (mark_release_lem ctx.queue (n.queues ctx.queue) n.global open_)),
      record {
        gone = gone;
        dangling = grab-none t a gone;
        others = λ b ne. put_ne m.contexts a none b ne ∙ put_ne n.contexts a (some last) b ne;
        module_released = refl;
        marked = put_self n.queues ctx.queue q;
        woken = refl;
        other_queues = λ b ne. put_ne n.queues ctx.queue q b ne;
        counted = omega arith;
      },
    )
