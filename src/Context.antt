-- ===== src/Context.antt =====
-- Service contexts: the references, the sessions and the sending of messages of
-- skynet-src/skynet_server.c. A context is named by its address; a freed one is `none`, and reading or
-- writing it aborts. The module that runs in it is left out but for the call of its release function,
-- which is recorded.
mod Push
mod Session
mod Hex
mod Filter
mod Send
mod Undelivered
mod Life
mod Tests
use skynet_note.Base.{
  ℕ, zero, suc, ◌+◌, ◌-◌, ◌*◌, ◌/◌, ◌%◌, ◌^◌, bit_and, Option, none, some, List, [], ◌∷◌, ◌++◌,
  Bool, true, ◌==◌, if◌then◌else◌, get_or, ◌>>=◌,
}
use skynet_note.GlobalQueue.{GlobalQueue}
use skynet_note.Mq.{Message, MessageQueue, mq_push}
use skynet_note.Mq.Life.{mq_mark_release}
use skynet_note.Handle.{Storage, hash, update}
use skynet_note.Harbor.{harbor_message_isremote}

-- `uint32_t` and `int` arithmetic wraps.
abbrev pub word32 : ℕ
word32 = 2 ^ 32

-- The `int` -1
abbrev pub minus_one : ℕ
minus_one = 2 ^ 32 - 1

-- `struct skynet_context` but for its module, its callback and its result
pub record Context : Type 0 where
  pub handle : ℕ
  pub ref : ℕ
  pub session_id : ℕ
  pub queue : ℕ
  pub init : Bool
  pub endless : Bool

-- The contexts, the queues and the handles that they share; `total` is that of `struct skynet_node`,
-- and `released` are the contexts whose module was released.
pub record Node : Type 0 where
  pub storage : Storage
  pub contexts : ℕ → Option Context
  pub queues : ℕ → MessageQueue
  pub global : GlobalQueue
  pub total : ℕ
  pub released : List ℕ

abbrev pub put : {A : Type 0} → (ℕ → A) → ℕ → A → ℕ → A
put f a x b = if a == b then x else f b

-- `skynet_context_newsession`: the session, and the context after it
unfoldable pub newsession : Context → ℕ × Context
newsession ctx =
    let next = (ctx.session_id + 1) % word32 in
    (bit_and next 0x7fffffff, record ctx { session_id = next })

-- `skynet_context_grab`
unfoldable pub context_grab : Node → ℕ → Option Node
context_grab n a = n.contexts a >>= λ ctx.
    some (record n {
      contexts = put n.contexts a (some (record ctx { ref = (ctx.ref + 1) % word32 }));
    })

-- `_delete_context`
unfoldable pub delete_context : Node → ℕ → Option Node
delete_context n a = n.contexts a >>= λ ctx.
    mq_mark_release ctx.queue (n.queues ctx.queue) n.global >>= λ (q, g). some (record n {
      released = n.released ++ (a ∷ []);
      queues = put n.queues ctx.queue q;
      global = g;
      contexts = put n.contexts a none;
      total = (n.total + minus_one) % word32;
    })

-- `skynet_context_release`: the context, or `none` for NULL
unfoldable pub context_release : Node → ℕ → Option (Option ℕ × Node)
context_release n a = n.contexts a >>= λ ctx.
    let ref = (ctx.ref + minus_one) % word32 in
    let n' : Node = record n { contexts = put n.contexts a (some (record ctx { ref = ref })) } in
    if ref == 0 then (delete_context n' a >>= λ t. some (none, t)) else some (some a, n')

-- The test of `skynet_handle_grab` for a slot's cell
unfoldable pub cell_named : Node → ℕ → Option ℕ → Option (Option ℕ)
cell_named n handle none = some none
cell_named n handle (some a) =
    n.contexts a >>= λ ctx. some (if ctx.handle == handle then some a else none)

-- `skynet_handle_grab`: the context of the handle, with one reference more
unfoldable pub handle_grab : Node → ℕ → Option (Option ℕ × Node)
handle_grab n handle =
    cell_named n handle (get_or n.storage.slot (hash n.storage.slot_size handle) none) >>= λ found.
    elim found [ none ↦ some (none, n) | some a ↦ context_grab n a >>= λ t. some (some a, t) ]

-- `skynet_mq_push` on the queue of a context
unfoldable pub push_to : Node → ℕ → Message → Option Node
push_to n a message = n.contexts a >>= λ ctx.
    mq_push ctx.queue (n.queues ctx.queue) n.global message >>= λ (q, g).
    some (record n { queues = put n.queues ctx.queue q; global = g })

-- `skynet_context_push`
unfoldable pub context_push : Node → ℕ → Message → Option (ℕ × Node)
context_push n handle message = handle_grab n handle >>= λ (found, t). elim found [
  | none ↦ some (minus_one, t)
  | some a ↦ push_to t a message >>= λ u. context_release u a >>= λ (r, v). some (0, v)
]

-- `ctx->endless = true`
unfoldable pub set_endless : Node → ℕ → Option Node
set_endless n a = n.contexts a >>= λ ctx.
    some (record n { contexts = put n.contexts a (some (record ctx { endless = true })) })

-- `skynet_context_endless`
unfoldable pub context_endless : Node → ℕ → Option Node
context_endless n handle = handle_grab n handle >>= λ (found, t). elim found [
  | none ↦ some t
  | some a ↦ set_endless t a >>= λ u. context_release u a >>= λ (r, v). some v
]

-- `skynet_isremote`, with `HARBOR` as its first argument: the answer and `*harbor`
unfoldable pub isremote : ℕ → ℕ → Bool × ℕ
isremote harbor handle = (harbor_message_isremote harbor handle, handle / 2 ^ 24)

-- The digits of `_id_to_hex`
abbrev pub hex : List ℕ
hex =
    b'0' ∷ b'1' ∷ b'2' ∷ b'3' ∷ b'4' ∷ b'5' ∷ b'6' ∷ b'7' ∷ b'8' ∷ b'9' ∷ b'A' ∷ b'B' ∷ b'C' ∷ b'D'
    ∷ b'E' ∷ b'F' ∷ []

-- Its loop from `i` on, with `rounds` left
unfoldable pub hex_loop : ℕ → ℕ → ℕ → List ℕ
hex_loop zero i id = []
hex_loop (suc rounds) i id =
    get_or hex (bit_and (id / 2 ^ ((7 - i) * 4)) 0xf) 0 ∷ hex_loop rounds (i + 1) id

-- `_id_to_hex`: the string before its NUL
unfoldable pub id_to_hex : ℕ → List ℕ
id_to_hex id = b':' ∷ hex_loop 8 0 id
