-- ===== src/Lib.antt =====
-- Verification of the skynet kernel (skynet-src): a message-passing service framework in C.
--
-- Services own message queues. A queue with messages waits in a global queue, from which worker
-- threads take it, hand its messages to the service's callback, and put it back. A timer thread
-- turns expired timeouts into messages. Handles name the services.
--
-- Files:
-- * Base and its children: shared names, Boolean tests, lists over native numbers, and the laws of
--   `&` and `|` with a mask.
-- * GlobalQueue models `struct global_queue` of skynet-src/skynet_mq.c: `globalmq_push` is
--   skynet_globalmq_push, `globalmq_pop` is skynet_globalmq_pop. GlobalQueue/Fifo relates it to a list.
-- * Mq models `struct message_queue` of the same file: `mq_push` is skynet_mq_push, with `put_tail`,
--   `push_head` (_pushhead), `expand_queue` and `unlock_session` (_unlock) as its parts; Mq/Life has
--   the operations that lock, requeue and release a queue. Mq/Window, Mq/Fifo, Mq/Put and Mq/Push
--   relate the ring to the list of its messages; Mq/Drop is about release; Mq/Schedule is the step
--   relation of one queue with its senders and workers, and its children hold the invariant.
-- * Timer models skynet-src/skynet_timer.c: `add_node`, `timer_shift`, `timer_execute`,
--   `timer_update` and `timeout` (skynet_timeout) have the names of the C functions. Timer/Place
--   describes places by division, Timer/Cascade says what moves at a tick, Timer/Pending, Timer/Shift,
--   Timer/Update and Timer/Ticks relate the wheel to the multiset of pending timeouts, Timer/Clock is
--   about the clock.
-- * Handle models the slots of `struct handle_storage` of skynet-src/skynet_handle.c: `register` is
--   skynet_handle_register, with `scan`, `rehash`, `expand` and `occupy` as its parts, `lookup` the
--   test that skynet_handle_grab and skynet_handle_retire share. Handle/Slots is about the scan,
--   Handle/Rehash and Handle/Expand about more slots, Handle/Register, Handle/Retire and Handle/Init
--   about the operations. Handle/Names models its names: `findname` and `insert_name` are
--   skynet_handle_findname and _insert_name, `retire` and `retireall` the operations on slots and
--   names. Handle/Names/Table says what a table represents; Search, Shift, Insert, Named, Retire, Kept
--   and All beside it hold the proofs about the operations.
-- * Context models the references, the sessions and the sending of skynet-src/skynet_server.c:
--   `context_grab`, `context_release`, `delete_context` (_delete_context), `context_push` and
--   `newsession`, `id_to_hex` (_id_to_hex); Context/Filter has `filter_args` (_filter_args) and
--   `unpack`, what _dispatch_message reads of a size; Context/Send has `send` (skynet_send). Its
--   theorems on queues rest on those of Mq. Context/Push, Context/Life, Context/Send,
--   Context/Undelivered, Context/Session and Context/Hex hold the proofs.
-- * Monitor models skynet-src/skynet_monitor.c under the names of its functions; Monitor/Alarm says
--   when a check reports a service.
-- * Harbor models the test for remote handles of skynet-src/skynet_harbor.c; Harbor/Remote relates it
--   to the handles that Handle gives.
-- * Socket models the slots of `struct socket_server` of skynet-src/socket_server.c, over an operating
--   system given as a parameter. Socket/Buffers has the functions from force_close to send_socket,
--   Socket/Requests the ids and the control commands, Socket/Events opening, the events of the poll
--   and `ctrl_cmd`. A handler of one slot gets the slot and returns it. Socket/Stream, Socket/Flush,
--   Socket/Queueing and Socket/Send follow the bytes of a socket; Socket/Invariant says what a
--   well-formed slot is, and Socket/Starting, Socket/Closing, Socket/Commands, Socket/Polled,
--   Socket/Accepting and Socket/Handled that it stays so; Socket/Ids is about reserve_id,
--   Socket/Stale about an id used twice.
-- * Each Tests module has runs at concrete inputs and the theorems at such inputs.
--
-- Conventions. A `uint32_t` or `int` that may wrap is its bit pattern, below 2 ^ 32. A failed
-- assertion, an index outside an array and a read of an unwritten cell abort: `none`, or `aborted`.
-- A pointer is a number or, where only what it points to matters, that value. Linked lists are lists.
-- A `size_t` has 64 bits.
--
-- Fuel. `timer_shift` recurs on fuel, of which 4 is enough for every time but 0, where no fuel is.
-- `send_list` needs one unit for each interruption of a `write` and each buffer, and one more.
-- `register` needs two units below 2 ^ 24 slots, one for each round of its outer loop, and so does
-- `retireall`. `search` needs one unit more than the table has names, `drop_loop` one more than the
-- queue has messages.
--
-- Not modelled: the spin locks (an operation is the code between LOCK and UNLOCK, so operations on
-- one object do not overlap), memory allocation (which does not fail), and the kernel parts that
-- only call the operating system. The schedule follows a queue from the creation of its service on
-- while the service lives: the release of a queue, which skynet_context_message_dispatch calls when no
-- context has its handle, is not a step of it. Of the socket server the loop of socket_server_poll,
-- the pipe that carries the requests (a request is a value, with an id that is not negative) and the
-- retry of reserve_id after another thread took a slot are left out. `register` makes one step of
-- skynet_handle_register and the skynet_context_init after its lock.
pub mod Base
pub mod Context
pub mod GlobalQueue
pub mod Mq
pub mod Timer
pub mod Handle
pub mod Monitor
pub mod Harbor
pub mod Socket
