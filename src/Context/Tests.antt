-- ===== src/Context/Tests.antt =====
-- Runs of skynet-src/skynet_server.c on a node of one service, and inputs at which its theorems apply.
use skynet_note.Base.{
  ◌-◌, ◌^◌, ◌<◌, ◌≡◌, ◌≢◌, refl, none, some, [], ◌∷◌, true, false, arith, length, ◌==◌,
  if◌then◌else◌,
}
use skynet_note.GlobalQueue.{mq_init}
use skynet_note.Mq.{Message, MessageQueue, mq_idle}
use skynet_note.Mq.Fifo.{Represents}
use skynet_note.Harbor.{harbor_message_isremote}
use skynet_note.Context.{
  Context, Node, newsession, context_push, context_release, context_endless, handle_grab,
  cell_named, id_to_hex, hex_loop,
}
use skynet_note.Context.Hex.{colon_value, id_to_hex_lem}
use skynet_note.Context.Session.{after_sessions, newsession_distinct}
use skynet_note.Context.Push.{Serves, Delivered, context_push-delivers}
use skynet_note.Context.Life.{Freed, context_release-frees}
use skynet_note.Context.Filter.{filter_args, take_session, sender_after, pack, unpack}
use skynet_note.Context.Send.{send, with_context, send_lem}

abbrev letter : Message
letter = record { source = 3; session = 0; content = 90; sz = 5 }

-- A ring of two cells, with one message in its last cell
abbrev waiting_queue : MessageQueue
waiting_queue = record {
  handle = 6;
  cap = 2;
  head = 1;
  tail = 0;
  release = false;
  lock_session = 0;
  in_global = mq_idle;
  queue = none ∷ some letter ∷ [];
}

waiting_queue-Represents : Represents waiting_queue (letter ∷ [])
waiting_queue-Represents = record {
  window = record {
    storage = refl;
    head_in = omega arith;
    fits = omega arith;
    held = λ i h. ground arith;
  };
  spare = omega arith;
  tail_at = refl;
}

abbrev service : Context
service = record { handle = 6; ref = 1; session_id = 41; queue = 3; init = true; endless = false }

-- That service at the address 5
abbrev one_service : Node
one_service = record {
  storage = record {
    harbor = 0;
    handle_index = 7;
    slot_size = 4;
    slot = none ∷ none ∷ some 5 ∷ none ∷ [];
  };
  contexts = λ a. if 5 == a then some service else none;
  queues = λ i. waiting_queue;
  global = mq_init (λ i. 0);
  total = 1;
  released = [];
}

service-Serves : Serves one_service 6 5 service
service-Serves = record {
  cell = refl;
  alive = refl;
  same = refl;
  held = omega arith;
  small = omega arith;
}

hex_of_handle :
    id_to_hex 0x0100002a ≡ b':' ∷ b'0' ∷ b'1' ∷ b'0' ∷ b'0' ∷ b'0' ∷ b'0' ∷ b'2' ∷ b'A' ∷ []
unfolding id_to_hex hex_loop
hex_of_handle = refl

-- A handle that names nothing
endless_nobody : context_endless one_service 7 ≡ some one_service
unfolding context_endless handle_grab cell_named
endless_nobody = refl

id_to_hex_lem_example :
    (length (id_to_hex 0x0100002a) ≡ 9) × (colon_value (id_to_hex 0x0100002a) ≡ some 0x0100002a)
id_to_hex_lem_example = id_to_hex_lem 0x0100002a (omega arith)

newsession_distinct_example :
    ((newsession (after_sessions 1 service)).0 < 2 ^ 31)
    × ((newsession (after_sessions 1 service)).0 ≢ (newsession (after_sessions 4 service)).0)
newsession_distinct_example = newsession_distinct service 1 4 (omega arith) (omega arith)

context_push-delivers_example :
    (t : Node) × (context_push one_service 6 letter ≡ some (0, t))
    × Delivered one_service service (letter ∷ letter ∷ []) t
context_push-delivers_example =
    context_push-delivers one_service 6 5 service letter (letter ∷ []) service-Serves
      waiting_queue-Represents (omega arith) refl

send_to_itself_near : harbor_message_isremote 0x01000000 6 ≡ false
unfolding harbor_message_isremote
send_to_itself_near = refl

-- A type of 128 reaches the receiver as the `int` -128.
type_128 : unpack (pack 128 12) ≡ (2 ^ 32 - 128, 12)
type_128 = refl

-- Type 3 with a new session, and the type 131 with the session given and data that is not copied
filters :
    (filter_args service 0x20003 0 77 12 78
      ≡ some (record {
        context = record service { session_id = 42 };
        session = 42;
        content = 78;
        sz = 0x0300000c;
      }))
    × (filter_args service 0x10083 9 77 12 78
        ≡ some (record { context = service; session = 9; content = 77; sz = 0xffffffff8300000c }))
    × (filter_args service 0x20003 9 77 12 78 ≡ none)
unfolding filter_args take_session newsession
filters = (refl, refl, refl)

send_lem_example :
    (t : Node) × (m : Message) × (send 0x01000000 one_service 5 0 6 0x20003 0 77 12 78
      ≡ some (record { code = 42; node = t; remote = none; freed = [] }))
    × Delivered
        (with_context one_service 5 (sender_after service 0x20003))
        service
        (letter ∷ m ∷ [])
        t
    × (m.source ≡ 6)
    × (m.session ≡ 42)
    × (m.content ≡ 78)
    × (unpack m.sz ≡ (3, 12))
send_lem_example =
    send_lem 0x01000000 one_service 5 0 6 0x20003 0 77 12 78 5 service service (letter ∷ []) refl
      (λ e. refl) (omega arith) (λ e. omega (arith, e)) send_to_itself_near service-Serves
      waiting_queue-Represents (omega arith) (λ ne. absurd (ne refl))

context_release-frees_example :
    (t : Node) × (context_release one_service 5 ≡ some (none, t)) × Freed one_service 5 service t
context_release-frees_example = context_release-frees one_service 5 service refl refl refl
