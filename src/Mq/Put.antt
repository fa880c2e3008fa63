-- ===== src/Mq/Put.antt =====
-- Writing a message into a queue of skynet-src/skynet_mq.c, at the tail and at the head.
use skynet_note.Base.{
  ℕ, suc, ◌+◌, ◌-◌, ◌*◌, ◌%◌, ◌<◌, ◌≡◌, refl, ap, ◌∙◌, sym, Option, some, List, [], ◌∷◌, ◌++◌,
  arith, false, ◌==◌, ==_iff, lt→ltb, Bool-cases, inl, inr, if◌then◌else◌, length, set,
  length-append, ◌>>=◌,
}
use skynet_note.Mq.{
  Message, MessageQueue, int_limit, advance, write, expand_queue, put_head, put_tail,
}
use skynet_note.Mq.Window.{
  Window, Window-append, Window-cons, Window-double, ring_cases, ring_next, ring-lt, ring_advance,
  ring_full,
}
use skynet_note.Mq.Fifo.{Represents, SameFlags}

-- Growing keeps the messages: they stand from index 0 on, and the block has twice the cells.
expand_queue_lem :
    (q : MessageQueue) {ms : List Message}
    → Window q.queue q.cap q.head ms
    → q.cap * 2 < int_limit
    → (cells : List (Option Message)) × (expand_queue q
        ≡ some (record q { head = 0; tail = q.cap; cap = q.cap * 2; queue = cells }))
      × Window cells (q.cap * 2) 0 ms
unfolding expand_queue
expand_queue_lem q w small = (_, rw (lt→ltb _ _ small), Window-double w)

write_lem :
    (q : MessageQueue) (i : ℕ) (m : Message)
    → i < length q.queue
    → write q i m ≡ some (record q { queue = set q.queue i (some m) })
unfolding write
write_lem q i m h = rw (lt→ltb _ _ h)

tail-lt-length : {q : MessageQueue} {ms : List Message} → Represents q ms → q.tail < length q.queue
tail-lt-length {q} {ms} r = omega (
  arith,
  r.tail_at,
  r.window.storage,
  ring-lt q.cap q.head (length ms) r.window.head_in (omega (arith, r.spare)),
)

-- Indices that do not meet after a write leave a cell to spare.
ring_room_at :
    (cap h n t : ℕ) → h < cap → n < cap → (h == t) ≡ false → t ≡ (h + suc n) % cap → suc n < cap
ring_room_at cap h n t hh hn room next = ground (arith, ring_cases cap h (suc n) hh (omega arith))

ring_start : (cap : ℕ) → 0 < cap → (0 + cap) % (cap * 2) ≡ cap
ring_start cap h = omega (arith, ring_cases (cap * 2) 0 cap (omega arith) (omega arith))

-- `ms` with one more message at the tail, in a larger block if the spare cell is used up.
pub put_tail-Represents :
    {q : MessageQueue} {ms : List Message} (m : Message)
    → Represents q ms
    → q.cap * 2 < int_limit
    → (q' : MessageQueue) × (put_tail q m ≡ some q')
      × Represents q' (ms ++ (m ∷ []))
      × SameFlags q q'
unfolding put_tail
put_tail-Represents {q} {ms} m r small =
    let n = length ms in
    let more : length (ms ++ (m ∷ [])) ≡ suc n = omega (arith, length-append ms (m ∷ [])) in
    let cells = set q.queue q.tail (some m) in
    let w : Window cells q.cap q.head (ms ++ (m ∷ [])) =
      Window-append m q.tail r.window r.spare r.tail_at in
    let q1 : MessageQueue = record q { queue = cells; tail = advance q q.tail } in
    let next : q1.tail ≡ (q.head + suc n) % q.cap =
      ring_advance q.cap q.head n q.tail r.window.head_in r.spare r.tail_at in
    rw (write_lem q q.tail m (tail-lt-length r)) (elim (Bool-cases (q1.head == q1.tail)) [
      | inl full ↦
          let (cells', e, w') = expand_queue_lem q1 w small in
          let all : suc n ≡ q.cap =
            ring_full q.cap q.head n r.window.head_in r.spare ((==_iff _ _).0 full ∙ next) in
          (
            record q1 { head = 0; tail = q.cap; cap = q.cap * 2; queue = cells' },
            rw full e,
            record {
              window = w';
              spare = omega (arith, more, all);
              tail_at = rw (more, all) (sym (ring_start q.cap (omega (arith, r.spare))));
            },
            ground arith,
          )
      | inr room ↦ (
        q1,
        rw room,
        record {
          window = w;
          spare = rw more (ring_room_at q.cap q.head n q1.tail r.window.head_in r.spare room next);
          tail_at = rw more next;
        },
        ground arith,
      )
    ])

-- The cell before the head, as `_pushhead` computes it.
abbrev before : MessageQueue → ℕ
before q = if q.head == 0 then q.cap - 1 else q.head - 1

module _ {q : MessageQueue} {ms : List Message} (r : Represents q ms) where
  before-lt : before q < q.cap
  before-lt = ground (arith, r.window.head_in)

  before_next : (before q + 1) % q.cap ≡ q.head
  before_next = ground (arith, ring_cases q.cap (before q) 1 before-lt, r.window.head_in)

  tail-eq_before : q.tail ≡ (before q + suc (length ms)) % q.cap
  tail-eq_before =
      r.tail_at
      ∙ ap (λ k. (k + length ms) % q.cap) (sym before_next)
      ∙ ring_next q.cap (before q) (length ms)

  before_full : before q ≡ q.tail → suc (length ms) ≡ q.cap
  before_full e = ring_full q.cap (before q) (length ms) before-lt r.spare (e ∙ tail-eq_before)

  before_room : (before q == q.tail) ≡ false → suc (length ms) < q.cap
  before_room h =
      ring_room_at q.cap (before q) (length ms) q.tail before-lt r.spare h tail-eq_before

-- The end of a block of twice the size comes just before its index 0.
module _ (cap : ℕ) (pos : 0 < cap) where
  last_next : (cap * 2 - 1 + 1) % (cap * 2) ≡ 0
  last_next = omega (arith, ring_cases (cap * 2) (cap * 2 - 1) 1 (omega arith) (omega arith))

  last_add : (cap * 2 - 1 + cap) % (cap * 2) ≡ cap - 1
  last_add = omega (arith, ring_cases (cap * 2) (cap * 2 - 1) cap (omega arith) (omega arith))

-- `ms` with one more message at the head, in a larger block if the spare cell is used up.
pub put_head-Represents :
    {q : MessageQueue} {ms : List Message} (m : Message)
    → Represents q ms
    → q.cap * 2 < int_limit
    → (q' : MessageQueue) × (put_head q m ≡ some q') × Represents q' (m ∷ ms) × SameFlags q q'
unfolding put_head
put_head-Represents {q} {ms} m r small = elim (Bool-cases (before q == q.tail)) [
  | inl full ↦
      let (cells, e, w) = expand_queue_lem q r.window small in
      let all : suc (length ms) ≡ q.cap = before_full r ((==_iff _ _).0 full) in
      let last : ℕ = q.cap * 2 - 1 in
      let grown : MessageQueue = record q {
        head = 0;
        tail = q.cap;
        cap = q.cap * 2;
        queue = cells;
      } in
      let q2 : MessageQueue = record grown { tail = q.cap - 1 } in
      let rehead : MessageQueue → Option MessageQueue = λ v. some (record v { head = last }) in
      let fill : MessageQueue → Option MessageQueue = λ g.
        write (record g { tail = g.tail - 1 }) (g.cap - 1) m >>= λ v.
        some (record v { head = g.cap - 1 }) in
      let put : write q2 last m ≡ some (record q2 { queue = set cells last (some m) }) =
        write_lem q2 last m (omega (arith, w.storage, all)) in
      (
        record q2 { head = last; queue = set cells last (some m) },
        rw full (ap (λ o. o >>= fill) e ∙ ap (λ o. o >>= rehead) put),
        record {
          window =
              Window-cons m last w (omega (arith, all)) (omega (arith, all))
                (last_next q.cap (omega (arith, all)));
          spare = omega (arith, all);
          tail_at = rw all (sym (last_add q.cap (omega (arith, all))));
        },
        ground arith,
      )
  | inr room ↦ (
    record q { head = before q; queue = set q.queue (before q) (some m) },
    rw (room, write_lem q (before q) m (omega (arith, before-lt r, r.window.storage))) refl,
    record {
      window = Window-cons m (before q) r.window r.spare (before-lt r) (before_next r);
      spare = before_room r room;
      tail_at = tail-eq_before r;
    },
    ground arith,
  )
]
