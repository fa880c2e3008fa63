-- ===== src/Timer.antt =====
-- The timing wheel of skynet-src/skynet_timer.c. An `int` or `uint32_t` is its bit pattern, below
-- 2 ^ 32. A list of nodes stands for a `struct link_list`: `link` appends at its tail, and
-- `link_clear` empties it. The code runs under the timer's lock, which is left out.
pub mod Place
pub mod Cascade
pub mod Pending
pub mod Shift
pub mod Update
pub mod Ticks
pub mod Clock
mod Tests
use skynet_note.Base.{
  ℕ, zero, suc, ◌+◌, ◌-◌, ◌*◌, ◌/◌, ◌%◌, ◌^◌, Bool, false, ◌&&◌, List, [], ◌∷◌, ◌++◌, map, ◌==◌,
  ltb, leb, if◌then◌else◌, bit_and, bit_or,
}
use skynet_note.Base.{Option, none, some}
pub use skynet_note.Base.Run.{Run, done, aborted, unfinished, ◌>>=◌}
use skynet_note.Mq.{Message}

-- `struct timer_node` with the `struct timer_event` behind it
pub record Node : Type 0 where
  pub expire : ℕ
  pub handle : ℕ
  pub session : ℕ

-- The lists of `struct timer`: `near[j]` and `t[i][j]`
pub data Slot : Type 0 where
  near : ℕ → Slot
  wheel : ℕ → ℕ → Slot

abbrev pub slot_eq : Slot → Slot → Bool
slot_eq (near j) (near k) = j == k
slot_eq (wheel i j) (wheel k l) = (i == k) && (j == l)
slot_eq _ _ = false

-- `struct timer`
pub record Timer : Type 0 where
  pub slots : Slot → List Node
  pub time : ℕ
  pub current : ℕ
  pub starttime : ℕ

abbrev pub word32 : ℕ
word32 = 2 ^ 32

-- `TIME_NEAR_MASK` and `TIME_LEVEL_MASK`
abbrev pub time_near_mask : ℕ
time_near_mask = 255

abbrev pub time_level_mask : ℕ
time_level_mask = 63

-- `x - 1` and `x << 6` of an `int`
abbrev pub pred32 : ℕ → ℕ
pred32 x = (x + word32 - 1) % word32

abbrev pub shl6 : ℕ → ℕ
shl6 x = x * 64 % word32

-- `x >> k` of an `int`, which copies the sign bit.
abbrev pub sar : ℕ → ℕ → ℕ
sar x k = if ltb x (2 ^ 31) then x / 2 ^ k else x / 2 ^ k + (word32 - 2 ^ (32 - k))

-- `link`
unfoldable pub link : Timer → Slot → Node → Timer
link T s node = record T {
  slots = λ r. if slot_eq s r then T.slots r ++ (node ∷ []) else T.slots r;
}

-- `link_clear`, whose result is `T.slots s`
unfoldable pub link_clear : Timer → Slot → Timer
link_clear T s = record T { slots = λ r. if slot_eq s r then [] else T.slots r }

-- The loop of `add_node` with `n` rounds left.
unfoldable pub find_level : ℕ → ℕ → ℕ → ℕ → ℕ → ℕ
find_level zero time current_time mask i = i
find_level (suc n) time current_time mask i =
    let rest = find_level n time current_time (shl6 mask) (i + 1) in
    if bit_or time (pred32 mask) == bit_or current_time (pred32 mask) then i else rest

-- `add_node`; the index -1 into `t[i]` aborts.
unfoldable pub add_node : Timer → Node → Run Timer
add_node T node =
    if bit_or node.expire time_near_mask == bit_or T.time time_near_mask
    then done (link T (near (bit_and node.expire time_near_mask)) node)
    else (let i = find_level 3 node.expire T.time (256 * 64) 0 in
        let idx = bit_and (sar node.expire (8 + i * 6)) time_level_mask in
        if idx == 0 then aborted else done (link T (wheel i (idx - 1)) node))

-- `timer_add`
unfoldable pub timer_add : Timer → ℕ → ℕ → ℕ → Run Timer
timer_add T handle session time =
    add_node T (record { expire = (time + T.time) % word32; handle = handle; session = session })

-- The inner loop of `timer_shift`
unfoldable pub add_nodes : Timer → List Node → Run Timer
add_nodes T [] = done T
add_nodes T (node ∷ rest) = add_node T node >>= λ T'. add_nodes T' rest

-- The outer loop of `timer_shift`, on fuel; a level from 4 on is outside the array.
unfoldable pub shift_loop : ℕ → Timer → ℕ → ℕ → ℕ → Run Timer
shift_loop zero T mask time i = unfinished
shift_loop (suc fuel) T mask time i =
    let rest = shift_loop fuel T (shl6 mask) (sar time 6) (i + 1) in
    if bit_and T.time (pred32 mask) == 0
    then (let idx = bit_and time time_level_mask in
        if idx == 0
        then rest
        else if leb 4 i
        then aborted
        else add_nodes (link_clear T (wheel i (idx - 1))) (T.slots (wheel i (idx - 1))))
    else done T

-- `timer_shift`
unfoldable pub timer_shift : ℕ → Timer → Run Timer
timer_shift fuel T =
    let T' = record T { time = (T.time + 1) % word32 } in shift_loop fuel T' 256 (sar T'.time 8) 0

-- The message of an expired node: `PTYPE_RESPONSE << HANDLE_REMOTE_SHIFT`, and the service that
-- `skynet_context_push` is called for.
abbrev pub response : ℕ → Message
response session = record { source = 0; session = session; content = 0; sz = 0x1000000 }

abbrev pub dispatch : Node → ℕ × Message
dispatch node = (node.handle, response node.session)

-- `timer_execute`: the nodes that it dispatches and frees. Dispatching does not touch the timer,
-- so the loop's second test finds the list that it has cleared.
unfoldable pub timer_execute : Timer → List Node × Timer
timer_execute T = let s = near (bit_and T.time time_near_mask) in (T.slots s, link_clear T s)

-- `timer_update`: the calls of `skynet_context_push`, in order
unfoldable pub timer_update : ℕ → Timer → Run (List (ℕ × Message) × Timer)
unfolding timer_execute
timer_update fuel T =
    let (now, T1) = timer_execute T in
    timer_shift fuel T1 >>= λ T2.
    let (due, T3) = timer_execute T2 in done (map dispatch now ++ map dispatch due, T3)

-- `timer_create_timer`
unfoldable pub timer_create_timer : Timer
timer_create_timer = record { slots = λ s. []; time = 0; current = 0; starttime = 0 }

-- `_gettime`, from what `clock_gettime` gives
unfoldable pub gettime : ℕ → ℕ → ℕ
gettime tv_sec tv_nsec = (bit_and tv_sec 0xffffff * 100 % word32 + tv_nsec / 10000000) % word32

-- The ticks that `skynet_updatetime` makes up for
unfoldable pub tick_count : ℕ → ℕ → ℕ
tick_count ct current =
    if leb current ct then ct - current else ((0xffffff + 1) * 100 + word32 - current + ct) % word32

-- `n` calls of `timer_update`
unfoldable pub update_loop : ℕ → ℕ → Timer → Run (List (ℕ × Message) × Timer)
update_loop zero fuel T = done ([], T)
update_loop (suc n) fuel T = timer_update fuel T >>= λ (out, T').
    update_loop n fuel T' >>= λ (out', T''). done (out ++ out', T'')

-- `skynet_updatetime` at the time `ct`
unfoldable pub updatetime : ℕ → ℕ → Timer → Run (List (ℕ × Message) × Timer)
unfolding tick_count update_loop
updatetime fuel ct T =
    if ct == T.current
    then done ([], T)
    else update_loop (tick_count ct T.current) fuel (record T { current = ct })

-- `skynet_timer_init`, from two readings of the monotonic clock and one of the real-time clock
unfoldable pub timer_init : ℕ → ℕ → ℕ → ℕ → ℕ → Timer
unfolding timer_create_timer gettime
timer_init mono_sec mono_nsec real_sec later_sec later_nsec =
    let mono = gettime later_sec later_nsec / 100 in
    record timer_create_timer {
      current = gettime mono_sec mono_nsec;
      starttime = (real_sec % word32 + word32 - mono) % word32;
    }

-- `skynet_timeout`: `delivers` says whether `skynet_context_push` finds the service; -1 is `none`.
-- The result holds the call of `skynet_context_push`, if there is one.
unfoldable pub timeout :
    (ℕ → Message → Bool) → Timer → ℕ → ℕ → ℕ → Run (Option ℕ × List (ℕ × Message) × Timer)
unfolding timer_add
timeout delivers T handle time session =
    if time == 0
    then (let m = response session in
        done (if delivers handle m then some session else none, (handle, m) ∷ [], T))
    else timer_add T handle session time >>= λ T'. done (some session, [], T')
