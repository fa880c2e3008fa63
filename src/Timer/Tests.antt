-- ===== src/Timer/Tests.antt =====
-- Runs of the timer, and its theorems at concrete wheels.
use skynet_note.Base.{ℕ, ◌≡◌, ◌+◌, refl, true, some, List, [], ◌∷◌, arith, leb, if◌then◌else◌, map}
use skynet_note.Timer.{
  done, aborted, unfinished, Node, Timer, near, wheel, link, dispatch, add_node, add_nodes,
  find_level, link_clear, shift_loop, timer_shift, timer_execute, timer_update, timer_add,
  timer_create_timer, update_loop, timeout, gettime, tick_count,
}
use skynet_note.Timer.Place.{place, climb, add_node_lem, timer_add-underflows}
use skynet_note.Timer.Pending.{count, Models, Ahead, link-Models}
use skynet_note.Timer.Shift.{timer_shift-Models, timer_shift_wraps}
use skynet_note.Timer.Update.{Fires, timer_create_timer-Models, timer_update-Fires}
use skynet_note.Timer.Ticks.{timer_of, without_until, timeout-adds, update_loop-fires}
use skynet_note.Timer.Clock.{tick_count_elapsed}

program : Unit {0}
unfolding timer_create_timer timer_add timer_update timer_execute timer_shift shift_loop add_node
    add_nodes find_level link link_clear update_loop place climb
program = tt

abbrev soon : Node
soon = record { expire = 1; handle = 7; session = 40 }

abbrev later_node : Node
later_node = record { expire = 300; handle = 8; session = 41 }

-- A new wheel with both nodes
abbrev two_nodes : Timer
two_nodes = link (link timer_create_timer (near 1) soon) (wheel 0 0) later_node

abbrev two_pending : Node → ℕ
two_pending n = 0 + count n (soon ∷ []) + count n (later_node ∷ [])

two_nodes-Models : Models two_nodes two_pending
unfolding program
two_nodes-Models =
    link-Models later_node (link-Models soon timer_create_timer-Models (omega arith) (omega arith))
      (omega arith) (omega arith)

two_nodes-Ahead : Ahead two_nodes two_pending
unfolding program
two_nodes-Ahead n h = ground arith

-- The code puts the nodes there, and dispatches them at their ticks.
adds_two : add_nodes timer_create_timer (soon ∷ later_node ∷ []) ≡ done two_nodes
unfolding program
adds_two = refl

fires_two :
    (T : Timer) × (update_loop 300 4 two_nodes ≡ done (map dispatch (soon ∷ later_node ∷ []), T))
unfolding program
fires_two = (_, refl)

time-two_nodes : two_nodes.time ≡ 0
unfolding program
time-two_nodes = refl

timer_update-Fires_example :
    Fires (timer_update 4 two_nodes) two_nodes two_pending (two_nodes.time + 1)
timer_update-Fires_example =
    timer_update-Fires 4 two_nodes-Models two_nodes-Ahead (omega (arith, time-two_nodes))
      (omega arith)

update_loop-fires_example :
    (fired : List Node) × (T' : Timer) × (update_loop 300 4 two_nodes
      ≡ done (map dispatch fired, T'))
    × ((n : Node)
        → count n fired ≡ (if leb n.expire (two_nodes.time + 300) then two_pending n else 0))
    × Models T' (without_until (two_nodes.time + 300) two_pending)
    × Ahead T' (without_until (two_nodes.time + 300) two_pending)
    × (T'.time ≡ two_nodes.time + 300)
    × (T'.current ≡ two_nodes.current)
update_loop-fires_example =
    update_loop-fires 300 4 two_nodes-Models two_nodes-Ahead (omega (arith, time-two_nodes))
      (omega arith)

timer_shift-Models_example :
    (T' : Timer) × (timer_shift 4 two_nodes ≡ done T')
    × Models T' two_pending
    × (T'.time ≡ two_nodes.time + 1)
    × (T'.current ≡ two_nodes.current)
timer_shift-Models_example =
    timer_shift-Models 4 two_nodes-Models two_nodes-Ahead (omega (arith, time-two_nodes))
      (omega arith)

timeout-adds_example :
    let x = timer_of two_nodes 9 42 20000 in
    (T' : Timer) × (timeout (λ h m. true) two_nodes 9 20000 42 ≡ done (some 42, [], T'))
    × Models T' (λ n. two_pending n + count n (x ∷ []))
    × Ahead T' (λ n. two_pending n + count n (x ∷ []))
    × (T'.time ≡ two_nodes.time)
timeout-adds_example =
    timeout-adds (λ h m. true) 9 20000 42 two_nodes-Models two_nodes-Ahead (omega arith)
      (omega (arith, time-two_nodes))

add_node_lem_example :
    add_node two_nodes later_node ≡ done (link two_nodes (place two_nodes.time 300) later_node)
add_node_lem_example =
    add_node_lem two_nodes later_node (omega (arith, time-two_nodes)) (omega arith)

abbrev last_tick : Timer
last_tick = record { slots = λ s. []; time = 0xffffffff; current = 0; starttime = 0 }

timer_shift_wraps_example : timer_shift 9 last_tick ≡ unfinished
timer_shift_wraps_example = timer_shift_wraps 9 last_tick refl

timer_add-underflows_example : timer_add last_tick 7 40 100 ≡ aborted
timer_add-underflows_example =
    timer_add-underflows last_tick 7 40 100 (omega arith) (omega arith) (omega arith) (omega arith)

-- Across the end of the clock's period
tick_count_elapsed_example : tick_count (gettime 16777216 20000000) (gettime 16777215 990000000) ≡ 3
tick_count_elapsed_example =
    tick_count_elapsed 16777215 990000000 16777216 20000000 (omega arith) (omega arith)
      (omega arith) (omega arith)
