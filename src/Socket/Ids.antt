-- ===== src/Socket/Ids.antt =====
-- `reserve_id` of skynet-src/socket_server.c: which slot it takes, and when it takes none.
use skynet_note.Base.{
  ℕ, zero, suc, ◌+◌, ◌-◌, ◌%◌, ◌^◌, ◌<◌, ◌≡◌, refl, sym, ap, ◌∙◌, subst, arith, true, false,
  Bool-cases, ℕ_discrete, inl, inr, Option, none, some, ltb, bit_and_mask,
}
use skynet_note.Socket.{max_socket, invalid, reserve, is_type, Server, put}
use skynet_note.Socket.Requests.{next_id, reserve_loop, reserve_id}

-- The next id is not negative, and its slot is the next one.
pub next_id_lem : (a : ℕ) → (next_id a < 2 ^ 31) × (next_id a % 2 ^ 16 ≡ (a + 1) % 2 ^ 16)
unfolding next_id
next_id_lem a = elim (Bool-cases (ltb ((a + 1) % 2 ^ 32) (2 ^ 31))) [
  | inl small ↦ ground (arith, small)
  | inr large ↦ ground (arith, large, bit_and_mask 31 ((a + 1) % 2 ^ 32))
]

-- The slot `i` is free, and it is reserved for the id.
pub record Reserves (ss : Server) (id : ℕ) (ss' : Server) : Type 0 where
  pub positive : id < 2 ^ 31
  pub was_free : is_type (ss.slot (id % max_socket)).type invalid ≡ true
  pub taken :
      ss'
      ≡ put
          (record ss { alloc_id = id })
          (id % max_socket)
          (record (ss.slot (id % max_socket)) { type = reserve })

reserve_loop-free :
    (n : ℕ) (ss : Server)
    → is_type (ss.slot (next_id ss.alloc_id % max_socket)).type invalid ≡ true
    → reserve_loop (suc n) ss ≡ (
      some (next_id ss.alloc_id),
      put
          (record ss { alloc_id = next_id ss.alloc_id })
          (next_id ss.alloc_id % max_socket)
          (record (ss.slot (next_id ss.alloc_id % max_socket)) { type = reserve }),
    )
unfolding reserve_loop
reserve_loop-free n ss e = rw e

reserve_loop-busy :
    (n : ℕ) (ss : Server)
    → is_type (ss.slot (next_id ss.alloc_id % max_socket)).type invalid ≡ false
    → reserve_loop (suc n) ss ≡ reserve_loop n (record ss { alloc_id = next_id ss.alloc_id })
unfolding reserve_loop
reserve_loop-busy n ss e = rw e

-- How the loop may end from the state `ss`, with `n` rounds: a slot is reserved, or none of the next
-- `n` slots was free and only the counter has moved.
abbrev Reserved : ℕ → Server → Option ℕ × Server → Type 0
Reserved n ss (some id, ss') = Reserves ss id ss'
Reserved n ss (none, ss') =
    (ss'.slot ≡ ss.slot)
    × ((i j : ℕ)
        → j < n
        → i ≡ (ss.alloc_id + 1 + j) % 2 ^ 16
        → is_type (ss.slot i).type invalid ≡ false)

later_Reserved :
    (n : ℕ) (ss : Server) (r : Option ℕ × Server)
    → is_type (ss.slot (next_id ss.alloc_id % max_socket)).type invalid ≡ false
    → Reserved n (record ss { alloc_id = next_id ss.alloc_id }) r
    → Reserved (suc n) ss r
later_Reserved n ss (some id, ss') busy g = record {
  positive = g.positive;
  was_free = g.was_free;
  taken = g.taken;
}
later_Reserved n ss (none, ss') busy (same, tried) = (
  same,
  λ i j below at. elim (ℕ_discrete j 0) [
    | yes first ↦
        let here : i ≡ next_id ss.alloc_id % max_socket =
          omega (arith, at, first, (next_id_lem ss.alloc_id).1) in
        ap (λ k. is_type (ss.slot k).type invalid) here ∙ busy
    | no later ↦
        tried i (j - 1) (omega (arith, below, later))
          (omega (arith, at, later, (next_id_lem ss.alloc_id).1))
  ],
)

reserve_loop_lem : (n : ℕ) (ss : Server) → Reserved n ss (reserve_loop n ss)
unfolding reserve_loop
reserve_loop_lem zero ss = (refl, λ i j below at. absurd (omega (arith, below)))
reserve_loop_lem (suc n) ss =
    elim (Bool-cases (is_type (ss.slot (next_id ss.alloc_id % max_socket)).type invalid)) [
      | inl free ↦
          subst (Reserved (suc n) ss) (sym (reserve_loop-free n ss free))
            (record { positive = (next_id_lem ss.alloc_id).0; was_free = free; taken = refl })
      | inr busy ↦ subst (Reserved (suc n) ss) (sym (reserve_loop-busy n ss busy)) (
          later_Reserved n ss (reserve_loop n (record ss { alloc_id = next_id ss.alloc_id })) busy
            (reserve_loop_lem n (record ss { alloc_id = next_id ss.alloc_id })))
    ]

-- How `reserve_id` may end: it reserves a free slot under a non-negative id and leaves the others, or
-- no slot is free and it leaves them all.
abbrev pub Allocates : Server → Option ℕ × Server → Type 0
Allocates ss (some id, ss') = Reserves ss id ss'
Allocates ss (none, ss') =
    (ss'.slot ≡ ss.slot) × ((i : ℕ) → i < max_socket → is_type (ss.slot i).type invalid ≡ false)

-- While no other thread reserves a slot, `reserve_id` reserves a free slot under a non-negative id and
-- leaves the others alone; it fails only when none of the slots is free.
pub reserve_id_lem : (ss : Server) → Allocates ss (reserve_id ss)
unfolding reserve_id
reserve_id_lem ss = all_tried (reserve_loop max_socket ss) (reserve_loop_lem max_socket ss)
  where
    all_tried : (r : Option ℕ × Server) → Reserved max_socket ss r → Allocates ss r
    all_tried (some id, ss') g = g
    all_tried (none, ss') (same, tried) = (
      same,
      λ i below.
          tried i ((i + 2 ^ 17 - (ss.alloc_id + 1) % 2 ^ 16) % 2 ^ 16) (omega arith)
            (omega (arith, below)),
    )
