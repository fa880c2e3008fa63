-- ===== src/Handle.antt =====
-- The slots of `struct handle_storage` in skynet-src/skynet_handle.c: which service context a handle
-- names. A context is its address; `handle_of` is the field that `skynet_context_handle` reads. Each
-- function runs under the storage's lock. `skynet_handle_register` calls `skynet_context_init` just
-- after it releases the lock; here that belongs to the same step.
pub mod Slots
pub mod Rehash
pub mod Lookup
pub mod Expand
pub mod Register
pub mod Retire
pub mod Init
pub mod Names
mod Tests
use skynet_note.Base.{
  ℕ, zero, suc, ◌+◌, ◌-◌, ◌*◌, ◌%◌, ◌^◌, Option, none, some, List, [], ◌∷◌, ◌==◌, leb,
  if◌then◌else◌, bit_and, bit_or, length, get_or, set, replicate,
}
use skynet_note.Base.Run.{Run, done, aborted, unfinished, ◌>>=◌}

-- `HANDLE_MASK` of skynet_harbor.h
abbrev pub handle_mask : ℕ
handle_mask = 0xffffff

-- `DEFAULT_SLOT_SIZE`
abbrev pub default_slot_size : ℕ
default_slot_size = 4

-- `uint32_t` arithmetic wraps.
abbrev pub word32 : ℕ
word32 = 2 ^ 32

-- `struct handle_storage` but for its lock and its names; an empty slot is `none`.
pub record Storage : Type 0 where
  pub harbor : ℕ
  pub handle_index : ℕ
  pub slot_size : ℕ
  pub slot : List (Option ℕ)

-- `skynet_handle_init`, the part about slots
unfoldable pub handle_init : ℕ → Storage
handle_init harbor = record {
  harbor = bit_and harbor 0xff * 2 ^ 24 % word32;
  handle_index = 1;
  slot_size = default_slot_size;
  slot = replicate default_slot_size none;
}

-- `handle & (s->slot_size-1)`
abbrev pub hash : ℕ → ℕ → ℕ
hash slot_size handle = bit_and handle (slot_size - 1)

-- The handle that the loop of `skynet_handle_register` tries in round `i`
abbrev pub candidate : Storage → ℕ → ℕ
candidate s i = bit_and ((i + s.handle_index) % word32) handle_mask

-- That loop with `n` rounds left: the first handle whose slot is empty.
unfoldable pub scan : ℕ → ℕ → Storage → Option ℕ
scan zero i s = none
scan (suc n) i s =
    let rest = scan n (i + 1) s in
    elim (get_or s.slot (hash s.slot_size (candidate s i)) none) [
      | none ↦ some (candidate s i)
      | some ctx ↦ rest
    ]

-- The loop that moves the contexts of the slots `cells` into a block of `size` slots. It reads the
-- handle of each, so an empty slot aborts, and it asserts that the new slot is empty.
unfoldable pub rehash : (ℕ → ℕ) → ℕ → List (Option ℕ) → List (Option ℕ) → Run (List (Option ℕ))
rehash handle_of size [] new_slot = done new_slot
rehash handle_of size (none ∷ cells) new_slot = aborted
rehash handle_of size (some ctx ∷ cells) new_slot =
    let h = hash size (handle_of ctx) in
    let rest = rehash handle_of size cells (set new_slot h (some ctx)) in
    elim (get_or new_slot h none) [ none ↦ rest | some other ↦ aborted ]

-- The rest of the outer loop's body: twice as many slots.
unfoldable pub expand : (ℕ → ℕ) → Storage → Run Storage
unfolding rehash
expand handle_of s =
    if leb (s.slot_size * 2 - 1) handle_mask
    then (rehash handle_of (s.slot_size * 2) s.slot (replicate (s.slot_size * 2) none)
        >>= λ new_slot. done (record s { slot = new_slot; slot_size = s.slot_size * 2 }))
    else aborted

abbrev pub update : (ℕ → ℕ) → ℕ → ℕ → ℕ → ℕ
update f i a j = if i == j then a else f j

-- What `skynet_handle_register` returns and leaves: the handle, the storage, and the handles of the
-- contexts.
pub record Registered : Type 0 where
  pub handle : ℕ
  pub storage : Storage
  pub handle_of : ℕ → ℕ

-- The handle found is recorded: `handle |= s->harbor` and `skynet_context_init`.
unfoldable pub occupy : (ℕ → ℕ) → Storage → ℕ → ℕ → Registered
occupy handle_of s ctx handle = record {
  handle = bit_or handle s.harbor;
  storage = record s {
    slot = set s.slot (hash s.slot_size handle) (some ctx);
    handle_index = (handle + 1) % word32;
  };
  handle_of = update handle_of ctx (bit_or handle s.harbor);
}

-- `skynet_handle_register`, on fuel for its outer loop
unfoldable pub register : ℕ → (ℕ → ℕ) → Storage → ℕ → Run Registered
register zero handle_of s ctx = unfinished
register (suc fuel) handle_of s ctx = elim (scan s.slot_size 0 s) [
  | some handle ↦ done (occupy handle_of s ctx handle)
  | none ↦ expand handle_of s >>= λ s'. register fuel handle_of s' ctx
]

-- `ctx && skynet_context_handle(ctx) == handle` for a slot's cell
unfoldable pub named : (ℕ → ℕ) → ℕ → Option ℕ → Option ℕ
named handle_of handle none = none
named handle_of handle (some ctx) = if handle_of ctx == handle then some ctx else none

-- The context that `skynet_handle_grab` and `skynet_handle_retire` find for a handle
unfoldable pub lookup : (ℕ → ℕ) → Storage → ℕ → Option ℕ
unfolding named
lookup handle_of s handle = named handle_of handle (get_or s.slot (hash s.slot_size handle) none)

-- `skynet_handle_grab`: it also takes a reference on the context.
unfoldable pub grab : (ℕ → ℕ) → (ℕ → ℕ) → Storage → ℕ → Option ℕ × (ℕ → ℕ)
unfolding lookup
grab handle_of ref s handle = elim (lookup handle_of s handle) [
  | none ↦ (none, ref)
  | some ctx ↦ (some ctx, update ref ctx (ref ctx + 1))
]

-- `skynet_handle_retire`, the part about slots: the context to be released, if there is one, and
-- the storage without it
unfoldable pub retire_slot : (ℕ → ℕ) → Storage → ℕ → Option ℕ × Storage
unfolding lookup
retire_slot handle_of s handle = elim (lookup handle_of s handle) [
  | none ↦ (none, s)
  | some ctx ↦ (some ctx, record s { slot = set s.slot (hash s.slot_size handle) none })
]
