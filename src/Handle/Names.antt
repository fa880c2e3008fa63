-- ===== src/Handle/Names.antt =====
-- The names of `struct handle_storage` in skynet-src/skynet_handle.c: a table of names in the order
-- of `strcmp`, searched by halving. A name is its bytes, so the copy that `skynet_strdup` makes is the
-- name itself. `strcmp` is the C library's: a parameter, of which only the sign of the result is read.
-- A cell of the table that was never written is `none`, and reading it aborts, as an access outside
-- the table does.
pub mod Table
pub mod Search
pub mod Insert
pub mod Named
pub mod Shift
pub mod Retire
pub mod Kept
pub mod All
mod Tests
use Prim.Native.Nat.{Ordering}
use skynet_note.Base.{
  ℕ, zero, suc, ◌+◌, ◌-◌, ◌*◌, ◌/◌, ◌^◌, Option, none, some, List, [], ◌∷◌, ◌++◌, ◌==◌, ltb,
  if◌then◌else◌, length, get_or, set, replicate, Bool, true, false,
}
use skynet_note.Base.Run.{Run, done, aborted, unfinished, ◌>>=◌}
use skynet_note.Handle.{Storage, lookup, retire_slot, handle_init}

-- The values of `int` stay below this.
abbrev pub int_limit : ℕ
int_limit = 2 ^ 31

-- `struct handle_name`
pub record HandleName (Name : Type 0) : Type 0 where
  pub name : Name
  pub handle : ℕ

-- The fields of `struct handle_storage` for names
pub record Names (Name : Type 0) : Type 0 where
  pub name_cap : ℕ
  pub name_count : ℕ
  pub name : List (Option (HandleName Name))

-- `struct handle_storage` but for its lock
pub record HandleStorage (Name : Type 0) : Type 0 where
  pub slots : Storage
  pub names : Names Name

-- What a search ends with: an entry of the name, or the place where the name belongs.
pub data Found (Name : Type 0) : Type 0 where
  found : HandleName Name → Found Name
  missing : ℕ → Found Name

-- What one round of a search leaves: a result, or a shorter range.
pub data Probe (Name : Type 0) : Type 0 where
  stop : Found Name → Probe Name
  narrow : ℕ → ℕ → Probe Name

abbrev pub Cells : Type 0 → Type 0
Cells Name = List (Option (HandleName Name))

-- A round of `skynet_handle_retireall`: the storage, `n`, and the contexts released so far
pub record Sweep (Name : Type 0) : Type 0 where
  pub storage : HandleStorage Name
  pub count : ℕ
  pub released : List ℕ

abbrev pub to_list {ℓ} : {A : Type ℓ} → Option A → List A
to_list none = []
to_list (some a) = a ∷ []

module _ {Name : Type 0} where
  -- A read of a cell
  unfoldable pub read : Cells Name → ℕ → Run (HandleName Name)
  read cells i = elim (get_or cells i none) [ none ↦ aborted | some e ↦ done e ]

  -- A write of a cell
  unfoldable pub store : Cells Name → ℕ → HandleName Name → Run (Cells Name)
  store cells i e = if ltb i (length cells) then done (set cells i (some e)) else aborted

  -- One round of the loop that `skynet_handle_findname` and `_insert_name` share. `last` is the
  -- source's `end + 1`, since `end` may be -1.
  unfoldable pub probe : (Name → Name → Ordering) → Cells Name → Name → ℕ → ℕ → Run (Probe Name)
  probe strcmp cells name begin last =
      let mid = (begin + (last - 1)) / 2 in
      if ltb begin last
      then (if ltb (begin + (last - 1)) int_limit
          then (read cells mid >>= λ n. elim (strcmp (n.name) name) [
            | Ordering.eq ↦ done (stop (found n))
            | Ordering.lt ↦ done (narrow (mid + 1) last)
            | Ordering.gt ↦ done (narrow begin mid)
          ])
          else aborted)
      else done (stop (missing begin))

  -- That loop, on fuel
  unfoldable pub search :
      (Name → Name → Ordering) → Cells Name → Name → ℕ → ℕ → ℕ → Run (Found Name)
  search strcmp cells name zero begin last = unfinished
  search strcmp cells name (suc fuel) begin last = probe strcmp cells name begin last >>= λ r.
      elim r [ stop a ↦ done a | narrow begin' last' ↦ search strcmp cells name fuel begin' last' ]

  abbrev pub found_handle : Found Name → ℕ
  found_handle (found n) = n.handle
  found_handle (missing begin) = 0

  -- `skynet_handle_findname`: 0 for a name that is not there
  unfoldable pub findname : (Name → Name → Ordering) → Names Name → Name → Run ℕ
  findname strcmp s name =
      search strcmp s.name name (s.name_count + 1) 0 s.name_count >>= λ r. done (found_handle r)

  -- `count` rounds of the loops that copy cells to a new block: from cell `i` on to cell `j` on
  unfoldable pub copy : Cells Name → ℕ → ℕ → ℕ → Cells Name → Run (Cells Name)
  copy src zero i j dst = done dst
  copy src (suc count) i j dst =
      read src i >>= λ e. store dst j e >>= λ dst'. copy src count (i + 1) (j + 1) dst'

  -- The loop that moves the `count` cells from `before` on up by one, the last cell first
  unfoldable pub shift : ℕ → ℕ → Cells Name → Run (Cells Name)
  shift before zero cells = done cells
  shift before (suc count) cells = read cells (before + count) >>= λ e.
      store cells (before + count + 1) e >>= λ cells'. shift before count cells'

  -- The two ways in which `_insert_name_before` makes room at `before`: a table twice as large, and
  -- moving the cells up. Doubling past an `int` is undefined.
  unfoldable pub make_room : Names Name → ℕ → Run (Names Name)
  make_room s before =
      if ltb s.name_count s.name_cap
      then (shift before (s.name_count - before) s.name >>= λ cells.
          done (record s { name = cells }))
      else if ltb (s.name_cap * 2) int_limit
      then (copy s.name before 0 0 (replicate (s.name_cap * 2) none) >>= λ n.
          copy s.name (s.name_count - before) before (before + 1) n >>= λ n'.
          done (record s { name_cap = s.name_cap * 2; name = n' }))
      else aborted

  -- `_insert_name_before`
  unfoldable pub insert_name_before : Names Name → Name → ℕ → ℕ → Run (Names Name)
  insert_name_before s name handle before = make_room s before >>= λ t.
      store t.name before (record { name = name; handle = handle }) >>= λ cells.
      done (record t { name = cells; name_count = t.name_count + 1 })

  abbrev pub insert_found : Names Name → Name → ℕ → Found Name → Run (Option Name × Names Name)
  insert_found s name handle (found n) = done (none, s)
  insert_found s name handle (missing begin) =
      insert_name_before s name handle begin >>= λ t. done (some name, t)

  -- `_insert_name`, and `skynet_handle_namehandle`, which calls it under the lock: `none` is NULL.
  unfoldable pub insert_name :
      (Name → Name → Ordering) → Names Name → Name → ℕ → Run (Option Name × Names Name)
  insert_name strcmp s name handle =
      search strcmp s.name name (s.name_count + 1) 0 s.name_count >>= insert_found s name handle

  -- One round of the loop in `skynet_handle_retire`: an entry of the handle is dropped, another moves
  -- down to cell `j`.
  unfoldable pub retire_round : ℕ → ℕ → ℕ → Cells Name → Run (Cells Name × ℕ)
  retire_round handle i j cells = read cells i >>= λ e.
      if e.handle == handle
      then done (cells, j)
      else if i == j
      then done (cells, j + 1)
      else (store cells j e >>= λ cells'. done (cells', j + 1))

  -- That loop with `rounds` left
  unfoldable pub retire_loop : ℕ → ℕ → ℕ → ℕ → Cells Name → Run (Cells Name × ℕ)
  retire_loop handle zero i j cells = done (cells, j)
  retire_loop handle (suc rounds) i j cells =
      retire_round handle i j cells >>= λ (cells', j'). retire_loop handle rounds (i + 1) j' cells'

  -- `skynet_handle_retire`, the part about names
  unfoldable pub retire_names : ℕ → Names Name → Run (Names Name)
  retire_names handle s = retire_loop handle s.name_count 0 0 s.name >>= λ (cells, j).
      done (record s { name = cells; name_count = j })

  -- `skynet_handle_retire`: the context that it releases, if there is one
  unfoldable pub retire : (ℕ → ℕ) → HandleStorage Name → ℕ → Run (Option ℕ × HandleStorage Name)
  retire handle_of s handle = elim (lookup handle_of s.slots handle) [
    | none ↦ done (none, s)
    | some ctx ↦ retire_names handle s.names >>= λ names.
        done (some ctx, record { slots = (retire_slot handle_of s.slots handle).1; names = names })
  ]

  -- One round of the inner loop of `skynet_handle_retireall`, at slot `i`
  unfoldable pub sweep_slot : (ℕ → ℕ) → ℕ → Sweep Name → Run (Sweep Name)
  sweep_slot handle_of i w = elim (get_or w.storage.slots.slot i none) [
    | none ↦ done w
    | some ctx ↦ retire handle_of w.storage (handle_of ctx) >>= λ (out, s).
        done (record { storage = s; count = w.count + 1; released = w.released ++ to_list out })
  ]

  -- That loop with `rounds` left
  unfoldable pub sweep : (ℕ → ℕ) → ℕ → ℕ → Sweep Name → Run (Sweep Name)
  sweep handle_of zero i w = done w
  sweep handle_of (suc rounds) i w =
      sweep_slot handle_of i w >>= λ w'. sweep handle_of rounds (i + 1) w'

  -- `skynet_handle_retireall`, on fuel for its outer loop, after the contexts `released`
  unfoldable pub retireall : ℕ → (ℕ → ℕ) → HandleStorage Name → List ℕ → Run (Sweep Name)
  retireall zero handle_of s released = unfinished
  retireall (suc fuel) handle_of s released =
      sweep handle_of s.slots.slot_size 0 (record { storage = s; count = 0; released = released })
      >>= λ w. elim (w.count == 0) [
        | true ↦ done w
        | false ↦ retireall fuel handle_of w.storage w.released
      ]

  -- `skynet_handle_init`, the part about names
  unfoldable pub names_init : Names Name
  names_init = record { name_cap = 2; name_count = 0; name = replicate 2 none }

  -- `skynet_handle_init`
  unfoldable pub storage_init : ℕ → HandleStorage Name
  unfolding names_init
  storage_init harbor = record { slots = handle_init harbor; names = names_init }
