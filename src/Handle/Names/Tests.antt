-- ===== src/Handle/Names/Tests.antt =====
-- Runs on a small table of names, and inputs at which the theorems on names apply. Names are lists of
-- bytes, compared byte by byte.
use Prim.Native.Nat.{Ordering, compare}
use skynet_note.Base.{
  ℕ, zero, suc, ◌%◌, ◌^◌, ◌<◌, ◌≡◌, ◌≢◌, ◌⊎◌, refl, ap, ap₂, sym, none, some, List, [], ◌∷◌, arith,
  get_elem?, get_or,
}
use skynet_note.Base.Run.{done}
use skynet_note.Handle.{Storage, lookup}
use skynet_note.Handle.Slots.{Valid}
use skynet_note.Handle.Names.{
  HandleName, Names, HandleStorage, Sweep, names_init, read, store, probe, search, findname, copy,
  shift, make_room, insert_name_before, insert_name, retire_round, retire_loop, retire_names,
  retire, retireall,
}
use skynet_note.Handle.Names.Table.{Lawful, Represents, IsSorted, handle_named}
use skynet_note.Handle.Names.Search.{findname_lem, or_zero}
use skynet_note.Handle.Names.Named.{Added, insert_name_lem, findname-insert_name}
use skynet_note.Handle.Names.Kept.{Retired, retire_lem}
use skynet_note.Handle.Names.All.{Emptied, retireall_lem}

abbrev then_compare : Ordering → Ordering → Ordering
then_compare Ordering.eq rest = rest
then_compare o rest = o

abbrev bytes_order : List ℕ → List ℕ → Ordering
bytes_order [] [] = Ordering.eq
bytes_order [] (y ∷ ys) = Ordering.lt
bytes_order (x ∷ xs) [] = Ordering.gt
bytes_order (x ∷ xs) (y ∷ ys) = then_compare (compare x y) (bytes_order xs ys)

order_self : (a : List ℕ) → bytes_order a a ≡ Ordering.eq
order_self [] = refl
order_self (x ∷ a) = ground (arith, order_self a)

order_same : (a b : List ℕ) → bytes_order a b ≡ Ordering.eq → a ≡ b
order_same [] [] h = refl
order_same [] (y ∷ b) h = absurd cc
order_same (x ∷ a) [] h = absurd cc
order_same (x ∷ a) (y ∷ b) h =
    let same : x ≡ y = ground (arith, h) in
    let rest : bytes_order a b ≡ Ordering.eq = ground (arith, h) in
    ap₂ (λ u v. u ∷ v) same (order_same a b rest)

order_swap_lt : (a b : List ℕ) → bytes_order a b ≡ Ordering.lt → bytes_order b a ≡ Ordering.gt
order_swap_lt [] [] h = absurd cc
order_swap_lt [] (y ∷ b) h = refl
order_swap_lt (x ∷ a) [] h = absurd cc
order_swap_lt (x ∷ a) (y ∷ b) h = ground (arith, h, order_swap_lt a b)

order_swap_gt : (a b : List ℕ) → bytes_order a b ≡ Ordering.gt → bytes_order b a ≡ Ordering.lt
order_swap_gt [] [] h = absurd cc
order_swap_gt [] (y ∷ b) h = absurd cc
order_swap_gt (x ∷ a) [] h = refl
order_swap_gt (x ∷ a) (y ∷ b) h = ground (arith, h, order_swap_gt a b)

order_trans :
    (a b c : List ℕ)
    → bytes_order a b ≡ Ordering.lt
    → bytes_order b c ≡ Ordering.lt
    → bytes_order a c ≡ Ordering.lt
order_trans [] [] c h k = k
order_trans [] (y ∷ b) [] h k = absurd cc
order_trans [] (y ∷ b) (z ∷ c) h k = refl
order_trans (x ∷ a) [] c h k = absurd cc
order_trans (x ∷ a) (y ∷ b) [] h k = absurd cc
order_trans (x ∷ a) (y ∷ b) (z ∷ c) h k = ground (arith, h, k, order_trans a b c)

bytes_Lawful : Lawful bytes_order
bytes_Lawful = record {
  self = order_self;
  same = order_same;
  swap_lt = order_swap_lt;
  swap_gt = order_swap_gt;
  trans_lt = order_trans;
}

abbrev entry_a : HandleName (List ℕ)
entry_a = record { name = 97 ∷ []; handle = 5 }

abbrev entry_c : HandleName (List ℕ)
entry_c = record { name = 99 ∷ []; handle = 6 }

abbrev two_entries : List (HandleName (List ℕ))
two_entries = entry_a ∷ entry_c ∷ []

abbrev two_names : Names (List ℕ)
two_names = record { name_cap = 2; name_count = 2; name = some entry_a ∷ some entry_c ∷ [] }

two_names-Represents : Represents two_names two_entries
two_names-Represents = record {
  count = refl;
  fits = omega arith;
  cap = refl;
  positive = omega arith;
  cells = cells;
}
  where
    cells : (i : ℕ) → i < 2 → get_or two_names.name i none ≡ get_elem? two_entries i
    cells zero h = refl
    cells (suc zero) h = refl
    cells (suc (suc i)) h = refl

two_entries-IsSorted : IsSorted bytes_order two_entries
two_entries-IsSorted zero zero x y a b h = absurd (omega (arith, h))
two_entries-IsSorted zero (suc zero) x y a b h =
    let same : entry_a ≡ x = cc in
    let other : entry_c ≡ y = cc in
    ap₂ (λ (u v : HandleName (List ℕ)). bytes_order (u.name) (v.name)) (sym same) (sym other)
two_entries-IsSorted zero (suc (suc j)) x y a b h = absurd cc
two_entries-IsSorted (suc zero) (suc zero) x y a b h = absurd (omega (arith, h))
two_entries-IsSorted (suc i) zero x y a b h = absurd (omega (arith, h))
two_entries-IsSorted (suc zero) (suc (suc j)) x y a b h = absurd cc
two_entries-IsSorted (suc (suc i)) (suc j) x y a b h = absurd cc

abbrev two_slots : Storage
two_slots = record {
  harbor = 0;
  handle_index = 7;
  slot_size = 4;
  slot = none ∷ some 5 ∷ some 6 ∷ none ∷ [];
}

abbrev identity : ℕ → ℕ
identity n = n

two_slots-Valid : Valid identity two_slots 2
two_slots-Valid = record { size = refl; bits = omega arith; storage = refl; placed = placed }
  where
    placed : (i c : ℕ) → get_or two_slots.slot i none ≡ some c → c % 2 ^ 2 ≡ i
    placed zero c h = absurd cc
    placed (suc zero) c h = let same : 5 ≡ c = cc in ap (λ n. n % 4) (sym same)
    placed (suc (suc zero)) c h = let same : 6 ≡ c = cc in ap (λ n. n % 4) (sym same)
    placed (suc (suc (suc zero))) c h = absurd cc
    placed (suc (suc (suc (suc i)))) c h = absurd cc

abbrev two_contexts : HandleStorage (List ℕ)
two_contexts = record { slots = two_slots; names = two_names }

insert_b :
    insert_name bytes_order two_names (98 ∷ []) 9
    ≡ done (
      some (98 ∷ []),
      record {
        name_cap = 4;
        name_count = 3;
        name =
            some entry_a ∷ some (record { name = 98 ∷ []; handle = 9 }) ∷ some entry_c ∷ none ∷ [];
      },
    )
unfolding insert_name insert_name_before make_room copy shift search probe read store
insert_b = refl

insert_first :
    insert_name bytes_order names_init (98 ∷ []) 9
    ≡ done (
      some (98 ∷ []),
      record {
        name_cap = 2;
        name_count = 1;
        name = some (record { name = 98 ∷ []; handle = 9 }) ∷ none ∷ [];
      },
    )
unfolding insert_name insert_name_before make_room copy shift search probe read store names_init
insert_first = refl

retire_five :
    retire_names 5 two_names
    ≡ done (record { name_cap = 2; name_count = 1; name = some entry_c ∷ some entry_c ∷ [] })
unfolding retire_names retire_loop retire_round read store
retire_five = refl

findname_lem_example :
    findname bytes_order two_names (99 ∷ [])
    ≡ done (or_zero bytes_order bytes_Lawful (handle_named bytes_order two_entries (99 ∷ [])))
findname_lem_example =
    findname_lem bytes_order bytes_Lawful two_names two_entries (99 ∷ []) two_names-Represents
      two_entries-IsSorted (omega arith)

insert_name_lem_example :
    ((h : ℕ) × (handle_named bytes_order two_entries (98 ∷ []) ≡ some h)
      × (insert_name bytes_order two_names (98 ∷ []) 9 ≡ done (none, two_names)))
    ⊎ ((handle_named bytes_order two_entries (98 ∷ []) ≡ none)
        × (t : Names (List ℕ)) × (insert_name bytes_order two_names (98 ∷ []) 9
            ≡ done (some (98 ∷ []), t))
        × Added bytes_order bytes_Lawful two_names two_entries (98 ∷ []) 9 t)
insert_name_lem_example =
    insert_name_lem bytes_order bytes_Lawful two_names two_entries (98 ∷ []) 9 two_names-Represents
      two_entries-IsSorted (omega arith)

absent_b : handle_named bytes_order two_entries (98 ∷ []) ≡ none
unfolding handle_named
absent_b = refl

findname-insert_name_example :
    (t : Names (List ℕ)) × (insert_name bytes_order two_names (98 ∷ []) 9
      ≡ done (some (98 ∷ []), t))
    × (findname bytes_order t (98 ∷ []) ≡ done 9)
    × ((n : List ℕ) → 98 ∷ [] ≢ n → findname bytes_order t n ≡ findname bytes_order two_names n)
findname-insert_name_example =
    findname-insert_name bytes_order bytes_Lawful two_names two_entries (98 ∷ []) 9
      two_names-Represents two_entries-IsSorted (omega arith) absent_b

retire_lem_example :
    ((lookup identity two_slots 5 ≡ none)
      × (retire identity two_contexts 5 ≡ done (none, two_contexts)))
    ⊎ ((ctx : ℕ) × (lookup identity two_slots 5 ≡ some ctx)
        × (t : HandleStorage (List ℕ)) × (retire identity two_contexts 5 ≡ done (some ctx, t))
        × Retired bytes_order bytes_Lawful identity two_contexts two_entries 5 t)
retire_lem_example =
    retire_lem bytes_order bytes_Lawful identity two_contexts two_entries 5 two_names-Represents
      two_entries-IsSorted

retireall_lem_example :
    (r : Sweep (List ℕ)) × (retireall 2 identity two_contexts [] ≡ done r)
    × Emptied bytes_order bytes_Lawful two_slots.slot r
retireall_lem_example =
    retireall_lem bytes_order bytes_Lawful 0 identity two_contexts 2 two_slots-Valid
      (two_entries, two_names-Represents, two_entries-IsSorted)
