-- ===== src/Handle/Names/All.antt =====
-- `skynet_handle_retireall` of skynet-src/skynet_handle.c.
use Prim.Native.Nat.{Ordering}
use mathlib.Core.List.{append_assoc, append-nil}
use skynet_note.Base.{
  ℕ, zero, suc, ◌+◌, ◌-◌, ◌%◌, ◌^◌, ◌<◌, ◌≡◌, ◌≢◌, inl, inr, refl, ap, ◌∙◌, sym, Option, none, some,
  List, [], ◌∷◌, ◌++◌, arith, Bool, true, false, dec_lt, ℕ_discrete, length, get_or, set, ◌==◌,
  length-replicate, get_or-replicate, replicate, Bool-cases, get_or-set_ne,
}
use skynet_note.Base.Run.{Run, done, ◌>>=◌}
use skynet_note.Handle.{Storage, named, lookup, retire_slot}
use skynet_note.Handle.Slots.{Valid, hash_lem}
use skynet_note.Handle.Lookup.{named_self}
use skynet_note.Handle.Retire.{set-empty, retire-some}
use skynet_note.Handle.Names.{
  HandleName, Names, HandleStorage, Sweep, retire, sweep_slot, sweep, retireall,
}
use skynet_note.Handle.Names.Table.{Lawful, Represents, IsSorted}
use skynet_note.Handle.Names.Retire.{kept, retire_names_lem}
use skynet_note.Handle.Names.Kept.{kept-IsSorted, retire_found}

-- The contexts of slots, in order
abbrev pub present : List (Option ℕ) → List ℕ
present [] = []
present (none ∷ cells) = present cells
present (some c ∷ cells) = c ∷ present cells

present_blank : (n : ℕ) → present (replicate n none) ≡ []
present_blank zero = refl
present_blank (suc n) = present_blank n

module _ {Name : Type 0} (strcmp : Name → Name → Ordering) (laws : Lawful strcmp) where
  -- A table of names that is well formed
  abbrev pub Ordered : Names Name → Type 0
  Ordered s = (es : List (HandleName Name)) × Represents s es × IsSorted strcmp es

  -- The slots before `i` are empty, those from `i` on are `cells`, and their contexts stand where their
  -- handles say.
  record Ahead (handle_of : ℕ → ℕ) (k i : ℕ) (cells : List (Option ℕ)) (s : HandleStorage Name)
      : Type 0 where
    size : s.slots.slot_size ≡ 2 ^ k
    empty : (j : ℕ) → j < i → get_or s.slots.slot j none ≡ none
    rest : (j : ℕ) → get_or s.slots.slot (i + j) none ≡ get_or cells j none
    placed : (j c : ℕ) → get_or cells j none ≡ some c → handle_of c % 2 ^ k ≡ i + j
    names : Ordered s.names

  record Swept (k i : ℕ) (cells : List (Option ℕ)) (w r : Sweep Name) : Type 0 where
    size : r.storage.slots.slot_size ≡ 2 ^ k
    empty : (j : ℕ) → get_or r.storage.slots.slot j none ≡ none
    count : r.count ≡ w.count + length (present cells)
    released : r.released ≡ w.released ++ present cells
    names : Ordered r.storage.names

  sweep_slot-none :
      (handle_of : ℕ → ℕ) (i : ℕ) (w : Sweep Name)
      → get_or w.storage.slots.slot i none ≡ none
      → sweep_slot handle_of i w ≡ done w
  unfolding sweep_slot
  sweep_slot-none handle_of i w e = ground (arith, e)

  sweep_slot-some :
      (handle_of : ℕ → ℕ) (i ctx : ℕ) (w : Sweep Name) (t : HandleStorage Name)
      → get_or w.storage.slots.slot i none ≡ some ctx
      → retire handle_of w.storage (handle_of ctx) ≡ done (some ctx, t)
      → sweep_slot handle_of i w
        ≡ done (record { storage = t; count = w.count + 1; released = w.released ++ (ctx ∷ []) })
  unfolding sweep_slot
  sweep_slot-some handle_of i ctx w t e run = ground (arith, e, run)

  lookup_placed :
      (handle_of : ℕ → ℕ) (s : Storage) (k i c : ℕ)
      → s.slot_size ≡ 2 ^ k
      → get_or s.slot i none ≡ some c
      → handle_of c % 2 ^ k ≡ i
      → lookup handle_of s (handle_of c) ≡ some c
  unfolding lookup
  lookup_placed handle_of s k i c size at place =
      ap (λ j. named handle_of (handle_of c) (get_or s.slot j none))
        (hash_lem s k (handle_of c) size ∙ place)
      ∙ ap (named handle_of (handle_of c)) at
      ∙ named_self handle_of (handle_of c) c refl

  -- A slot that holds a context: it is released, and its slot is empty then.
  advance :
      (handle_of : ℕ → ℕ) (k i c : ℕ) (cells : List (Option ℕ)) (w : Sweep Name)
      → Ahead handle_of k i (some c ∷ cells) w.storage
      → (t : HandleStorage Name) × (sweep_slot handle_of i w
          ≡ done (record { storage = t; count = w.count + 1; released = w.released ++ (c ∷ []) }))
        × Ahead handle_of k (i + 1) cells t
  advance handle_of k i c cells w a =
      let s : HandleStorage Name = w.storage in
      let here : i + 0 ≡ i = omega arith in
      let at : get_or s.slots.slot i none ≡ some c =
        ap (λ j. get_or s.slots.slot j none) (sym here) ∙ a.rest 0 in
      let place : handle_of c % 2 ^ k ≡ i = a.placed 0 c refl ∙ here in
      let look = lookup_placed handle_of s.slots k i c a.size at place in
      let (es, rep, sorted) = a.names in
      let (names, run, rep') = retire_names_lem (handle_of c) s.names es rep in
      let slots : Storage = record s.slots { slot = set s.slots.slot i none } in
      let same : (retire_slot handle_of s.slots (handle_of c)).1 ≡ slots =
        ap (λ (r : Option ℕ × Storage). r.1) (retire-some handle_of s.slots (handle_of c) c look)
        ∙ ap (λ j. record s.slots { slot = set s.slots.slot j none })
            (hash_lem s.slots k (handle_of c) a.size ∙ place) in
      let t : HandleStorage Name = record { slots = slots; names = names } in
      let put : (j : ℕ)
          → i ≢ j
          → get_or (set s.slots.slot i none) j none ≡ get_or s.slots.slot j none =
        λ j ne. get_or-set_ne s.slots.slot none none ne in
      (
        t,
        sweep_slot-some handle_of i c w t at (
            retire_found strcmp laws handle_of s (handle_of c) c names look run
            ∙ ap (λ (x : Storage). done (some c, record { slots = x; names = names })) same),
        record {
          size = a.size;
          empty = λ j h. elim (ℕ_discrete i j) [
            | yes q ↦
                ap (λ n. get_or (set s.slots.slot i none) n none) (sym q) ∙ set-empty s.slots.slot i
            | no q ↦ put j q ∙ a.empty j (omega (arith, h, q))
          ];
          rest = λ j.
              let up : i + 1 + j ≡ i + suc j = omega arith in
              put (i + 1 + j) (λ q. omega (arith, q))
              ∙ ap (λ n. get_or s.slots.slot n none) up
              ∙ a.rest (suc j);
          placed =
              λ j d e. let up : i + suc j ≡ i + 1 + j = omega arith in a.placed (suc j) d e ∙ up;
          names = (kept (handle_of c) es, rep', kept-IsSorted strcmp laws (handle_of c) es sorted);
        },
      )

  Ahead-skip :
      (handle_of : ℕ → ℕ) (k i : ℕ) (cells : List (Option ℕ)) (s : HandleStorage Name)
      → Ahead handle_of k i (none ∷ cells) s
      → Ahead handle_of k (i + 1) cells s
  Ahead-skip handle_of k i cells s a =
      let here : i + 0 ≡ i = omega arith in
      record {
        size = a.size;
        empty = λ j h. elim (ℕ_discrete i j) [
          | yes q ↦ ap (λ n. get_or s.slots.slot n none) (sym q ∙ sym here) ∙ a.rest 0
          | no q ↦ a.empty j (omega (arith, h, q))
        ];
        rest = λ j.
            let up : i + 1 + j ≡ i + suc j = omega arith in
            ap (λ n. get_or s.slots.slot n none) up ∙ a.rest (suc j);
        placed = λ j d e. let up : i + suc j ≡ i + 1 + j = omega arith in a.placed (suc j) d e ∙ up;
        names = a.names;
      }

  sweep_lem :
      (handle_of : ℕ → ℕ) (k i : ℕ) (cells : List (Option ℕ)) (w : Sweep Name)
      → Ahead handle_of k i cells w.storage
      → (r : Sweep Name) × (sweep handle_of (length cells) i w ≡ done r) × Swept k i cells w r
  unfolding sweep
  sweep_lem handle_of k i [] w a = (
    w,
    refl,
    record {
      size = a.size;
      empty = λ j. elim (dec_lt j i) [
        | yes h ↦ a.empty j h
        | no h ↦
            let n : ℕ = j - i in
            let up : j ≡ i + (j - i) = omega (arith, h) in
            ap (λ n. get_or w.storage.slots.slot n none) up ∙ a.rest n
      ];
      count = omega arith;
      released = sym (append-nil w.released);
      names = a.names;
    },
  )
  sweep_lem handle_of k i (none ∷ cells) w a =
      let here : i + 0 ≡ i = omega arith in
      let at = ap (λ j. get_or w.storage.slots.slot j none) (sym here) ∙ a.rest 0 in
      let (r, run, ok) =
        sweep_lem handle_of k (i + 1) cells w (Ahead-skip handle_of k i cells w.storage a) in
      (
        r,
        ap (λ t. t >>= λ w. sweep handle_of (length cells) (i + 1) w)
              (sweep_slot-none handle_of i w at)
            ∙ run,
        record {
          size = ok.size;
          empty = ok.empty;
          count = ok.count;
          released = ok.released;
          names = ok.names;
        },
      )
  sweep_lem handle_of k i (some c ∷ cells) w a =
      let (t, step, b) = advance handle_of k i c cells w a in
      let w' : Sweep Name = record {
        storage = t;
        count = w.count + 1;
        released = w.released ++ (c ∷ []);
      } in
      let (r, run, ok) = sweep_lem handle_of k (i + 1) cells w' b in
      (
        r,
        ap (λ t. t >>= λ w. sweep handle_of (length cells) (i + 1) w) step ∙ run,
        record {
          size = ok.size;
          empty = ok.empty;
          count = omega (arith, ok.count);
          released = ok.released ∙ append_assoc w.released (c ∷ []) (present cells);
          names = ok.names;
        },
      )

  -- How a run of the outer loop goes on after a sweep
  abbrev after_sweep : ℕ → (ℕ → ℕ) → Sweep Name → Bool → Run (Sweep Name)
  after_sweep fuel handle_of w true = done w
  after_sweep fuel handle_of w false = retireall fuel handle_of w.storage w.released

  retireall_last :
      (fuel : ℕ) (handle_of : ℕ → ℕ) (s : HandleStorage Name) (released : List ℕ) (w : Sweep Name)
      → sweep handle_of s.slots.slot_size 0 (record { storage = s; count = 0; released = released })
        ≡ done w
      → (w.count == 0) ≡ true
      → retireall (suc fuel) handle_of s released ≡ done w
  unfolding retireall
  retireall_last fuel handle_of s released w run stop =
      ap (λ (t : Run (Sweep Name)). t >>= λ w. after_sweep fuel handle_of w (w.count == 0)) run
      ∙ ap (after_sweep fuel handle_of w) stop

  retireall_again :
      (fuel : ℕ) (handle_of : ℕ → ℕ) (s : HandleStorage Name) (released : List ℕ) (w : Sweep Name)
      → sweep handle_of s.slots.slot_size 0 (record { storage = s; count = 0; released = released })
        ≡ done w
      → (w.count == 0) ≡ false
      → retireall (suc fuel) handle_of s released ≡ retireall fuel handle_of w.storage w.released
  unfolding retireall
  retireall_again fuel handle_of s released w run more =
      ap (λ (t : Run (Sweep Name)). t >>= λ w. after_sweep fuel handle_of w (w.count == 0)) run
      ∙ ap (after_sweep fuel handle_of w) more

  -- The storage after all handles were retired
  pub record Emptied (cells : List (Option ℕ)) (r : Sweep Name) : Type 0 where
    pub empty : (j : ℕ) → get_or r.storage.slots.slot j none ≡ none
    pub released : r.released ≡ present cells
    pub names : Ordered r.storage.names

  -- A storage that is already empty
  retireall_empty :
      (fuel : ℕ) (handle_of : ℕ → ℕ) (k : ℕ) (w : Sweep Name)
      → w.storage.slots.slot_size ≡ 2 ^ k
      → ((j : ℕ) → get_or w.storage.slots.slot j none ≡ none)
      → Ordered w.storage.names
      → (cells : List (Option ℕ)) → w.released ≡ present cells
      → (r : Sweep Name) × (retireall (suc fuel) handle_of w.storage w.released ≡ done r)
        × Emptied cells r
  retireall_empty fuel handle_of k w size empty names cells released =
      let blank : List (Option ℕ) = replicate (2 ^ k) none in
      let start : Sweep Name = record { storage = w.storage; count = 0; released = w.released } in
      let nothing : (j : ℕ) → get_or blank j none ≡ none = λ j. get_or-replicate (2 ^ k) j none in
      let (r, run, ok) = sweep_lem handle_of k 0 blank start (record {
        size = size;
        empty = λ j h. empty j;
        rest = λ j. empty (0 + j) ∙ sym (nothing j);
        placed = λ j c e. let clash : none ≡ some c = sym (nothing j) ∙ e in absurd cc;
        names = names;
      }) in
      let long : w.storage.slots.slot_size ≡ length blank =
        size ∙ sym (length-replicate (2 ^ k) none) in
      let zero_count : (r.count == 0) ≡ true =
        ground (arith, ok.count, ap length (present_blank (2 ^ k))) in
      (
        r,
        retireall_last fuel handle_of w.storage w.released r
            (ap (λ n. sweep handle_of n 0 start) long ∙ run) zero_count,
        record {
          empty = ok.empty;
          released =
              ok.released
              ∙ ap (λ t. w.released ++ t) (present_blank (2 ^ k))
              ∙ append-nil w.released
              ∙ released;
          names = ok.names;
        },
      )

  -- For a well-formed storage the outer loop ends within two rounds: every slot is empty, the contexts
  -- that the slots held are released, each once and in the order of the slots, and the table of names
  -- is in order.
  pub retireall_lem :
      (fuel : ℕ) (handle_of : ℕ → ℕ) (s : HandleStorage Name) (k : ℕ)
      → Valid handle_of s.slots k
      → Ordered s.names
      → (r : Sweep Name) × (retireall (suc (suc fuel)) handle_of s [] ≡ done r)
        × Emptied s.slots.slot r
  retireall_lem fuel handle_of s k v names =
      let start : Sweep Name = record { storage = s; count = 0; released = [] } in
      let (w, run, ok) = sweep_lem handle_of k 0 s.slots.slot start (record {
        size = v.size;
        empty = λ j h. absurd (omega (arith, h));
        rest = λ j. let at : 0 + j ≡ j = omega arith in ap (λ n. get_or s.slots.slot n none) at;
        placed = λ j c e. let at : j ≡ 0 + j = omega arith in v.placed j c e ∙ at;
        names = names;
      }) in
      let swept = ap (λ n. sweep handle_of n 0 start) (v.size ∙ sym v.storage) ∙ run in
      elim (Bool-cases (w.count == 0)) [
        | inl stop ↦ (
          w,
          retireall_last (suc fuel) handle_of s [] w swept stop,
          record { empty = ok.empty; released = ok.released; names = ok.names },
        )
        | inr more ↦
            (let (r, ran, done') =
                retireall_empty fuel handle_of k w ok.size ok.empty ok.names s.slots.slot
                  ok.released in
              (r, retireall_again (suc fuel) handle_of s [] w swept more ∙ ran, done'))
      ]
