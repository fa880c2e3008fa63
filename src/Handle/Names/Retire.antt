-- ===== src/Handle/Names/Retire.antt =====
-- The names that `skynet_handle_retire` of skynet-src/skynet_handle.c takes away.

use skynet_note.Base.{
  ℕ, zero, suc, ◌+◌, ◌≤◌, ◌<◌, ◌≡◌, ◌≢◌, refl, ap, ◌∙◌, sym, none, some, List, [], ◌∷◌, arith,
  ℕ_discrete, length, get_elem?, set, ◌==◌, if◌then◌else◌, length-set, get_or-set_self,
  get_or-set_ne,
}
use skynet_note.Base.Run.{done, ◌>>=◌}
use skynet_note.Handle.Names.{
  HandleName, Names, Cells, read, store, retire_round, retire_loop, retire_names,
}
use skynet_note.Handle.Names.Table.{Represents}
use skynet_note.Handle.Names.Search.{read_lem}
use skynet_note.Handle.Names.Shift.{store_lem, cell}

module _ {Name : Type 0} where
  -- The entries of other handles
  abbrev pub kept : ℕ → List (HandleName Name) → List (HandleName Name)
  kept handle [] = []
  kept handle (e ∷ es) = let rest = kept handle es in if e.handle == handle then rest else e ∷ rest

  pub kept_drop :
      (h : ℕ) (e : HandleName Name) (es : List (HandleName Name))
      → e.handle ≡ h
      → kept h (e ∷ es) ≡ kept h es
  kept_drop h e es p = ground (arith, p)

  pub kept_keep :
      (h : ℕ) (e : HandleName Name) (es : List (HandleName Name))
      → e.handle ≢ h
      → kept h (e ∷ es) ≡ e ∷ kept h es
  kept_keep h e es p = ground (arith, p)

  round_drop :
      (h i j : ℕ) (cells : Cells Name) (e : HandleName Name)
      → read cells i ≡ done e
      → e.handle ≡ h
      → retire_round h i j cells ≡ done (cells, j)
  unfolding retire_round
  round_drop h i j cells e at p = ground (arith, at, p)

  round_stay :
      (h i j : ℕ) (cells : Cells Name) (e : HandleName Name)
      → read cells i ≡ done e
      → e.handle ≢ h
      → i ≡ j
      → retire_round h i j cells ≡ done (cells, j + 1)
  unfolding retire_round
  round_stay h i j cells e at p q = ground (arith, at, p, q)

  round_move :
      (h i j : ℕ) (cells r : Cells Name) (e : HandleName Name)
      → read cells i ≡ done e
      → e.handle ≢ h
      → i ≢ j
      → store cells j e ≡ done r
      → retire_round h i j cells ≡ done (r, j + 1)
  unfolding retire_round
  round_move h i j cells r e at p q put = ground (arith, at, p, q, put)

  -- What the loop leaves of the cells, for the entries `es` still to be read
  record Compacted (h j : ℕ) (cells : Cells Name) (es : List (HandleName Name)) (r : Cells Name × ℕ)
      : Type 0 where
    count : r.1 ≡ j + length (kept h es)
    same_length : length r.0 ≡ length cells
    low : (k : ℕ) → k < j → cell r.0 k ≡ cell cells k
    moved : (k : ℕ) → k < length (kept h es) → cell r.0 (j + k) ≡ get_elem? (kept h es) k

  abbrev Compacts : ℕ → ℕ → ℕ → Cells Name → List (HandleName Name) → Type 0
  Compacts h i j cells es =
      (r : Cells Name × ℕ) × (retire_loop h (length es) i j cells ≡ done r)
      × Compacted h j cells es r

  -- An entry that stays: it stands at `j` in `next`, the cells below as before.
  compact_keep :
      (h i j : ℕ) (cells next : Cells Name) (e : HandleName Name) (es : List (HandleName Name))
      → e.handle ≢ h
      → retire_round h i j cells ≡ done (next, j + 1)
      → length next ≡ length cells
      → ((k : ℕ) → k < j → cell next k ≡ cell cells k)
      → cell next j ≡ some e
      → Compacts h (i + 1) (j + 1) next es
      → Compacts h i j cells (e ∷ es)
  unfolding retire_loop
  compact_keep h i j cells next e es p round long below at (r, run, ok) =
      let list : kept h (e ∷ es) ≡ e ∷ kept h es = kept_keep h e es p in
      let more : length (kept h (e ∷ es)) ≡ suc (length (kept h es)) = ap length list in
      (
        r,
        ap (λ t. t >>= λ (c, j'). retire_loop h (length es) (i + 1) j' c) round ∙ run,
        record {
          count = omega (arith, ok.count, more);
          same_length = ok.same_length ∙ long;
          low = λ k b. ok.low k (omega (arith, b)) ∙ below k b;
          moved = λ k.
              elim k
                as (λ k.
                  k < length (kept h (e ∷ es)) → cell r.0 (j + k) ≡ get_elem? (kept h (e ∷ es)) k) [
                    | zero ↦ λ b.
                        let here : j + 0 ≡ j = omega arith in
                        ap (cell r.0) here
                        ∙ ok.low j (omega arith)
                        ∙ at
                        ∙ sym (ap (λ t. get_elem? t 0) list)
                    | suc k ↦ λ b.
                        let up : j + suc k ≡ j + 1 + k = omega arith in
                        ap (cell r.0) up
                        ∙ ok.moved k (omega (arith, b, more))
                        ∙ sym (ap (λ t. get_elem? t (suc k)) list)
                  ];
        },
      )

  compact_drop :
      (h i j : ℕ) (cells : Cells Name) (e : HandleName Name) (es : List (HandleName Name))
      → e.handle ≡ h
      → retire_round h i j cells ≡ done (cells, j)
      → Compacts h (i + 1) j cells es
      → Compacts h i j cells (e ∷ es)
  unfolding retire_loop
  compact_drop h i j cells e es p round (r, run, ok) =
      let list : kept h (e ∷ es) ≡ kept h es = kept_drop h e es p in
      let more : length (kept h (e ∷ es)) ≡ length (kept h es) = ap length list in
      (
        r,
        ap (λ t. t >>= λ (c, j'). retire_loop h (length es) (i + 1) j' c) round ∙ run,
        record {
          count = omega (arith, ok.count, more);
          same_length = ok.same_length;
          low = ok.low;
          moved = λ k b. ok.moved k (omega (arith, b, more)) ∙ sym (ap (λ t. get_elem? t k) list);
        },
      )

  retire_loop_lem :
      (h : ℕ) (es : List (HandleName Name)) (i j : ℕ) (cells : Cells Name)
      → j ≤ i
      → i + length es ≤ length cells
      → ((k : ℕ) → k < length es → cell cells (i + k) ≡ get_elem? es k)
      → Compacts h i j cells es
  unfolding retire_loop
  retire_loop_lem h [] i j cells le fits full = (
    (cells, j),
    refl,
    record {
      count = omega arith;
      same_length = refl;
      low = λ k b. refl;
      moved = λ k b. absurd (omega (arith, b));
    },
  )
  retire_loop_lem h (e ∷ es) i j cells le fits full =
      let here : i + 0 ≡ i = omega arith in
      let at : cell cells i ≡ some e = ap (cell cells) (sym here) ∙ full 0 (omega arith) in
      let got : read cells i ≡ done e = read_lem cells i e at in
      let later : (k : ℕ) → k < length es → cell cells (i + 1 + k) ≡ get_elem? es k = λ k b.
        let up : i + 1 + k ≡ i + suc k = omega arith in
        ap (cell cells) up ∙ full (suc k) (omega (arith, b)) in
      elim (ℕ_discrete (e.handle) h) [
        | yes p ↦
            compact_drop h i j cells e es p (round_drop h i j cells e got p)
              (retire_loop_lem h es (i + 1) j cells (omega (arith, le)) (omega (arith, fits)) later)
        | no p ↦ elim (ℕ_discrete i j) [
          | yes q ↦
              compact_keep h i j cells cells e es p (round_stay h i j cells e got p q) refl
                (λ k b. refl) (ap (cell cells) (sym q) ∙ at)
                (retire_loop_lem h es (i + 1) (j + 1) cells (omega (arith, le))
                  (omega (arith, fits)) later)
          | no q ↦
              (let next : Cells Name = set cells j (some e) in
                let put = store_lem cells j e (omega (arith, le, fits)) in
                compact_keep h i j cells next e es p (round_move h i j cells next e got p q put)
                  (length-set cells j (some e))
                  (λ k b. get_or-set_ne cells (some e) none (λ r. omega (arith, r, b)))
                  (get_or-set_self cells j (some e) none (omega (arith, le, fits)))
                  (retire_loop_lem h es (i + 1) (j + 1) next (omega (arith, le))
                    (omega (arith, fits, length-set cells j (some e)))
                    (λ k b.
                      get_or-set_ne cells (some e) none (λ r. omega (arith, r, le)) ∙ later k b)))
        ]
      ]

  length-kept-le : (h : ℕ) (es : List (HandleName Name)) → length (kept h es) ≤ length es
  length-kept-le h [] = omega arith
  length-kept-le h (e ∷ es) = ground (arith, length-kept-le h es)

  -- The entries of the handle go, the others stay in their order.
  pub retire_names_lem :
      (h : ℕ) (s : Names Name) (es : List (HandleName Name))
      → Represents s es
      → (t : Names Name) × (retire_names h s ≡ done t) × Represents t (kept h es)
  unfolding retire_names
  retire_names_lem h s es rep =
      let (r, run, ok) =
        retire_loop_lem h es 0 0 s.name (omega arith) (omega (arith, rep.fits, rep.cap))
          (λ k b. let at : 0 + k ≡ k = omega arith in ap (cell s.name) at ∙ rep.cells k b) in
      (
        record s { name = r.0; name_count = r.1 },
        ap
              (λ n. retire_loop h n 0 0 s.name >>= λ (c, j).
                done (record s { name = c; name_count = j }))
              rep.count
            ∙ ap (λ t. t >>= λ (c, j). done (record s { name = c; name_count = j })) run,
        record {
          count = omega (arith, ok.count);
          fits = omega (arith, length-kept-le h es, rep.fits);
          cap = ok.same_length ∙ rep.cap;
          positive = rep.positive;
          cells = λ k b. let at : k ≡ 0 + k = omega arith in ap (cell r.0) at ∙ ok.moved k b;
        },
      )
