-- ===== src/Handle/Names/Shift.antt =====
-- How `_insert_name_before` of skynet-src/skynet_handle.c makes room for a name: cells moved up in
-- the table, or copied to a table twice as large.
use skynet_note.Base.{
  ℕ, zero, suc, ◌+◌, ◌-◌, ◌*◌, ◌≤◌, ◌<◌, ◌≡◌, refl, ap, ◌∙◌, sym, Option, none, some, List, arith,
  dec_lt, length, get_elem?, get_or, set, replicate, length-set, get_or-set_self, get_or-set_ne,
  length-replicate,
}
use skynet_note.Base.Run.{done, ◌>>=◌}
use skynet_note.Handle.Names.{HandleName, Names, Cells, int_limit, store, copy, shift, make_room}
use skynet_note.Handle.Names.Table.{Represents, get_elem?_in}
use skynet_note.Handle.Names.Search.{read_lem}

module _ {Name : Type 0} where
  pub store_lem :
      (cells : Cells Name) (i : ℕ) (e : HandleName Name)
      → i < length cells
      → store cells i e ≡ done (set cells i (some e))
  unfolding store
  store_lem cells i e h = ground (arith, h)

  abbrev pub cell : Cells Name → ℕ → Option (HandleName Name)
  cell cells i = get_or cells i none

  -- The cells from `i` on, `count` of them, are written.
  abbrev pub Written : Cells Name → ℕ → ℕ → Type 0
  Written cells i count =
      (k : ℕ) → k < count → (e : HandleName Name) × (cell cells (i + k) ≡ some e)

  record Shifted (before count : ℕ) (cells r : Cells Name) : Type 0 where
    same_length : length r ≡ length cells
    low : (i : ℕ) → i ≤ before → cell r i ≡ cell cells i
    moved : (k : ℕ) → k < count → cell r (before + k + 1) ≡ cell cells (before + k)
    high : (i : ℕ) → before + count < i → cell r i ≡ cell cells i

  shift_lem :
      (before count : ℕ) (cells : Cells Name)
      → before + count < length cells
      → Written cells before count
      → (r : Cells Name) × (shift before count cells ≡ done r) × Shifted before count cells r
  unfolding shift
  shift_lem before zero cells fits full = (
    cells,
    refl,
    record {
      same_length = refl;
      low = λ i h. refl;
      moved = λ k h. absurd (omega (arith, h));
      high = λ i h. refl;
    },
  )
  shift_lem before (suc count) cells fits full =
      let top : ℕ = before + count + 1 in
      let (e, at) = full count (omega arith) in
      let next : Cells Name = set cells top (some e) in
      let keep : (i : ℕ) → i < top → cell next i ≡ cell cells i =
        λ i h. get_or-set_ne cells (some e) none (λ p. omega (arith, h, p)) in
      let (r, run, ok) =
        shift_lem before count next (omega (arith, fits, length-set cells top (some e))) (λ k h.
          let (a, q) = full k (omega (arith, h)) in
          (a, keep (before + k) (omega (arith, h)) ∙ q)) in
      (
        r,
        ap (λ t. t >>= λ e. store cells top e >>= λ c. shift before count c)
              (read_lem cells (before + count) e at)
            ∙ ap (λ t. t >>= λ c. shift before count c)
                (store_lem cells top e (omega (arith, fits)))
            ∙ run,
        record {
          same_length = ok.same_length ∙ length-set cells top (some e);
          low = λ i h. ok.low i h ∙ keep i (omega (arith, h));
          moved = λ k h. elim (dec_lt k count) [
            | yes p ↦ ok.moved k p ∙ keep (before + k) (omega (arith, p))
            | no p ↦
                let last : k ≡ count = omega (arith, h, p) in
                ap (λ k. cell r (before + k + 1)) last
                ∙ ok.high top (omega arith)
                ∙ get_or-set_self cells top (some e) none (omega (arith, fits))
                ∙ sym at
                ∙ ap (λ k. cell cells (before + k)) (sym last)
          ];
          high = λ i h.
              ok.high i (omega (arith, h))
              ∙ get_or-set_ne cells (some e) none (λ p. omega (arith, h, p));
        },
      )

  record Copied (src : Cells Name) (count i j : ℕ) (dst r : Cells Name) : Type 0 where
    same_length : length r ≡ length dst
    low : (x : ℕ) → x < j → cell r x ≡ cell dst x
    moved : (k : ℕ) → k < count → cell r (j + k) ≡ cell src (i + k)

  copy_lem :
      (src : Cells Name) (count i j : ℕ) (dst : Cells Name)
      → j + count ≤ length dst
      → Written src i count
      → (r : Cells Name) × (copy src count i j dst ≡ done r) × Copied src count i j dst r
  unfolding copy
  copy_lem src zero i j dst fits full = (
    dst,
    refl,
    record { same_length = refl; low = λ x h. refl; moved = λ k h. absurd (omega (arith, h)) },
  )
  copy_lem src (suc count) i j dst fits full =
      let (e, at0) = full zero (omega arith) in
      let here : i + 0 ≡ i = omega arith in
      let at : cell src i ≡ some e = ap (cell src) (sym here) ∙ at0 in
      let next : Cells Name = set dst j (some e) in
      let (r, run, ok) =
        copy_lem src count (i + 1) (j + 1) next (omega (arith, fits, length-set dst j (some e)))
          (λ k h.
            let (a, q) = full (suc k) (omega (arith, h)) in
            let up : i + 1 + k ≡ i + suc k = omega arith in (a, ap (cell src) up ∙ q)) in
      (
        r,
        ap (λ t. t >>= λ e. store dst j e >>= λ d. copy src count (i + 1) (j + 1) d)
              (read_lem src i e at)
            ∙ ap (λ t. t >>= λ d. copy src count (i + 1) (j + 1) d)
                (store_lem dst j e (omega (arith, fits)))
            ∙ run,
        record {
          same_length = ok.same_length ∙ length-set dst j (some e);
          low = λ x h.
              ok.low x (omega (arith, h))
              ∙ get_or-set_ne dst (some e) none (λ p. omega (arith, h, p));
          moved = λ k. elim k as (λ k. k < suc count → cell r (j + k) ≡ cell src (i + k)) [
            | zero ↦ λ h.
                let dst_at : j + 0 ≡ j = omega arith in
                ap (cell r) dst_at
                ∙ ok.low j (omega arith)
                ∙ get_or-set_self dst j (some e) none (omega (arith, fits))
                ∙ sym at0
            | suc k ↦ λ h.
                let to : j + suc k ≡ j + 1 + k = omega arith in
                let from : i + 1 + k ≡ i + suc k = omega arith in
                ap (cell r) to ∙ ok.moved k (omega (arith, h)) ∙ ap (cell src) from
          ];
        },
      )

  -- Room at `before`: the entries below stand where they stood, the others one cell higher.
  pub record Room (es : List (HandleName Name)) (before : ℕ) (t : Names Name) : Type 0 where
    pub count : t.name_count ≡ length es
    pub fits : length es < t.name_cap
    pub cap : length t.name ≡ t.name_cap
    pub low : (i : ℕ) → i < before → cell t.name i ≡ get_elem? es i
    pub moved : (i : ℕ) → before ≤ i → i < length es → cell t.name (i + 1) ≡ get_elem? es i

  make_room-shift :
      (s : Names Name) (before : ℕ) (cells : Cells Name)
      → s.name_count < s.name_cap
      → shift before (s.name_count - before) s.name ≡ done cells
      → make_room s before ≡ done (record s { name = cells })
  unfolding make_room
  make_room-shift s before cells h e = ground (arith, h, e)

  make_room-copy :
      (s : Names Name) (before : ℕ) (low cells : Cells Name)
      → s.name_cap ≤ s.name_count
      → s.name_cap * 2 < int_limit
      → copy s.name before 0 0 (replicate (s.name_cap * 2) none) ≡ done low
      → copy s.name (s.name_count - before) before (before + 1) low ≡ done cells
      → make_room s before ≡ done (record s { name_cap = s.name_cap * 2; name = cells })
  unfolding make_room
  make_room-copy s before low cells h small e f = ground (arith, h, small, e, f)

  written :
      (s : Names Name) (es : List (HandleName Name))
      → Represents s es
      → (i count : ℕ) → i + count ≤ length es
      → Written s.name i count
  written s es rep i count h k below =
      let (e, at) = get_elem?_in es (i + k) (omega (arith, h, below)) in
      (e, rep.cells (i + k) (omega (arith, h, below)) ∙ at)

  pub make_room_lem :
      (s : Names Name) (es : List (HandleName Name)) (before : ℕ)
      → Represents s es
      → before ≤ length es
      → s.name_cap * 2 < int_limit
      → (t : Names Name) × (make_room s before ≡ done t) × Room es before t
  make_room_lem s es before rep le small =
      let count : ℕ = s.name_count - before in
      let whole : before + (s.name_count - before) ≡ length es = omega (arith, rep.count, le) in
      let upper = written s es rep before count (omega (arith, whole)) in
      elim (dec_lt s.name_count s.name_cap) [
        | yes free ↦
            (let (r, run, ok) =
                shift_lem before count s.name (omega (arith, whole, free, rep.cap, rep.count))
                  upper in
              (
                record s { name = r },
                make_room-shift s before r free run,
                record {
                  count = rep.count;
                  fits = omega (arith, free, rep.count);
                  cap = ok.same_length ∙ rep.cap;
                  low = λ i h. ok.low i (omega (arith, h)) ∙ rep.cells i (omega (arith, h, le));
                  moved = λ i b h.
                      let k : ℕ = i - before in
                      let is : before + (i - before) ≡ i = omega (arith, b) in
                      ap (λ n. cell r (n + 1)) (sym is)
                      ∙ ok.moved k (omega (arith, b, h, whole))
                      ∙ ap (cell s.name) is
                      ∙ rep.cells i h;
                },
              ))
        | no full ↦
            (let cap : ℕ = s.name_cap * 2 in
              let block : length (replicate {A = Option (HandleName Name)} cap none)
                  ≡ s.name_cap * 2 =
                length-replicate cap none in
              let (low, run, a) =
                copy_lem s.name before 0 0 (replicate cap none)
                  (omega (arith, block, le, full, rep.count, rep.positive, rep.fits))
                  (written s es rep 0 before (omega (arith, le))) in
              let (r, run', b) =
                copy_lem s.name count before (before + 1) low
                  (omega (arith, a.same_length, block, whole, rep.fits, rep.positive)) upper in
              (
                record s { name_cap = cap; name = r },
                make_room-copy s before low r (omega (arith, full)) small run run',
                record {
                  count = rep.count;
                  fits = omega (arith, rep.fits, rep.positive);
                  cap = b.same_length ∙ a.same_length ∙ block;
                  low = λ i h.
                      let at : 0 + i ≡ i = omega arith in
                      b.low i (omega (arith, h))
                      ∙ ap (cell low) (sym at)
                      ∙ a.moved i h
                      ∙ ap (cell s.name) at
                      ∙ rep.cells i (omega (arith, h, le));
                  moved = λ i p h.
                      let k : ℕ = i - before in
                      let to : i + 1 ≡ before + 1 + (i - before) = omega (arith, p) in
                      let is : before + (i - before) ≡ i = omega (arith, p) in
                      ap (cell r) to
                      ∙ b.moved k (omega (arith, p, h, whole))
                      ∙ ap (cell s.name) is
                      ∙ rep.cells i h;
                },
              ))
      ]
