-- ===== src/Handle/Names/Search.antt =====
-- The search by halving of `skynet_handle_findname` and `_insert_name` in skynet-src/skynet_handle.c.
use Prim.Native.Nat.{Ordering}
use skynet_note.Base.{
  ℕ, zero, suc, ◌+◌, ◌-◌, ◌*◌, ◌/◌, ◌≤◌, ◌<◌, ◌≡◌, ◌⊎◌, inl, inr, refl, ap, ◌∙◌, sym, Option, none,
  some, List, arith, dec_lt, length, get_elem?, get_or,
}
use skynet_note.Base.Run.{Run, done, aborted, ◌>>=◌}
use skynet_note.Handle.Names.{
  HandleName, Names, Cells, Found, found, missing, Probe, stop, narrow, int_limit, read, probe,
  search, found_handle, findname,
}
use skynet_note.Handle.Names.Table.{
  Lawful, Represents, IsSorted, Narrowed, Answers, handle_named, handle_named-absent,
  handle_named-at, Ordering-cases, get_elem?_in, get_elem?-lt,
}

pub read_lem :
    {Name : Type 0} (cells : Cells Name) (i : ℕ) (e : HandleName Name)
    → get_or cells i none ≡ some e
    → read cells i ≡ done e
unfolding read
read_lem {Name = Name} cells i e h =
    ap (λ o. elim o as (λ o. Run (HandleName Name)) [ none ↦ aborted | some e ↦ done e ]) h

module _ {Name : Type 0} (strcmp : Name → Name → Ordering) where
  probe_empty :
      (cells : Cells Name) (name : Name) (begin last : ℕ)
      → last ≤ begin
      → probe strcmp cells name begin last ≡ done (stop (missing begin))
  unfolding probe
  probe_empty cells name begin last h = ground (arith, h)

  abbrev on_order : HandleName Name → ℕ → ℕ → ℕ → Ordering → Run (Probe Name)
  on_order n begin mid last Ordering.eq = done (stop (found n))
  on_order n begin mid last Ordering.lt = done (narrow (mid + 1) last)
  on_order n begin mid last Ordering.gt = done (narrow begin mid)

  probe_lem :
      (cells : Cells Name) (name : Name) (begin last : ℕ) (n : HandleName Name)
      → begin < last
      → begin + last ≤ int_limit
      → read cells ((begin + (last - 1)) / 2) ≡ done n
      → probe strcmp cells name begin last
        ≡ on_order n begin ((begin + (last - 1)) / 2) last (strcmp (n.name) name)
  unfolding probe
  probe_lem cells name begin last n h small at = ground (arith, h, small, at)

  abbrev Finds : List (HandleName Name) → Cells Name → Name → ℕ → ℕ → ℕ → Type 0
  Finds es cells name fuel begin last =
      (r : Found Name) × (search strcmp cells name fuel begin last ≡ done r)
      × Answers strcmp es name r

  -- What a round leaves to the rest of the loop
  abbrev go : Cells Name → Name → ℕ → Probe Name → Run (Found Name)
  go cells name fuel (stop a) = done a
  go cells name fuel (narrow begin' last') = search strcmp cells name fuel begin' last'

  search-probe :
      (cells : Cells Name) (name : Name) (fuel begin last : ℕ) (p : Probe Name)
      → probe strcmp cells name begin last ≡ done p
      → search strcmp cells name (suc fuel) begin last ≡ go cells name fuel p
  unfolding search
  search-probe cells name fuel begin last (stop a) e = rw e refl
  search-probe cells name fuel begin last (narrow b l) e = rw e refl

  module _ (laws : Lawful strcmp) where
    narrow_above :
        (es : List (HandleName Name)) (name : Name) (mid last : ℕ) (n : HandleName Name)
        → IsSorted strcmp es
        → get_elem? es mid ≡ some n
        → strcmp (n.name) name ≡ Ordering.lt
        → (begin : ℕ) → Narrowed strcmp es name begin last
        → Narrowed strcmp es name (mid + 1) last
    narrow_above es name mid last n sorted at lt begin range i x xi = (
      λ below. elim (dec_lt i mid) [
        | yes h ↦ laws.trans_lt (x.name) (n.name) name (sorted i mid x n xi at h) lt
        | no h ↦
            let same : i ≡ mid = omega (arith, below, h) in
            let entry : x ≡ n =
              (let one : some x ≡ some n = sym xi ∙ ap (get_elem? es) same ∙ at in cc) in
            ap (λ (t : HandleName Name). strcmp (t.name) name) entry ∙ lt
      ],
      (range i x xi).1,
    )

    narrow_below :
        (es : List (HandleName Name)) (name : Name) (mid begin : ℕ) (n : HandleName Name)
        → IsSorted strcmp es
        → get_elem? es mid ≡ some n
        → strcmp (n.name) name ≡ Ordering.gt
        → (last : ℕ) → Narrowed strcmp es name begin last
        → Narrowed strcmp es name begin mid
    narrow_below es name mid begin n sorted at gt last range i x xi = (
      (range i x xi).0,
      λ above. elim (dec_lt mid i) [
        | yes h ↦ laws.swap_lt name (x.name) (
            laws.trans_lt name (n.name) (x.name) (laws.swap_gt (n.name) name gt)
              (sorted mid i n x at xi h))
        | no h ↦
            let same : i ≡ mid = omega (arith, above, h) in
            let entry : x ≡ n =
              (let one : some x ≡ some n = sym xi ∙ ap (get_elem? es) same ∙ at in cc) in
            ap (λ (t : HandleName Name). strcmp (t.name) name) entry ∙ gt
      ],
    )

    pub search_lem :
        (es : List (HandleName Name)) (cells : Cells Name) (name : Name)
        → ((i : ℕ) → i < length es → get_or cells i none ≡ get_elem? es i)
        → IsSorted strcmp es
        → 2 * length es ≤ int_limit
        → (fuel begin last : ℕ) → begin ≤ last
        → last ≤ length es
        → last < begin + fuel
        → Narrowed strcmp es name begin last
        → Finds es cells name fuel begin last
    search_lem es cells name same sorted small zero begin last le inside enough range =
        absurd (omega (arith, le, enough))
    search_lem es cells name same sorted small (suc fuel) begin last le inside enough range =
        elim (dec_lt begin last) [
          | no h ↦
              let over : last ≡ begin = omega (arith, h, le) in
              (
                missing begin,
                search-probe cells name fuel begin last (stop (missing begin))
                    (probe_empty cells name begin last (omega (arith, over))),
                (
                  omega (arith, over, inside),
                  λ i x xi. ((range i x xi).0, λ b. (range i x xi).1 (omega (arith, b, over))),
                ),
              )
          | yes h ↦
              let mid : ℕ = (begin + (last - 1)) / 2 in
              let mid_begin : begin ≤ (begin + (last - 1)) / 2 = omega (arith, h) in
              let mid_last : (begin + (last - 1)) / 2 < last = omega (arith, h) in
              let (n, at) = get_elem?_in es mid (omega (arith, mid_last, inside)) in
              let cell = same mid (omega (arith, mid_last, inside)) ∙ at in
              let round =
                probe_lem cells name begin last n h (omega (arith, h, inside, small))
                  (read_lem cells mid n cell) in
              elim (Ordering-cases (strcmp (n.name) name)) [
                | inl lt ↦
                    (let (r, run, ok) =
                        search_lem es cells name same sorted small fuel (mid + 1) last
                          (omega (arith, mid_last)) inside (omega (arith, mid_begin, enough))
                          (narrow_above es name mid last n sorted at lt begin range) in
                      (
                        r,
                        search-probe cells name fuel begin last (narrow (mid + 1) last)
                              (round ∙ ap (on_order n begin mid last) lt)
                            ∙ run,
                        ok,
                      ))
                | inr (inl eq) ↦ (
                  found n,
                  search-probe cells name fuel begin last (stop (found n))
                      (round ∙ ap (on_order n begin mid last) eq),
                  (mid, at, eq),
                )
                | inr (inr gt) ↦
                    (let (r, run, ok) =
                        search_lem es cells name same sorted small fuel begin mid mid_begin
                          (omega (arith, mid_last, inside)) (omega (arith, mid_last, enough))
                          (narrow_below es name mid begin n sorted at gt last range) in
                      (
                        r,
                        search-probe cells name fuel begin last (narrow begin mid)
                              (round ∙ ap (on_order n begin mid last) gt)
                            ∙ run,
                        ok,
                      ))
              ]
        ]

    -- What a search found is what the list names.
    pub Answers-handle_named :
        (es : List (HandleName Name)) (name : Name) (r : Found Name)
        → IsSorted strcmp es
        → Answers strcmp es name r
        → ((h : ℕ) × (handle_named strcmp es name ≡ some h)
            × (n : HandleName Name) × (r ≡ found n)
            × (n.handle ≡ h))
          ⊎ ((handle_named strcmp es name ≡ none) × (p : ℕ) × (r ≡ missing p))
    Answers-handle_named es name (found n) sorted (i, at, eq) = inl (
      n.handle,
      handle_named-at strcmp es name i n at eq (λ j y yj lt e.
          let two : y.name ≡ n.name =
            laws.same (y.name) name e ∙ sym (laws.same (n.name) name eq) in
          let less : strcmp (y.name) (n.name) ≡ Ordering.lt = sorted j i y n yj at lt in
          let clash : Ordering.lt ≡ Ordering.eq =
            sym less ∙ ap (λ t. strcmp t (n.name)) two ∙ laws.self (n.name) in
          absurd cc),
      n,
      refl,
      refl,
    )
    Answers-handle_named es name (missing p) sorted (le, range) = inr (
      handle_named-absent strcmp es name (λ i x xi e. elim (dec_lt i p) [
        | yes h ↦
            (let clash : Ordering.lt ≡ Ordering.eq = sym ((range i x xi).0 h) ∙ e in absurd cc)
        | no h ↦
            (let clash : Ordering.gt ≡ Ordering.eq =
                sym ((range i x xi).1 (omega (arith, h))) ∙ e in
              absurd cc)
      ]),
      p,
      refl,
    )

    -- The whole table is searched within the fuel given.
    pub search_all :
        (s : Names Name) (es : List (HandleName Name)) (name : Name)
        → Represents s es
        → IsSorted strcmp es
        → 2 * length es ≤ int_limit
        → Finds es s.name name (s.name_count + 1) 0 s.name_count
    search_all s es name rep sorted small =
        search_lem es s.name name rep.cells sorted small (s.name_count + 1) 0 s.name_count
          (omega arith) (omega (arith, rep.count)) (omega arith)
          (λ i x xi. (
            λ h. absurd (omega (arith, h)),
            λ h. absurd (omega (arith, h, rep.count, get_elem?-lt es i xi)),
          ))

    abbrev pub or_zero : Option ℕ → ℕ
    or_zero none = 0
    or_zero (some h) = h

    -- For a table that represents entries in the order of their names, at most 2 ^ 30 of them, the
    -- search by halving ends, and gives the handle that a search from the first entry on finds, or 0.
    pub findname_lem :
        (s : Names Name) (es : List (HandleName Name)) (name : Name)
        → Represents s es
        → IsSorted strcmp es
        → 2 * length es ≤ int_limit
        → findname strcmp s name ≡ done (or_zero (handle_named strcmp es name))
    unfolding findname
    findname_lem s es name rep sorted small =
        let (r, run, ok) = search_all s es name rep sorted small in
        ap (λ (t : Run (Found Name)). t >>= λ a. done (found_handle a)) run
        ∙ elim (Answers-handle_named es name r sorted ok) [
          | inl (h, named, n, is, handle) ↦
              ap (λ a. done (found_handle a)) is
              ∙ ap done handle
              ∙ sym (ap (λ o. done (or_zero o)) named)
          | inr (absent, p, is) ↦
              ap (λ a. done (found_handle a)) is ∙ sym (ap (λ o. done (or_zero o)) absent)
        ]
