-- ===== src/Handle/Names/Named.antt =====
-- What `_insert_name` of skynet-src/skynet_handle.c makes of the names of the table.
use Prim.Native.Nat.{Ordering}
use skynet_note.Base.{
  ℕ, zero, suc, ◌*◌, ◌≤◌, ◌<◌, ◌≡◌, ◌≢◌, ◌⊎◌, inl, inr, refl, ap, ◌∙◌, sym, subst, Option, none,
  some, List, [], ◌∷◌, arith, length, get_elem?,
}
use skynet_note.Base.Run.{done, ◌>>=◌}
use skynet_note.Handle.Names.{HandleName, Names, int_limit, insert_found, insert_name, findname}
use skynet_note.Handle.Names.Table.{
  Lawful, Represents, IsSorted, Narrowed, Answers, handle_named, or_else, handle_named-at,
}
use skynet_note.Handle.Names.Search.{search_all, Answers-handle_named, findname_lem, or_zero}
use skynet_note.Handle.Names.Insert.{
  insert_at, insert_at_self, insert_at-cases, length-insert_at, insert_name_before_lem,
}

module _ {Name : Type 0} (strcmp : Name → Name → Ordering) (laws : Lawful strcmp) where
  or_else_ne : (o : Ordering) (h : ℕ) (r : Option ℕ) → o ≢ Ordering.eq → or_else strcmp o h r ≡ r
  or_else_ne Ordering.lt h r ne = refl
  or_else_ne Ordering.eq h r ne = absurd (ne refl)
  or_else_ne Ordering.gt h r ne = refl

  -- An entry of a sorted table is the one that its name finds.
  pub IsSorted-handle_named :
      (es : List (HandleName Name)) (i : ℕ) (x : HandleName Name)
      → IsSorted strcmp es
      → get_elem? es i ≡ some x
      → handle_named strcmp es x.name ≡ some (x.handle)
  IsSorted-handle_named es i x sorted at =
      handle_named-at strcmp es x.name i x at (laws.self x.name) (λ j y yj lt e.
        let less : strcmp (y.name) (x.name) ≡ Ordering.lt = sorted j i y x yj at lt in
        let clash : Ordering.lt ≡ Ordering.eq = sym less ∙ e in absurd cc)

  handle_named_other :
      (p : ℕ) (e : HandleName Name) (es : List (HandleName Name)) (name : Name)
      → e.name ≢ name
      → handle_named strcmp (insert_at p e es) name ≡ handle_named strcmp es name
  unfolding handle_named
  handle_named_other zero e es name ne =
      or_else_ne (strcmp (e.name) name) (e.handle) (handle_named strcmp es name)
        (λ q. ne (laws.same (e.name) name q))
  handle_named_other (suc p) e [] name ne =
      or_else_ne (strcmp (e.name) name) (e.handle) none (λ q. ne (laws.same (e.name) name q))
  handle_named_other (suc p) e (y ∷ es) name ne =
      ap (or_else strcmp (strcmp (y.name) name) (y.handle)) (handle_named_other p e es name ne)

  insert_at-IsSorted :
      (p : ℕ) (e : HandleName Name) (es : List (HandleName Name))
      → IsSorted strcmp es
      → p ≤ length es
      → Narrowed strcmp es e.name p p
      → IsSorted strcmp (insert_at p e es)
  insert_at-IsSorted p e es sorted le range i j x y xi yj h =
      elim (insert_at-cases p e es i le xi) [
        | inl (a, at) ↦ elim (insert_at-cases p e es j le yj) [
          | inl (b, bt) ↦ sorted i j x y at bt h
          | inr (inl (same, is)) ↦
              ap (λ (t : HandleName Name). strcmp (x.name) (t.name)) (sym is) ∙ (range i x at).0 a
          | inr (inr (l, same, b, bt)) ↦ sorted i l x y at bt (omega (arith, a, b))
        ]
        | inr (inl (q, is)) ↦ elim (insert_at-cases p e es j le yj) [
          | inl (b, bt) ↦ absurd (omega (arith, q, b, h))
          | inr (inl (same, at)) ↦ absurd (omega (arith, q, same, h))
          | inr (inr (l, same, b, bt)) ↦
              ap (λ (t : HandleName Name). strcmp (t.name) (y.name)) (sym is)
              ∙ laws.swap_gt (y.name) (e.name) ((range l y bt).1 b)
        ]
        | inr (inr (k, q, a, at)) ↦ elim (insert_at-cases p e es j le yj) [
          | inl (b, bt) ↦ absurd (omega (arith, q, a, b, h))
          | inr (inl (same, is)) ↦ absurd (omega (arith, q, a, same, h))
          | inr (inr (l, same, b, bt)) ↦ sorted k l x y at bt (omega (arith, q, same, h))
        ]
      ]

  -- A new name: it names the handle, other names name what they did, and the table stays in order.
  pub record Added (s : Names Name) (es : List (HandleName Name)) (name : Name) (handle : ℕ)
      (t : Names Name) : Type 0 where
    pub entries : List (HandleName Name)
    pub represents : Represents t entries
    pub longer : length entries ≡ suc (length es)
    pub sorted : IsSorted strcmp entries
    pub named : handle_named strcmp entries name ≡ some handle
    pub others : (n : Name) → name ≢ n → handle_named strcmp entries n ≡ handle_named strcmp es n

  -- On each branch: a name that is in the table gives NULL and leaves the table as it is. Any other
  -- name is returned, it names the handle given and no other name changes, the table stays in the
  -- order of the names, and nothing is read or written outside it. At most 2 ^ 29 cells are assumed.
  pub insert_name_lem :
      (s : Names Name) (es : List (HandleName Name)) (name : Name) (handle : ℕ)
      → Represents s es
      → IsSorted strcmp es
      → s.name_cap * 2 < int_limit
      → ((h : ℕ) × (handle_named strcmp es name ≡ some h)
          × (insert_name strcmp s name handle ≡ done (none, s)))
        ⊎ ((handle_named strcmp es name ≡ none)
            × (t : Names Name) × (insert_name strcmp s name handle ≡ done (some name, t))
            × Added s es name handle t)
  unfolding insert_name
  insert_name_lem s es name handle rep sorted small =
      let (r, run, ok) =
        search_all strcmp laws s es name rep sorted (omega (arith, small, rep.fits)) in
      let start = ap (λ t. t >>= insert_found s name handle) run in
      elim (Answers-handle_named strcmp laws es name r sorted ok) [
        | inl (h, named, n, is, same) ↦ inl (h, named, start ∙ ap (insert_found s name handle) is)
        | inr (absent, p, is) ↦
            (let e : HandleName Name = record { name = name; handle = handle } in
              let (le, range) = subst (λ r. Answers strcmp es name r) is ok in
              let (t, ran, rep') = insert_name_before_lem s es name handle p rep le small in
              let sorted' : IsSorted strcmp (insert_at p e es) =
                insert_at-IsSorted p e es sorted le range in
              inr (
                absent,
                t,
                start
                    ∙ ap (insert_found s name handle) is
                    ∙ ap (λ t. t >>= λ t. done (some name, t)) ran,
                record {
                  entries = insert_at p e es;
                  represents = rep';
                  longer = length-insert_at p e es;
                  sorted = sorted';
                  named =
                      IsSorted-handle_named (insert_at p e es) p e sorted'
                        (insert_at_self p e es le);
                  others = λ n ne. handle_named_other p e es n ne;
                },
              ))
      ]

  -- A name that is not in the table is inserted, and then it finds its handle, and every other name
  -- finds what it found before.
  pub findname-insert_name :
      (s : Names Name) (es : List (HandleName Name)) (name : Name) (handle : ℕ)
      → Represents s es
      → IsSorted strcmp es
      → s.name_cap * 2 < int_limit
      → handle_named strcmp es name ≡ none
      → (t : Names Name) × (insert_name strcmp s name handle ≡ done (some name, t))
        × (findname strcmp t name ≡ done handle)
        × ((n : Name) → name ≢ n → findname strcmp t n ≡ findname strcmp s n)
  findname-insert_name s es name handle rep sorted small new =
      elim (insert_name_lem s es name handle rep sorted small) [
        | inl (h, old, run) ↦ (let clash : none ≡ some h = sym new ∙ old in absurd cc)
        | inr (absent, t, run, ok) ↦
            (let find : (n : Name)
                  → findname strcmp t n
                    ≡ done (or_zero strcmp laws (handle_named strcmp ok.entries n)) =
                λ n.
                  findname_lem strcmp laws t ok.entries n ok.represents ok.sorted
                    (omega (arith, ok.longer, small, rep.fits)) in
              (
                t,
                run,
                find name ∙ ap (λ o. done (or_zero strcmp laws o)) ok.named,
                λ n ne.
                    find n
                    ∙ ap (λ o. done (or_zero strcmp laws o)) (ok.others n ne)
                    ∙ sym (
                        findname_lem strcmp laws s es n rep sorted
                          (omega (arith, small, rep.fits))),
              ))
      ]
