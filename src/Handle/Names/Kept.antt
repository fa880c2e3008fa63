-- ===== src/Handle/Names/Kept.antt =====
-- `skynet_handle_retire` of skynet-src/skynet_handle.c on the slots and the names together.
use Prim.Native.Nat.{Ordering}
use skynet_note.Base.{
  ℕ, zero, suc, ◌≡◌, ◌≢◌, ◌⊎◌, inl, inr, refl, ap, ◌∙◌, sym, subst, Option, none, some, List, [],
  ◌∷◌, arith, ℕ_discrete, Option-cases, get_elem?, ◌==◌, if◌then◌else◌,
}
use skynet_note.Base.Run.{done}
use skynet_note.Handle.{lookup, retire_slot}
use skynet_note.Handle.Retire.{retire_slot_lem}
use skynet_note.Handle.Names.{HandleName, Names, HandleStorage, retire_names, retire}
use skynet_note.Handle.Names.Table.{
  Lawful, Represents, IsSorted, handle_named, handle_named-absent, or_else, Ordering-cases,
}
use skynet_note.Handle.Names.Retire.{kept, kept_drop, kept_keep, retire_names_lem}

module _ {Name : Type 0} (strcmp : Name → Name → Ordering) (laws : Lawful strcmp) where
  IsSorted-tail :
      (e : HandleName Name) (es : List (HandleName Name))
      → IsSorted strcmp (e ∷ es)
      → IsSorted strcmp es
  IsSorted-tail e es sorted i j x y xi yj h = sorted (suc i) (suc j) x y xi yj (omega (arith, h))

  kept-from :
      (h : ℕ) (es : List (HandleName Name)) (i : ℕ) (x : HandleName Name)
      → get_elem? (kept h es) i ≡ some x
      → (j : ℕ) × (get_elem? es j ≡ some x)
  kept-from h [] i x at = absurd cc
  kept-from h (e ∷ es) i x at = elim (ℕ_discrete (e.handle) h) [
    | yes p ↦
        let (j, q) = kept-from h es i x (ap (λ t. get_elem? t i) (sym (kept_drop h e es p)) ∙ at) in
        (suc j, q)
    | no p ↦
        (elim i
            as (λ i.
              get_elem? (e ∷ kept h es) i ≡ some x → (j : ℕ) × (get_elem? (e ∷ es) j ≡ some x)) [
                | zero ↦ λ q. (0, q)
                | suc i ↦ λ q. let (j, r) = kept-from h es i x q in (suc j, r)
              ])
          (ap (λ t. get_elem? t i) (sym (kept_keep h e es p)) ∙ at)
  ]

  -- Sorted, from the head on
  Heads : HandleName Name → List (HandleName Name) → Type 0
  Heads e es =
      (j : ℕ) (y : HandleName Name)
      → get_elem? es j ≡ some y
      → strcmp (e.name) (y.name) ≡ Ordering.lt

  IsSorted-cons :
      (e : HandleName Name) (es : List (HandleName Name))
      → Heads e es
      → IsSorted strcmp es
      → IsSorted strcmp (e ∷ es)
  unfolding Heads
  IsSorted-cons e es head sorted zero zero x y xi yj h = absurd (omega (arith, h))
  IsSorted-cons e es head sorted zero (suc j) x y xi yj h =
      let same : e ≡ x = cc in
      ap (λ (t : HandleName Name). strcmp (t.name) (y.name)) (sym same) ∙ head j y yj
  IsSorted-cons e es head sorted (suc i) zero x y xi yj h = absurd (omega (arith, h))
  IsSorted-cons e es head sorted (suc i) (suc j) x y xi yj h =
      sorted i j x y xi yj (omega (arith, h))

  pub kept-IsSorted :
      (h : ℕ) (es : List (HandleName Name)) → IsSorted strcmp es → IsSorted strcmp (kept h es)
  unfolding Heads
  kept-IsSorted h [] sorted = sorted
  kept-IsSorted h (e ∷ es) sorted =
      let rest = kept-IsSorted h es (IsSorted-tail e es sorted) in
      elim (ℕ_discrete (e.handle) h) [
        | yes p ↦ subst (IsSorted strcmp) (sym (kept_drop h e es p)) rest
        | no p ↦ subst (IsSorted strcmp) (sym (kept_keep h e es p)) (
            IsSorted-cons e (kept h es)
              (λ j y yj.
                let (k, at) = kept-from h es j y yj in sorted 0 (suc k) e y refl at (omega arith))
              rest)
      ]

  -- A name without its handle, if it is the handle `h`
  abbrev pub unless : ℕ → Option ℕ → Option ℕ
  unless h none = none
  unless h (some g) = if g == h then none else some g

  unless_eq : (h g : ℕ) → g ≡ h → unless h (some g) ≡ none
  unless_eq h g p = ground (arith, p)

  unless_ne : (h g : ℕ) → g ≢ h → unless h (some g) ≡ some g
  unless_ne h g p = ground (arith, p)

  handle_named-kept :
      (h : ℕ) (es : List (HandleName Name)) (name : Name)
      → IsSorted strcmp es
      → handle_named strcmp (kept h es) name ≡ unless h (handle_named strcmp es name)
  unfolding handle_named
  handle_named-kept h [] name sorted = refl
  handle_named-kept h (e ∷ es) name sorted =
      let rest = handle_named-kept h es name (IsSorted-tail e es sorted) in
      let old : Ordering → Option ℕ =
        λ o. or_else strcmp o (e.handle) (handle_named strcmp es name) in
      let new : Ordering → Option ℕ =
        λ o. or_else strcmp o (e.handle) (handle_named strcmp (kept h es) name) in
      let later : strcmp (e.name) name ≡ Ordering.eq → handle_named strcmp es name ≡ none = λ q.
        handle_named-absent strcmp es name (λ j y yj r.
          let less : strcmp (e.name) (y.name) ≡ Ordering.lt =
            sorted 0 (suc j) e y refl yj (omega arith) in
          let two : y.name ≡ e.name = laws.same (y.name) name r ∙ sym (laws.same (e.name) name q) in
          let clash : Ordering.lt ≡ Ordering.eq =
            sym less ∙ ap (strcmp (e.name)) two ∙ laws.self (e.name) in
          absurd cc) in
      elim (ℕ_discrete (e.handle) h) [
        | yes p ↦
            ap (λ t. handle_named strcmp t name) (kept_drop h e es p)
            ∙ rest
            ∙ elim (Ordering-cases (strcmp (e.name) name)) [
              | inl c ↦ sym (ap (λ o. unless h (old o)) c)
              | inr (inl c) ↦
                  ap (unless h) (later c)
                  ∙ sym (unless_eq h (e.handle) p)
                  ∙ sym (ap (λ o. unless h (old o)) c)
              | inr (inr c) ↦ sym (ap (λ o. unless h (old o)) c)
            ]
        | no p ↦
            ap (λ t. handle_named strcmp t name) (kept_keep h e es p)
            ∙ elim (Ordering-cases (strcmp (e.name) name)) [
              | inl c ↦ ap new c ∙ rest ∙ sym (ap (λ o. unless h (old o)) c)
              | inr (inl c) ↦
                  ap new c ∙ sym (unless_ne h (e.handle) p) ∙ sym (ap (λ o. unless h (old o)) c)
              | inr (inr c) ↦ ap new c ∙ rest ∙ sym (ap (λ o. unless h (old o)) c)
            ]
      ]

  -- The storage after a handle was retired: the handle and its names are gone, other handles and
  -- their names are as they were, and the table of names stays in order.
  pub record Retired (handle_of : ℕ → ℕ) (s : HandleStorage Name) (es : List (HandleName Name))
      (h : ℕ) (t : HandleStorage Name) : Type 0 where
    pub gone : lookup handle_of t.slots h ≡ none
    pub others : (g : ℕ) → g ≢ h → lookup handle_of t.slots g ≡ lookup handle_of s.slots g
    pub entries : List (HandleName Name)
    pub represents : Represents t.names entries
    pub sorted : IsSorted strcmp entries
    pub named :
        (name : Name) → handle_named strcmp entries name ≡ unless h (handle_named strcmp es name)

  retire_skip :
      (handle_of : ℕ → ℕ) (s : HandleStorage Name) (h : ℕ)
      → lookup handle_of s.slots h ≡ none
      → retire handle_of s h ≡ done (none, s)
  unfolding retire
  retire_skip handle_of s h e = ground (arith, e)

  pub retire_found :
      (handle_of : ℕ → ℕ) (s : HandleStorage Name) (h ctx : ℕ) (names : Names Name)
      → lookup handle_of s.slots h ≡ some ctx
      → retire_names h s.names ≡ done names
      → retire handle_of s h
        ≡ done (some ctx, record { slots = (retire_slot handle_of s.slots h).1; names = names })
  unfolding retire
  retire_found handle_of s h ctx names e run = ground (arith, e, run)

  -- On each branch: a handle that names no context is ignored. Otherwise the context is released, the
  -- handle names nothing any more, no name leads to it, every other handle names what it did and keeps
  -- its names, and the table of names stays in order.
  pub retire_lem :
      (handle_of : ℕ → ℕ) (s : HandleStorage Name) (es : List (HandleName Name)) (h : ℕ)
      → Represents s.names es
      → IsSorted strcmp es
      → ((lookup handle_of s.slots h ≡ none) × (retire handle_of s h ≡ done (none, s)))
        ⊎ ((ctx : ℕ) × (lookup handle_of s.slots h ≡ some ctx)
            × (t : HandleStorage Name) × (retire handle_of s h ≡ done (some ctx, t))
            × Retired handle_of s es h t)
  retire_lem handle_of s es h rep sorted =
      let slot = retire_slot_lem handle_of s.slots h in
      let (names, run, rep') = retire_names_lem h s.names es rep in
      let t : HandleStorage Name = record {
        slots = (retire_slot handle_of s.slots h).1;
        names = names;
      } in
      elim (Option-cases (lookup handle_of s.slots h)) [
        | inl e ↦ inl (e, retire_skip handle_of s h e)
        | inr (ctx, e) ↦ inr (
          ctx,
          e,
          t,
          retire_found handle_of s h ctx names e run,
          record {
            gone = slot.gone;
            others = slot.others;
            entries = kept h es;
            represents = rep';
            sorted = kept-IsSorted h es sorted;
            named = λ name. handle_named-kept h es name sorted;
          },
        )
      ]
