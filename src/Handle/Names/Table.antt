-- ===== src/Handle/Names/Table.antt =====
-- The table of names in skynet-src/skynet_handle.c as a list of entries in the order of `strcmp`.
use Prim.Native.Nat.{Ordering}
use skynet_note.Base.{
  ℕ, zero, suc, ◌≤◌, ◌<◌, ◌≡◌, ◌≢◌, ◌⊎◌, inl, inr, refl, ap, ◌∙◌, Option, none, some, List, [], ◌∷◌,
  arith, length, get_elem?, get_or,
}
use skynet_note.Handle.Names.{HandleName, Names, Found, found, missing}

-- What the table relies on in `strcmp`: it is the order of the names.
pub record Lawful {Name : Type 0} (strcmp : Name → Name → Ordering) : Type 0 where
  pub self : (a : Name) → strcmp a a ≡ Ordering.eq
  pub same : (a b : Name) → strcmp a b ≡ Ordering.eq → a ≡ b
  pub swap_lt : (a b : Name) → strcmp a b ≡ Ordering.lt → strcmp b a ≡ Ordering.gt
  pub swap_gt : (a b : Name) → strcmp a b ≡ Ordering.gt → strcmp b a ≡ Ordering.lt
  pub trans_lt :
      (a b c : Name)
      → strcmp a b ≡ Ordering.lt
      → strcmp b c ≡ Ordering.lt
      → strcmp a c ≡ Ordering.lt

-- The first `name_count` cells are the entries `es`, and the table has room for one at least.
pub record Represents {Name : Type 0} (s : Names Name) (es : List (HandleName Name)) : Type 0 where
  pub count : s.name_count ≡ length es
  pub fits : length es ≤ s.name_cap
  pub cap : length s.name ≡ s.name_cap
  pub positive : 0 < s.name_cap
  pub cells : (i : ℕ) → i < length es → get_or s.name i none ≡ get_elem? es i

pub Ordering-cases : (o : Ordering) → (o ≡ Ordering.lt) ⊎ ((o ≡ Ordering.eq) ⊎ (o ≡ Ordering.gt))
Ordering-cases Ordering.lt = inl refl
Ordering-cases Ordering.eq = inr (inl refl)
Ordering-cases Ordering.gt = inr (inr refl)

pub get_elem?_in {ℓ} :
    {A : Type ℓ} (xs : List A) (i : ℕ) → i < length xs → (x : A) × (get_elem? xs i ≡ some x)
get_elem?_in [] i h = absurd (omega arith)
get_elem?_in (x ∷ xs) zero h = (x, refl)
get_elem?_in (x ∷ xs) (suc i) h = get_elem?_in xs i (omega arith)

pub get_elem?-lt {ℓ} :
    {A : Type ℓ} (xs : List A) (i : ℕ) {x : A} → get_elem? xs i ≡ some x → i < length xs
get_elem?-lt [] i h = absurd cc
get_elem?-lt (x ∷ xs) zero h = omega arith
get_elem?-lt (x ∷ xs) (suc i) h = omega (arith, get_elem?-lt xs i h)

module _ {Name : Type 0} (strcmp : Name → Name → Ordering) where
  -- Entries stand in the order of their names, and no name stands twice.
  abbrev pub IsSorted : List (HandleName Name) → Type 0
  IsSorted es =
      (i j : ℕ) (x y : HandleName Name)
      → get_elem? es i ≡ some x
      → get_elem? es j ≡ some y
      → i < j
      → strcmp (x.name) (y.name) ≡ Ordering.lt

  abbrev pub or_else : Ordering → ℕ → Option ℕ → Option ℕ
  or_else Ordering.eq h o = some h
  or_else _ h o = o

  -- The handle of a name, looked for from the first entry on
  unfoldable pub handle_named : List (HandleName Name) → Name → Option ℕ
  handle_named [] name = none
  handle_named (e ∷ es) name = or_else (strcmp (e.name) name) (e.handle) (handle_named es name)

  -- Entries below `begin` come before the name, entries from `last` on come after it.
  abbrev pub Narrowed : List (HandleName Name) → Name → ℕ → ℕ → Type 0
  Narrowed es name begin last =
      (i : ℕ) (x : HandleName Name)
      → get_elem? es i ≡ some x
      → (i < begin → strcmp (x.name) name ≡ Ordering.lt)
        × (last ≤ i → strcmp (x.name) name ≡ Ordering.gt)

  abbrev pub Answers : List (HandleName Name) → Name → Found Name → Type 0
  Answers es name (found n) =
      (i : ℕ) × (get_elem? es i ≡ some n) × (strcmp (n.name) name ≡ Ordering.eq)
  Answers es name (missing p) = (p ≤ length es) × Narrowed es name p p

  pub handle_named-absent :
      (es : List (HandleName Name)) (name : Name)
      → ((i : ℕ) (x : HandleName Name)
          → get_elem? es i ≡ some x
          → strcmp (x.name) name ≢ Ordering.eq)
      → handle_named es name ≡ none
  unfolding handle_named
  handle_named-absent [] name h = refl
  handle_named-absent (e ∷ es) name h = elim (Ordering-cases (strcmp (e.name) name)) [
    | inl lt ↦
        ap (λ o. or_else o (e.handle) (handle_named es name)) lt
        ∙ handle_named-absent es name (λ i. h (suc i))
    | inr (inl eq) ↦ absurd (h zero e refl eq)
    | inr (inr gt) ↦
        ap (λ o. or_else o (e.handle) (handle_named es name)) gt
        ∙ handle_named-absent es name (λ i. h (suc i))
  ]

  pub handle_named-at :
      (es : List (HandleName Name)) (name : Name) (i : ℕ) (x : HandleName Name)
      → get_elem? es i ≡ some x
      → strcmp (x.name) name ≡ Ordering.eq
      → ((j : ℕ) (y : HandleName Name)
          → get_elem? es j ≡ some y
          → j < i
          → strcmp (y.name) name ≢ Ordering.eq)
      → handle_named es name ≡ some (x.handle)
  unfolding handle_named
  handle_named-at [] name i x at eq before = absurd cc
  handle_named-at (e ∷ es) name zero x at eq before =
      let same : e ≡ x = cc in
      ap (λ o. or_else o (e.handle) (handle_named es name))
        (ap (λ (t : HandleName Name). strcmp (t.name) name) same ∙ eq)
      ∙ ap (λ (t : HandleName Name). some (t.handle)) same
  handle_named-at (e ∷ es) name (suc i) x at eq before =
      let rest =
        handle_named-at es name i x at eq (λ j y p q. before (suc j) y p (omega (arith, q))) in
      elim (Ordering-cases (strcmp (e.name) name)) [
        | inl lt ↦ ap (λ o. or_else o (e.handle) (handle_named es name)) lt ∙ rest
        | inr (inl e0) ↦ absurd (before zero e refl (omega arith) e0)
        | inr (inr gt) ↦ ap (λ o. or_else o (e.handle) (handle_named es name)) gt ∙ rest
      ]
