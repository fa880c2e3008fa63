-- ===== src/Handle/Names/Insert.antt =====
-- `_insert_name` and `skynet_handle_namehandle` of skynet-src/skynet_handle.c.

use skynet_note.Base.{
  ℕ, zero, suc, ◌+◌, ◌-◌, ◌*◌, ◌≤◌, ◌<◌, ◌≡◌, ◌≢◌, ◌⊎◌, inl, inr, refl, ap, ◌∙◌, sym, none, some,
  List, [], ◌∷◌, arith, dec_lt, length, get_elem?, set, length-set, get_or-set_self, get_or-set_ne,
  ℕ_discrete,
}
use skynet_note.Base.Run.{done, ◌>>=◌}
use skynet_note.Handle.Names.{HandleName, Names, int_limit, store, insert_name_before}
use skynet_note.Handle.Names.Table.{Represents}
use skynet_note.Handle.Names.Shift.{store_lem, cell, make_room_lem}

module _ {ℓ} {A : Type ℓ} where
  -- A list with `x` put before its cell `p`
  abbrev pub insert_at : ℕ → A → List A → List A
  insert_at zero x xs = x ∷ xs
  insert_at (suc p) x [] = x ∷ []
  insert_at (suc p) x (y ∷ xs) = y ∷ insert_at p x xs

  pub length-insert_at : (p : ℕ) (x : A) (xs : List A) → length (insert_at p x xs) ≡ suc (length xs)
  length-insert_at zero x xs = refl
  length-insert_at (suc p) x [] = refl
  length-insert_at (suc p) x (y ∷ xs) = ap suc (length-insert_at p x xs)

  pub insert_at_low :
      (p : ℕ) (x : A) (xs : List A) (i : ℕ)
      → i < p
      → i < length xs
      → get_elem? (insert_at p x xs) i ≡ get_elem? xs i
  insert_at_low zero x xs i h l = absurd (omega (arith, h))
  insert_at_low (suc p) x [] i h l = absurd (omega (arith, l))
  insert_at_low (suc p) x (y ∷ xs) zero h l = refl
  insert_at_low (suc p) x (y ∷ xs) (suc i) h l =
      insert_at_low p x xs i (omega (arith, h)) (omega (arith, l))

  pub insert_at_self :
      (p : ℕ) (x : A) (xs : List A) → p ≤ length xs → get_elem? (insert_at p x xs) p ≡ some x
  insert_at_self zero x xs h = refl
  insert_at_self (suc p) x [] h = absurd (omega (arith, h))
  insert_at_self (suc p) x (y ∷ xs) h = insert_at_self p x xs (omega (arith, h))

  pub insert_at_high :
      (p : ℕ) (x : A) (xs : List A) (i : ℕ)
      → p ≤ i
      → i < length xs
      → get_elem? (insert_at p x xs) (suc i) ≡ get_elem? xs i
  insert_at_high zero x xs i h l = refl
  insert_at_high (suc p) x [] i h l = absurd (omega (arith, l))
  insert_at_high (suc p) x (y ∷ xs) zero h l = absurd (omega (arith, h))
  insert_at_high (suc p) x (y ∷ xs) (suc i) h l =
      insert_at_high p x xs i (omega (arith, h)) (omega (arith, l))

  -- Where an element of the longer list stood.
  pub insert_at-cases :
      (p : ℕ) (x : A) (xs : List A) (i : ℕ) {y : A}
      → p ≤ length xs
      → get_elem? (insert_at p x xs) i ≡ some y
      → ((i < p) × (get_elem? xs i ≡ some y))
        ⊎ (((i ≡ p) × (x ≡ y)) ⊎ ((j : ℕ) × (i ≡ suc j) × (p ≤ j) × (get_elem? xs j ≡ some y)))
  insert_at-cases zero x xs zero h e = inr (inl (refl, cc))
  insert_at-cases zero x xs (suc i) h e = inr (inr (i, refl, omega arith, e))
  insert_at-cases (suc p) x [] i h e = absurd (omega (arith, h))
  insert_at-cases (suc p) x (z ∷ xs) zero h e = inl (omega arith, e)
  insert_at-cases (suc p) x (z ∷ xs) (suc i) h e =
      elim (insert_at-cases p x xs i (omega (arith, h)) e) [
        | inl (lt, at) ↦ inl (omega (arith, lt), at)
        | inr (inl (same, at)) ↦ inr (inl (ap suc same, at))
        | inr (inr (j, same, le, at)) ↦ inr (inr (suc j, ap suc same, omega (arith, le), at))
      ]

module _ {Name : Type 0} where
  pub insert_name_before_lem :
      (s : Names Name) (es : List (HandleName Name)) (name : Name) (handle p : ℕ)
      → Represents s es
      → p ≤ length es
      → s.name_cap * 2 < int_limit
      → (t : Names Name) × (insert_name_before s name handle p ≡ done t)
        × Represents t (insert_at p (record { name = name; handle = handle }) es)
  unfolding insert_name_before
  insert_name_before_lem s es name handle p rep le small =
      let (t, run, room) = make_room_lem s es p rep le small in
      let e : HandleName Name = record { name = name; handle = handle } in
      let long : length (insert_at p e es) ≡ suc (length es) = length-insert_at p e es in
      let off : (i : ℕ) → i ≢ p → cell (set t.name p (some e)) i ≡ cell t.name i =
        λ i ne. get_or-set_ne t.name (some e) none (λ q. ne (sym q)) in
      (
        record t { name = set t.name p (some e); name_count = t.name_count + 1 },
        ap
              (λ r. r >>= λ t. store t.name p e >>= λ c.
                done (record t { name = c; name_count = t.name_count + 1 }))
              run
            ∙ ap (λ r. r >>= λ c. done (record t { name = c; name_count = t.name_count + 1 }))
                (store_lem t.name p e (omega (arith, le, room.fits, room.cap))),
        record {
          count = omega (arith, long, room.count);
          fits = omega (arith, long, room.fits);
          cap = length-set t.name p (some e) ∙ room.cap;
          positive = omega (arith, room.fits);
          cells = λ i h. elim (dec_lt i p) [
            | yes below ↦
                off i (λ q. omega (arith, q, below))
                ∙ room.low i below
                ∙ sym (insert_at_low p e es i below (omega (arith, below, le)))
            | no b ↦ elim (ℕ_discrete i p) [
              | yes same ↦
                  ap (cell (set t.name p (some e))) same
                  ∙ get_or-set_self t.name p (some e) none (omega (arith, le, room.fits, room.cap))
                  ∙ sym (ap (get_elem? (insert_at p e es)) same ∙ insert_at_self p e es le)
              | no ne ↦
                  let j : ℕ = i - 1 in
                  let up : i ≡ suc (i - 1) = omega (arith, b, ne) in
                  let plus : i ≡ i - 1 + 1 = omega (arith, b, ne) in
                  off i ne
                  ∙ ap (cell t.name) plus
                  ∙ room.moved j (omega (arith, b, ne)) (omega (arith, up, long, h))
                  ∙ sym (
                      ap (get_elem? (insert_at p e es)) up
                      ∙ insert_at_high p e es j (omega (arith, b, ne)) (omega (arith, up, long, h)))
            ]
          ];
        },
      )
