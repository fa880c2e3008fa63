-- ===== src/Handle/Rehash.antt =====
-- `expand`, the rest of the outer loop's body in `skynet_handle_register` of
-- skynet-src/skynet_handle.c: moving every context to twice as many slots.
use native.Mathlib.Nat.{mod-mod_of_dvd, mod-lt}
use skynet_note.Base.{
  ℕ, suc, ◌+◌, ◌%◌, ◌^◌, ◌<◌, ◌≡◌, ◌≢◌, ◌⊎◌, inl, inr, refl, ap, ◌∙◌, sym, subst, Option, none,
  some, List, [], ◌∷◌, arith, dec_lt, ℕ_discrete, Option-cases, length, get_or, set, replicate,
  get_or-set_self, get_or-set_ne, length-set, length-replicate, get_or-replicate, bit_and_mask,
}
use skynet_note.Base.Run.{Run, done, aborted}
use skynet_note.Handle.{hash, rehash}
use skynet_note.Handle.Slots.{two_pow-dvd, two_pow_pos}

-- The cell that a read after a write finds is the new one or an old one.
pub get_or-set-some :
    (b : List (Option ℕ)) (h i c d : ℕ)
    → h < length b
    → get_or (set b h (some c)) i none ≡ some d
    → ((h ≡ i) × (d ≡ c)) ⊎ (get_or b i none ≡ some d)
get_or-set-some b h i c d below f = elim (ℕ_discrete h i) [
  | yes p ↦
      let found : some c ≡ some d =
        sym (get_or-set_self b h (some c) none below)
        ∙ ap (λ t. get_or (set b h (some c)) t none) p
        ∙ f in
      inl (p, cc)
  | no ne ↦ inr (sym (get_or-set_ne b (some c) none ne) ∙ f)
]

-- A write to an empty cell leaves the others.
pub get_or-set_free :
    (b : List (Option ℕ)) (h i c d : ℕ)
    → get_or b h none ≡ none
    → get_or b i none ≡ some d
    → get_or (set b h (some c)) i none ≡ some d
get_or-set_free b h i c d empty f = elim (ℕ_discrete h i) [
  | yes p ↦ let clash : none ≡ some d = sym empty ∙ ap (λ t. get_or b t none) p ∙ f in cc
  | no ne ↦ get_or-set_ne b (some c) none ne ∙ f
]

module _ (handle_of : ℕ → ℕ) (k : ℕ) (old : List (Option ℕ)) where
  -- The new block once the contexts of the first `count` old slots are in it
  pub record Loaded (count : ℕ) (new_slot : List (Option ℕ)) : Type 0 where
    pub storage : length new_slot ≡ 2 ^ suc k
    pub placed : (i c : ℕ) → get_or new_slot i none ≡ some c → handle_of c % 2 ^ suc k ≡ i
    pub loaded : (i c : ℕ) → get_or new_slot i none ≡ some c → handle_of c % 2 ^ k < count
    pub origin :
        (i c : ℕ) → get_or new_slot i none ≡ some c → get_or old (handle_of c % 2 ^ k) none ≡ some c
    pub moved :
        (j c : ℕ)
        → j < count
        → get_or old j none ≡ some c
        → get_or new_slot (handle_of c % 2 ^ suc k) none ≡ some c

  pub halves : (h : ℕ) → h % 2 ^ suc k % 2 ^ k ≡ h % 2 ^ k
  halves h = mod-mod_of_dvd (2 ^ k) h (two_pow-dvd k (suc k) (omega arith))

  -- No two old slots share a new one.
  free :
      (count c : ℕ) (b : List (Option ℕ))
      → Loaded count b
      → handle_of c % 2 ^ k ≡ count
      → get_or b (handle_of c % 2 ^ suc k) none ≡ none
  free count c b l e = elim (Option-cases (get_or b (handle_of c % 2 ^ suc k) none)) [
    | inl empty ↦ empty
    | inr (d, full) ↦
        let same : handle_of d % 2 ^ k ≡ handle_of c % 2 ^ k =
          sym (halves (handle_of d))
          ∙ ap (λ t. t % 2 ^ k) (l.placed (handle_of c % 2 ^ suc k) d full)
          ∙ halves (handle_of c) in
        absurd (omega (arith, l.loaded (handle_of c % 2 ^ suc k) d full, same, e))
  ]

  load :
      (count c : ℕ) (b : List (Option ℕ))
      → Loaded count b
      → handle_of c % 2 ^ k ≡ count
      → get_or old count none ≡ some c
      → Loaded (count + 1) (set b (handle_of c % 2 ^ suc k) (some c))
  load count c b l e here =
      let h : ℕ = handle_of c % 2 ^ suc k in
      let room : h < length b =
        omega (arith, l.storage, mod-lt (handle_of c) (two_pow_pos (suc k))) in
      record {
        storage = length-set b h (some c) ∙ l.storage;
        placed = λ i d f. elim (get_or-set-some b h i c d room f) [
          | inl (p, q) ↦ ap (λ t. handle_of t % 2 ^ suc k) q ∙ p
          | inr f' ↦ l.placed i d f'
        ];
        loaded = λ i d f. elim (get_or-set-some b h i c d room f) [
          | inl (p, q) ↦ omega (arith, ap (λ t. handle_of t % 2 ^ k) q, e)
          | inr f' ↦ omega (arith, l.loaded i d f')
        ];
        origin = λ i d f. elim (get_or-set-some b h i c d room f) [
          | inl (p, q) ↦
              ap (λ t. get_or old (handle_of t % 2 ^ k) none) q
              ∙ ap (λ t. get_or old t none) e
              ∙ here
              ∙ ap some (sym q)
          | inr f' ↦ l.origin i d f'
        ];
        moved = λ j d below f. elim (dec_lt j count) [
          | yes before ↦
              get_or-set_free b h (handle_of d % 2 ^ suc k) c d (free count c b l e)
                (l.moved j d before f)
          | no last ↦
              let j_is : j ≡ count = omega arith in
              let found : some d ≡ some c = sym f ∙ ap (λ t. get_or old t none) j_is ∙ here in
              let same : c ≡ d = cc in
              subst (λ t. get_or (set b h (some c)) (handle_of t % 2 ^ suc k) none ≡ some t) same
                (get_or-set_self b h (some c) none room)
        ];
      }

  rehash-empty :
      (cells b : List (Option ℕ)) (c : ℕ)
      → get_or b (hash (2 ^ suc k) (handle_of c)) none ≡ none
      → rehash handle_of (2 ^ suc k) (some c ∷ cells) b
        ≡ rehash handle_of (2 ^ suc k) cells (set b (hash (2 ^ suc k) (handle_of c)) (some c))
  unfolding rehash
  rehash-empty cells b c empty =
      ap
        (λ (o : Option ℕ). elim o as (λ o. Run (List (Option ℕ))) [
          | none ↦
              rehash handle_of (2 ^ suc k) cells (set b (hash (2 ^ suc k) (handle_of c)) (some c))
          | some other ↦ aborted
        ])
        empty

  -- When no old slot is empty and each context stands in the slot of its handle, the loop comes to
  -- its end, and every context is in the new block.
  pub rehash_lem :
      (cells : List (Option ℕ)) (count : ℕ) (b : List (Option ℕ))
      → ((j : ℕ) → j < 2 ^ k → get_or old j none ≢ none)
      → ((j c : ℕ) → get_or old j none ≡ some c → handle_of c % 2 ^ k ≡ j)
      → ((j : ℕ) → get_or cells j none ≡ get_or old (j + count) none)
      → length cells + count ≡ 2 ^ k
      → Loaded count b
      → (b' : List (Option ℕ)) × (rehash handle_of (2 ^ suc k) cells b ≡ done b')
        × Loaded (2 ^ k) b'
  unfolding rehash
  rehash_lem [] count b full placed tail total l =
      let all : count ≡ 2 ^ k = omega arith in (b, refl, subst (λ n. Loaded n b) all l)
  rehash_lem (none ∷ cells) count b full placed tail total l =
      let start : count ≡ 0 + count = omega arith in
      absurd (full count (omega arith) (ap (λ t. get_or old t none) start ∙ sym (tail 0)))
  rehash_lem (some c ∷ cells) count b full placed tail total l =
      let start : count ≡ 0 + count = omega arith in
      let here : get_or old count none ≡ some c =
        ap (λ t. get_or old t none) start ∙ sym (tail 0) in
      let e : handle_of c % 2 ^ k ≡ count = placed count c here in
      let h_is : hash (2 ^ suc k) (handle_of c) ≡ handle_of c % 2 ^ suc k =
        bit_and_mask (suc k) (handle_of c) in
      let empty : get_or b (hash (2 ^ suc k) (handle_of c)) none ≡ none =
        ap (λ t. get_or b t none) h_is ∙ free count c b l e in
      let l' : Loaded (count + 1) (set b (hash (2 ^ suc k) (handle_of c)) (some c)) =
        subst (λ t. Loaded (count + 1) (set b t (some c))) (sym h_is) (load count c b l e here) in
      let next : (j : ℕ) → get_or cells j none ≡ get_or old (j + (count + 1)) none = λ j.
        let shift : suc j + count ≡ j + (count + 1) = omega arith in
        tail (suc j) ∙ ap (λ t. get_or old t none) shift in
      let (b', run, l'') =
        rehash_lem cells (count + 1) (set b (hash (2 ^ suc k) (handle_of c)) (some c)) full placed
          next (omega arith) l' in
      (b', rehash-empty cells b c empty ∙ run, l'')

  pub empty_block-Loaded : Loaded 0 (replicate (2 ^ suc k) none)
  empty_block-Loaded = record {
    storage = length-replicate (2 ^ suc k) none;
    placed = λ i c f. absurd (nothing i c f);
    loaded = λ i c f. absurd (nothing i c f);
    origin = λ i c f. absurd (nothing i c f);
    moved = λ j c below f. absurd (omega (arith, below));
  }
    where
      nothing : (i c : ℕ) → get_or (replicate (2 ^ suc k) none) i none ≢ some c
      nothing i c f =
          let clash : none ≡ some c = sym (get_or-replicate (2 ^ suc k) i none) ∙ f in cc
