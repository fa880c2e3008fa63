-- ===== src/Handle/Expand.antt =====
-- Twice as many slots in `skynet_handle_register` of skynet-src/skynet_handle.c: what it keeps.
use native.Mathlib.Nat.{mod-lt, mod_self, pow-le-pow_right, mod-eq_of_lt, pow-suc}
use skynet_note.Base.{
  ℕ, suc, ◌+◌, ◌-◌, ◌*◌, ◌%◌, ◌^◌, ◌≤◌, ◌<◌, ◌≡◌, ◌≢◌, inl, inr, refl, ap, ◌∙◌, sym, subst, Option,
  none, some, List, arith, ℕ_discrete, Option-cases, get_or, replicate, bit_and, bit_and_mask, true,
  leb,
}
use skynet_note.Base.Run.{done}
use skynet_note.Handle.{named, Storage, hash, expand, lookup, rehash, handle_mask}
use skynet_note.Handle.Slots.{Valid, hash_lem, two_pow_pos}
use skynet_note.Handle.Rehash.{halves, Loaded, rehash_lem, empty_block-Loaded}
use skynet_note.Handle.Lookup.{named_ne, named-none}

-- What twice as many slots keep, and that one of them is empty
pub record Expands (handle_of : ℕ → ℕ) (k : ℕ) (s s' : Storage) : Type 0 where
  pub valid : Valid handle_of s' (suc k)
  pub harbor : s'.harbor ≡ s.harbor
  pub lookups : (h : ℕ) → lookup handle_of s' h ≡ lookup handle_of s h
  pub room : (i : ℕ) × (i < 2 ^ suc k) × (get_or s'.slot i none ≡ none)
  pub from_old :
      (i c : ℕ) → get_or s'.slot i none ≡ some c → (j : ℕ) × (get_or s.slot j none ≡ some c)

module _ (handle_of : ℕ → ℕ) (k : ℕ) (old b : List (Option ℕ))
    (l : Loaded handle_of k old (2 ^ k) b) where
  -- Slot 0 and the first new slot would share the context of the old slot 0.
  room_left : (i : ℕ) × (i < 2 ^ suc k) × (get_or b i none ≡ none)
  room_left = elim (Option-cases (get_or b 0 none)) [
    | inl empty ↦ (0, two_pow_pos (suc k), empty)
    | inr (c, full) ↦ elim (Option-cases (get_or b (2 ^ k) none)) [
      | inl empty ↦ (2 ^ k, omega (arith, pow-suc 2 k, two_pow_pos k), empty)
      | inr (d, full') ↦
          let c_low : handle_of c % 2 ^ k ≡ 0 =
            sym (halves handle_of k old (handle_of c))
            ∙ ap (λ t. t % 2 ^ k) (l.placed 0 c full)
            ∙ mod-eq_of_lt (two_pow_pos k) in
          let d_low : handle_of d % 2 ^ k ≡ 0 =
            sym (halves handle_of k old (handle_of d))
            ∙ ap (λ t. t % 2 ^ k) (l.placed (2 ^ k) d full')
            ∙ mod_self (2 ^ k) in
          let both : some c ≡ some d =
            sym (l.origin 0 c full)
            ∙ ap (λ t. get_or old t none) (c_low ∙ sym d_low)
            ∙ l.origin (2 ^ k) d full' in
          let same : c ≡ d = cc in
          let apart : 0 ≡ 2 ^ k =
            sym (l.placed 0 c full)
            ∙ ap (λ t. handle_of t % 2 ^ suc k) same
            ∙ l.placed (2 ^ k) d full' in
          absurd (omega (arith, apart, two_pow_pos k))
    ]
  ]

  -- Every handle finds in the new block what it found in the old one.
  named_kept :
      (h : ℕ)
      → get_or old (h % 2 ^ k) none ≢ none
      → named handle_of h (get_or b (h % 2 ^ suc k) none)
        ≡ named handle_of h (get_or old (h % 2 ^ k) none)
  named_kept h full = elim (Option-cases (get_or old (h % 2 ^ k) none)) [
    | inl empty ↦ absurd (full empty)
    | inr (c, there) ↦ elim (ℕ_discrete (handle_of c) h) [
      | yes mine ↦ ap (named handle_of h) (
          ap (λ t. get_or b (t % 2 ^ suc k) none) (sym mine)
          ∙ l.moved (h % 2 ^ k) c (mod-lt h (two_pow_pos k)) there
          ∙ sym there)
      | no other ↦ elim (Option-cases (get_or b (h % 2 ^ suc k) none)) [
        | inl empty ↦
            ap (named handle_of h) empty
            ∙ named-none handle_of h
            ∙ sym (ap (named handle_of h) there ∙ named_ne handle_of h c other)
        | inr (d, here) ↦
            let not_mine : handle_of d ≢ h = λ mine.
              let both : some d ≡ some c =
                sym (l.origin (h % 2 ^ suc k) d here)
                ∙ ap (λ t. get_or old (t % 2 ^ k) none) mine
                ∙ there in
              let same : d ≡ c = cc in other (ap handle_of (sym same) ∙ mine) in
            ap (named handle_of h) here
            ∙ named_ne handle_of h d not_mine
            ∙ sym (ap (named handle_of h) there ∙ named_ne handle_of h c other)
      ]
    ]
  ]

expand-done :
    (handle_of : ℕ → ℕ) (s : Storage) (b : List (Option ℕ))
    → s.slot_size * 2 ≤ 2 ^ 24
    → rehash handle_of (s.slot_size * 2) s.slot (replicate (s.slot_size * 2) none) ≡ done b
    → expand handle_of s ≡ done (record s { slot = b; slot_size = s.slot_size * 2 })
unfolding expand
expand-done handle_of s b fits run =
    let test : leb (s.slot_size * 2 - 1) handle_mask ≡ true = ground (arith, fits) in
    simp (test, run) refl

-- When every slot holds a context and there are at most 2 ^ 23 of them, the slots are doubled, and
-- nothing that a lookup shows changes.
pub expand_lem :
    (handle_of : ℕ → ℕ) (s : Storage) (k : ℕ)
    → Valid handle_of s k
    → k < 24
    → ((i : ℕ) → i < 2 ^ k → get_or s.slot i none ≢ none)
    → (s' : Storage) × (expand handle_of s ≡ done s') × Expands handle_of k s s'
unfolding expand lookup
expand_lem handle_of s k v small full =
    let size : s.slot_size * 2 ≡ 2 ^ suc k = omega (arith, v.size, pow-suc 2 k) in
    let (b, run, l) =
      rehash_lem handle_of k s.slot s.slot 0 (replicate (2 ^ suc k) none) full v.placed
        (λ j. let start : j ≡ j + 0 = omega arith in ap (λ t. get_or s.slot t none) start)
        (omega (arith, v.storage)) (empty_block-Loaded handle_of k s.slot) in
    (
      record s { slot = b; slot_size = s.slot_size * 2 },
      expand-done handle_of s b (omega (arith, size, pow-le-pow_right {n = 2} (omega arith) small))
          (subst (λ t. rehash handle_of t s.slot (replicate t none) ≡ done b) (sym size) run),
      record {
        valid = record { size = size; bits = small; storage = l.storage; placed = l.placed };
        harbor = refl;
        lookups = λ h.
            let new_cell : get_or b (hash (s.slot_size * 2) h) none
                ≡ get_or b (h % 2 ^ suc k) none =
              ap (λ t. get_or b t none)
                (ap (λ n. bit_and h (n - 1)) size ∙ bit_and_mask (suc k) h) in
            let old_cell : get_or s.slot (hash s.slot_size h) none
                ≡ get_or s.slot (h % 2 ^ k) none =
              ap (λ t. get_or s.slot t none) (hash_lem s k h v.size) in
            ap (named handle_of h) new_cell
            ∙ named_kept handle_of k s.slot b l h (full (h % 2 ^ k) (mod-lt h (two_pow_pos k)))
            ∙ sym (ap (named handle_of h) old_cell);
        room = room_left handle_of k s.slot b l;
        from_old = λ i c f. (handle_of c % 2 ^ k, l.origin i c f);
      },
    )
