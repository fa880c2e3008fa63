-- ===== src/Mq/Window.antt =====
-- A ring of cells that holds a list of messages from an index on, and what writes, steps and
-- copies do to it (the arithmetic behind skynet-src/skynet_mq.c).
use native.Mathlib.Nat.{mod-eq_of_lt, mod-eq-sub-mod, mod-add-mod}
use skynet_note.Base.{
  ℕ, zero, suc, ◌+◌, ◌-◌, ◌*◌, ◌%◌, ◌≤◌, ◌<◌, ◌≡◌, ◌≢◌, ◌⊎◌, inl, inr, refl, ap, ◌∙◌, sym, Option,
  none, some, List, [], ◌∷◌, ◌++◌, arith, dec_lt, leb, if◌then◌else◌, length, get_or, get_elem?,
  set, replicate, length-append, length-replicate, length-set, get_or-set_self, get_or-set_ne,
  get_or-append_left,
}
use skynet_note.Mq.{Message, copy_cells}

-- The cells from `head` on, going round at `cap`, hold `ms`.
pub record Window (cells : List (Option Message)) (cap head : ℕ) (ms : List Message) : Type 0 where
  pub storage : length cells ≡ cap
  pub head_in : head < cap
  pub fits : length ms ≤ cap
  pub held : (i : ℕ) → i < length ms → get_or cells ((head + i) % cap) none ≡ get_elem? ms i

get_elem?-append_left {ℓ} :
    {A : Type ℓ} (xs ys : List A) (i : ℕ) → i < length xs → get_elem? (xs ++ ys) i ≡ get_elem? xs i
get_elem?-append_left [] ys i h = absurd (omega arith)
get_elem?-append_left (x ∷ xs) ys zero h = refl
get_elem?-append_left (x ∷ xs) ys (suc i) h = get_elem?-append_left xs ys i (omega arith)

get_elem?-append_last {ℓ} :
    {A : Type ℓ} (xs : List A) (x : A) → get_elem? (xs ++ (x ∷ [])) (length xs) ≡ some x
get_elem?-append_last [] x = refl
get_elem?-append_last (y ∷ xs) x = get_elem?-append_last xs x

-- An index round the ring wraps at most once.
pub ring_cases :
    (cap h i : ℕ)
    → h < cap
    → i ≤ cap
    → ((h + i < cap) × ((h + i) % cap ≡ h + i)) ⊎ ((cap ≤ h + i) × ((h + i) % cap ≡ h + i - cap))
ring_cases cap h i hh hi = elim (dec_lt (h + i) cap) [
  | yes p ↦ inl (p, mod-eq_of_lt p)
  | no p ↦ inr (
    omega arith,
    mod-eq-sub-mod {n = h + i} {m = cap} (omega arith)
        ∙ mod-eq_of_lt {n = h + i - cap} {m = cap} (omega arith),
  )
]

pub ring-lt : (cap h i : ℕ) → h < cap → i ≤ cap → (h + i) % cap < cap
ring-lt cap h i hh hi = omega (arith, ring_cases cap h i hh hi)

-- Fewer than `cap` steps round the ring do not meet.
pub ring-ne : (cap h i j : ℕ) → h < cap → i < j → j < cap → (h + j) % cap ≢ (h + i) % cap
ring-ne cap h i j hh hij hj e =
    omega (arith, ring_cases cap h i hh (omega arith), ring_cases cap h j hh (omega arith))

pub ring_next : (cap h i : ℕ) → ((h + 1) % cap + i) % cap ≡ (h + suc i) % cap
ring_next cap h i = mod-add-mod (h + 1) cap i ∙ ap (λ k. k % cap) (omega arith)

-- The index after that of `n` steps, as the code computes it.
pub ring_advance :
    (cap h n t : ℕ)
    → h < cap
    → n < cap
    → t ≡ (h + n) % cap
    → (if leb cap (t + 1) then 0 else t + 1) ≡ (h + suc n) % cap
ring_advance cap h n t hh hn e =
    ground (arith, ring_cases cap h n hh (omega arith), ring_cases cap h (suc n) hh (omega arith))

-- Coming back to the start takes all of `cap` steps.
pub ring_full : (cap h n : ℕ) → h < cap → n < cap → h ≡ (h + suc n) % cap → suc n ≡ cap
ring_full cap h n hh hn e = omega (arith, ring_cases cap h (suc n) hh (omega arith))

module _ {cells : List (Option Message)} {cap head : ℕ} where
  -- A write just past the window puts the message at its end.
  pub Window-append :
      {ms : List Message} (m : Message) (at : ℕ)
      → Window cells cap head ms
      → length ms < cap
      → at ≡ (head + length ms) % cap
      → Window (set cells at (some m)) cap head (ms ++ (m ∷ []))
  Window-append {ms} m at w room e = record {
    storage = omega (arith, length-set cells at (some m), w.storage);
    head_in = w.head_in;
    fits = omega (arith, length-append ms (m ∷ []));
    held = held';
  }
    where
      held' :
          (i : ℕ)
          → i < length (ms ++ (m ∷ []))
          → get_or (set cells at (some m)) ((head + i) % cap) none ≡ get_elem? (ms ++ (m ∷ [])) i
      held' i h = elim (dec_lt i (length ms)) [
        | yes old ↦
            get_or-set_ne cells (some m) none
              (λ q. ring-ne cap head i (length ms) w.head_in old room (sym e ∙ q))
            ∙ w.held i old
            ∙ sym (get_elem?-append_left ms (m ∷ []) i old)
        | no new ↦
            let last : i ≡ length ms = omega (arith, length-append ms (m ∷ [])) in
            rw (last, ← e, get_elem?-append_last)
              (get_or-set_self cells at (some m) none
                (omega (arith, e, w.storage, ring-lt cap head (length ms) w.head_in (omega arith))))
      ]

  -- The first message stands at the head, and the others from the next cell on.
  pub Window-tail :
      {m : Message} {ms : List Message}
      → Window cells cap head (m ∷ ms)
      → (get_or cells head none ≡ some m) × Window cells cap ((head + 1) % cap) ms
  Window-tail {m} {ms} w = (
    ap (λ k. get_or cells k none)
          (sym (omega (arith, ring_cases cap head 0 w.head_in (omega arith))))
        ∙ w.held 0 (omega arith),
    record {
      storage = w.storage;
      head_in = ring-lt cap head 1 w.head_in (omega (arith, w.fits));
      fits = omega (arith, w.fits);
      held = λ i h. rw (ring_next cap head i) (w.held (suc i) (omega arith));
    },
  )

  -- A write just before the window puts the message at its front.
  pub Window-cons :
      {ms : List Message} (m : Message) (at : ℕ)
      → Window cells cap head ms
      → length ms < cap
      → at < cap
      → (at + 1) % cap ≡ head
      → Window (set cells at (some m)) cap at (m ∷ ms)
  Window-cons {ms} m at w room in_range next = record {
    storage = omega (arith, length-set cells at (some m), w.storage);
    head_in = in_range;
    fits = room;
    held = held';
  }
    where
      held' :
          (i : ℕ)
          → i < length (m ∷ ms)
          → get_or (set cells at (some m)) ((at + i) % cap) none ≡ get_elem? (m ∷ ms) i
      held' zero h =
          let e : (at + 0) % cap ≡ at = omega (arith, ring_cases cap at 0 in_range (omega arith)) in
          rw e (get_or-set_self cells at (some m) none (omega (arith, w.storage)))
      held' (suc i) h =
          let e : (at + 0) % cap ≡ at = omega (arith, ring_cases cap at 0 in_range (omega arith)) in
          get_or-set_ne cells (some m) none
            (λ q. ring-ne cap at 0 (suc i) in_range (omega arith) (omega arith) (sym (e ∙ q)))
          ∙ ap (λ k. get_or cells k none) (sym (ring_next cap at i) ∙ ap (λ k. (k + i) % cap) next)
          ∙ w.held i (omega arith)

get_or-copy_cells :
    (cells : List (Option Message)) (cap head i n j : ℕ)
    → j < n
    → get_or (copy_cells cells cap head i n) j none ≡ get_or cells ((head + (i + j)) % cap) none
unfolding copy_cells
get_or-copy_cells cells cap head i zero j h = absurd (omega arith)
get_or-copy_cells cells cap head i (suc n) zero h =
    ap (λ k. get_or cells ((head + k) % cap) none) (omega arith)
get_or-copy_cells cells cap head i (suc n) (suc j) h =
    get_or-copy_cells cells cap head (i + 1) n j (omega arith)
    ∙ ap (λ k. get_or cells ((head + k) % cap) none) (omega arith)

length-copy_cells :
    (cells : List (Option Message)) (cap head i n : ℕ) → length (copy_cells cells cap head i n) ≡ n
unfolding copy_cells
length-copy_cells cells cap head i zero = refl
length-copy_cells cells cap head i (suc n) = ap suc (length-copy_cells cells cap head (i + 1) n)

-- The copy into a block of twice the size keeps the messages, now from index 0 on.
pub Window-double :
    {cells : List (Option Message)} {cap head : ℕ} {ms : List Message}
    → Window cells cap head ms
    → Window (copy_cells cells cap head 0 cap ++ replicate cap none) (cap * 2) 0 ms
Window-double {cells} {cap} {head} {ms} w = record {
  storage = omega (
    arith,
    length-append (copy_cells cells cap head 0 cap) (replicate cap none),
    length-copy_cells cells cap head 0 cap,
    length-replicate {A = Option Message} cap none,
  );
  head_in = omega (arith, w.head_in);
  fits = omega (arith, w.fits);
  held = held';
}
  where
    held' :
        (i : ℕ)
        → i < length ms
        → get_or (copy_cells cells cap head 0 cap ++ replicate cap none) ((0 + i) % (cap * 2)) none
          ≡ get_elem? ms i
    held' i h =
        let e : (0 + i) % (cap * 2) ≡ i = omega (
          arith,
          ring_cases (cap * 2) 0 i (omega (arith, w.fits)) (omega (arith, w.fits)),
          w.fits,
        ) in
        rw e (
          get_or-append_left (copy_cells cells cap head 0 cap) (replicate cap none) i none
            (omega (arith, length-copy_cells cells cap head 0 cap, w.fits))
          ∙ get_or-copy_cells cells cap head 0 cap i (omega (arith, w.fits))
          ∙ ap (λ k. get_or cells ((head + k) % cap) none) (omega arith)
          ∙ w.held i h)
