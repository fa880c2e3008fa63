-- ===== src/Handle/Register.antt =====
-- `skynet_handle_register` of skynet-src/skynet_handle.c as a whole: the handle it gives.
use native.Mathlib.Nat.{mod-mod_of_dvd, mod-lt, add-mul-mod_self_right}
use skynet_note.Base.{
  ℕ, suc, ◌+◌, ◌-◌, ◌*◌, ◌/◌, ◌%◌, ◌^◌, ◌≤◌, ◌<◌, ◌≡◌, ◌≢◌, ◌⊎◌, inl, inr, refl, ap, ◌∙◌, sym,
  subst, Option, none, some, List, arith, ℕ_discrete, Option-cases, length, get_or, set,
  get_or-set_self, get_or-set_ne, length-set, bit_or, or_apart, false, leb,
}
use skynet_note.Base.Run.{Run, done, aborted, ◌>>=◌}
use skynet_note.Handle.{
  named, Storage, Registered, hash, scan, expand, occupy, register, lookup, update, handle_mask,
}
use skynet_note.Handle.Slots.{Valid, hash_lem, two_pow-dvd, two_pow_pos, scan-some, scan-full}
use skynet_note.Handle.Rehash.{get_or-set-some}
use skynet_note.Handle.Lookup.{update_self, update_ne, named_self, named_ne, named-update}
use skynet_note.Handle.Expand.{Expands, expand_lem}

-- No slot holds the context.
unfoldable pub Fresh : Storage → ℕ → Type 0
Fresh s ctx = (i : ℕ) → get_or s.slot i none ≢ some ctx

-- What a registration promises: the handle was free, names the context now, and every other handle
-- names what it did. The handle carries the harbor of the storage.
pub record Registers (handle_of : ℕ → ℕ) (s : Storage) (ctx : ℕ) (r : Registered) : Type 0 where
  pub free : lookup handle_of s r.handle ≡ none
  pub found : lookup r.handle_of r.storage r.handle ≡ some ctx
  pub others : (h : ℕ) → h ≢ r.handle → lookup r.handle_of r.storage h ≡ lookup handle_of s h
  pub carries : r.handle / 2 ^ 24 * 2 ^ 24 ≡ s.harbor

-- The harbor's bits lie above the slot numbers.
low_bits : (k a h : ℕ) → k ≤ 24 → h < 2 ^ 24 → bit_or h (a * 2 ^ 24) % 2 ^ k ≡ h % 2 ^ k
low_bits k a h le below =
    let e : bit_or h (a * 2 ^ 24) ≡ h + a * 2 ^ 24 = omega (arith, or_apart 24 a h below) in
    ap (λ t. t % 2 ^ k) e
    ∙ sym (mod-mod_of_dvd (2 ^ k) (h + a * 2 ^ 24) (two_pow-dvd k 24 le))
    ∙ ap (λ t. t % 2 ^ k) (add-mul-mod_self_right h a (2 ^ 24))
    ∙ mod-mod_of_dvd (2 ^ k) h (two_pow-dvd k 24 le)

-- A context put in an empty slot under the handle of that slot
module _ (handle_of : ℕ → ℕ) (s : Storage) (ctx k a h : ℕ) (v : Valid handle_of s k)
    (harbor : s.harbor ≡ a * 2 ^ 24) (fresh : Fresh s ctx) (below : h < 2 ^ 24) where
  low : bit_or h s.harbor % 2 ^ k ≡ h % 2 ^ k
  low = subst (λ t. bit_or h t % 2 ^ k ≡ h % 2 ^ k) (sym harbor) (low_bits k a h v.bits below)

  room : hash s.slot_size h < length s.slot
  room = omega (arith, hash_lem s k h v.size, v.storage, mod-lt h (two_pow_pos k))

  same_slot : hash s.slot_size (bit_or h s.harbor) ≡ hash s.slot_size h
  same_slot = hash_lem s k (bit_or h s.harbor) v.size ∙ low ∙ sym (hash_lem s k h v.size)

  stored : get_or (set s.slot (hash s.slot_size h) (some ctx)) (hash s.slot_size h) none ≡ some ctx
  stored = get_or-set_self s.slot (hash s.slot_size h) (some ctx) none room

  high : bit_or h s.harbor / 2 ^ 24 * 2 ^ 24 ≡ s.harbor
  high = rw harbor (omega (arith, or_apart 24 a h below))

  occupy-Registers :
      get_or s.slot (hash s.slot_size h) none ≡ none
      → Registers handle_of s ctx (occupy handle_of s ctx h)
  unfolding lookup occupy Fresh
  occupy-Registers empty =
      let full : ℕ = bit_or h s.harbor in
      let new_slot : List (Option ℕ) = set s.slot (hash s.slot_size h) (some ctx) in
      let after : ℕ → ℕ = update handle_of ctx full in
      record {
        free = ap (named handle_of full) (ap (λ t. get_or s.slot t none) same_slot ∙ empty);
        found =
            ap (named after full) (ap (λ t. get_or new_slot t none) same_slot ∙ stored)
            ∙ named_self after full ctx (update_self handle_of ctx full);
        others = λ g ne. elim (ℕ_discrete (hash s.slot_size h) (hash s.slot_size g)) [
          | yes p ↦
              ap (named after g) (ap (λ t. get_or new_slot t none) (sym p) ∙ stored)
              ∙ named_ne after g ctx (λ e. ne (sym e ∙ update_self handle_of ctx full))
              ∙ sym (ap (named handle_of g) (ap (λ t. get_or s.slot t none) (sym p) ∙ empty))
          | no off ↦
              ap (named after g) (get_or-set_ne s.slot (some ctx) none off)
              ∙ named-update handle_of ctx full g (get_or s.slot (hash s.slot_size g) none)
                  (fresh (hash s.slot_size g))
        ];
        carries = high;
      }

  occupy-Valid : Valid (occupy handle_of s ctx h).handle_of (occupy handle_of s ctx h).storage k
  unfolding occupy Fresh
  occupy-Valid =
      let full : ℕ = bit_or h s.harbor in
      record {
        size = v.size;
        bits = v.bits;
        storage = length-set s.slot (hash s.slot_size h) (some ctx) ∙ v.storage;
        placed = λ i c f. elim (get_or-set-some s.slot (hash s.slot_size h) i ctx c room f) [
          | inl (p, q) ↦
              ap (λ t. update handle_of ctx full t % 2 ^ k) q
              ∙ ap (λ t. t % 2 ^ k) (update_self handle_of ctx full)
              ∙ low
              ∙ sym (hash_lem s k h v.size)
              ∙ p
          | inr f' ↦
              ap (λ t. t % 2 ^ k)
                (update_ne handle_of ctx full c (λ e. fresh i (f' ∙ ap some (sym e))))
              ∙ v.placed i c f'
        ];
      }

pub register-scan :
    (fuel : ℕ) (handle_of : ℕ → ℕ) (s : Storage) (ctx h : ℕ)
    → scan s.slot_size 0 s ≡ some h
    → register (suc fuel) handle_of s ctx ≡ done (occupy handle_of s ctx h)
unfolding register
register-scan fuel handle_of s ctx h e =
    ap
      (λ (o : Option ℕ). elim o as (λ o. Run Registered) [
        | some handle ↦ done (occupy handle_of s ctx handle)
        | none ↦ expand handle_of s >>= λ s''. register fuel handle_of s'' ctx
      ])
      e

register-expand :
    (fuel : ℕ) (handle_of : ℕ → ℕ) (s : Storage) (r : Run Storage) (ctx : ℕ)
    → scan s.slot_size 0 s ≡ none
    → expand handle_of s ≡ r
    → register (suc fuel) handle_of s ctx ≡ (r >>= λ s'. register fuel handle_of s' ctx)
unfolding register
register-expand fuel handle_of s r ctx e e' =
    ap
      (λ (o : Option ℕ). elim o as (λ o. Run Registered) [
        | some handle ↦ done (occupy handle_of s ctx handle)
        | none ↦ expand handle_of s >>= λ s''. register fuel handle_of s'' ctx
      ])
      e
    ∙ ap (λ r. r >>= λ s''. register fuel handle_of s'' ctx) e'

Expands-Fresh :
    (handle_of : ℕ → ℕ) (s s' : Storage) (ctx k : ℕ)
    → Expands handle_of k s s'
    → Fresh s ctx
    → Fresh s' ctx
unfolding Fresh
Expands-Fresh handle_of s s' ctx k x fresh i f = let (j, f') = x.from_old i ctx f in fresh j f'

Expands-Registers :
    (handle_of : ℕ → ℕ) (s s' : Storage) (ctx k : ℕ)
    → Expands handle_of k s s'
    → (r : Registered) → Registers handle_of s' ctx r
    → Registers handle_of s ctx r
Expands-Registers handle_of s s' ctx k x r g = record {
  free = sym (x.lookups r.handle) ∙ g.free;
  found = g.found;
  others = λ h ne. g.others h ne ∙ x.lookups h;
  carries = g.carries ∙ x.harbor;
}

-- With an empty slot one round of the outer loop is enough.
pub register_room :
    (fuel : ℕ) (handle_of : ℕ → ℕ) (s : Storage) (ctx k a : ℕ)
    → Valid handle_of s k
    → s.harbor ≡ a * 2 ^ 24
    → Fresh s ctx
    → (i : ℕ) × (i < 2 ^ k) × (get_or s.slot i none ≡ none)
    → (r : Registered) × (register (suc fuel) handle_of s ctx ≡ done r)
      × Registers handle_of s ctx r
      × Valid r.handle_of r.storage k
register_room fuel handle_of s ctx k a v harbor fresh (i, below, empty) =
    elim (Option-cases (scan s.slot_size 0 s)) [
      | inl nothing ↦ absurd (scan-full handle_of s k i v nothing below empty)
      | inr (h, e) ↦
          let (free, low) = scan-some s.slot_size 0 s h e in
          (
            occupy handle_of s ctx h,
            register-scan fuel handle_of s ctx h e,
            occupy-Registers handle_of s ctx k a h v harbor fresh low free,
            occupy-Valid handle_of s ctx k a h v harbor fresh low,
          )
    ]

-- Below 2 ^ 24 slots a registration ends, with one doubling of the slots at most: its handle named
-- nothing before and names the context after, it carries the harbor, every other handle names what
-- it did, and the storage is well formed with as many slots or twice as many.
pub register_lem :
    (fuel : ℕ) (handle_of : ℕ → ℕ) (s : Storage) (ctx k a : ℕ)
    → Valid handle_of s k
    → s.harbor ≡ a * 2 ^ 24
    → Fresh s ctx
    → k < 24
    → (r : Registered) × (register (suc (suc fuel)) handle_of s ctx ≡ done r)
      × Registers handle_of s ctx r
      × (Valid r.handle_of r.storage k ⊎ Valid r.handle_of r.storage (suc k))
register_lem fuel handle_of s ctx k a v harbor fresh small =
    elim (Option-cases (scan s.slot_size 0 s)) [
      | inr (h, e) ↦
          let (free, low) = scan-some s.slot_size 0 s h e in
          (
            occupy handle_of s ctx h,
            register-scan (suc fuel) handle_of s ctx h e,
            occupy-Registers handle_of s ctx k a h v harbor fresh low free,
            inl (occupy-Valid handle_of s ctx k a h v harbor fresh low),
          )
      | inl nothing ↦
          let (s', grown, x) =
            expand_lem handle_of s k v small (λ i. scan-full handle_of s k i v nothing) in
          let (r, run, registers, valid) =
            register_room fuel handle_of s' ctx (suc k) a x.valid (x.harbor ∙ harbor)
              (Expands-Fresh handle_of s s' ctx k x fresh) x.room in
          (
            r,
            register-expand (suc fuel) handle_of s (done s') ctx nothing grown ∙ run,
            Expands-Registers handle_of s s' ctx k x r registers,
            inr valid,
          )
    ]

-- With 2 ^ 24 slots and no empty one, the assertion fails.
pub register-full :
    (fuel : ℕ) (handle_of : ℕ → ℕ) (s : Storage) (ctx : ℕ)
    → Valid handle_of s 24
    → ((i : ℕ) → i < 2 ^ 24 → get_or s.slot i none ≢ none)
    → register (suc fuel) handle_of s ctx ≡ aborted
unfolding expand
register-full fuel handle_of s ctx v full = elim (Option-cases (scan s.slot_size 0 s)) [
  | inr (h, e) ↦
      let (free, low) = scan-some s.slot_size 0 s h e in
      absurd (
        full (hash s.slot_size h) (omega (arith, hash_lem s 24 h v.size, mod-lt h (two_pow_pos 24)))
          free)
  | inl nothing ↦
      let test : leb (s.slot_size * 2 - 1) handle_mask ≡ false = ground (arith, v.size) in
      let refused : expand handle_of s ≡ aborted = simp test refl in
      register-expand fuel handle_of s aborted ctx nothing refused
]
