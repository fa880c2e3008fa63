-- ===== src/Handle/Retire.antt =====
-- `skynet_handle_retire` of skynet-src/skynet_handle.c, the part about slots.
use skynet_note.Base.{
  ℕ, zero, suc, ◌*◌, ◌^◌, ◌<◌, ◌≡◌, ◌≢◌, inl, inr, refl, ap, ◌∙◌, sym, subst, Option, none, some,
  List, [], ◌∷◌, ℕ_discrete, Option-cases, get_or, set, get_or-set_ne,
}
use skynet_note.Handle.{named, Storage, Registered, hash, lookup, retire_slot, register}
use skynet_note.Handle.Lookup.{named_self, named_ne, named-none}
use skynet_note.Handle.Register.{Fresh, register_lem}
use skynet_note.Base.Run.{done}
use skynet_note.Handle.Slots.{Valid}

-- What a retired handle named is what the lookup shows, and only that handle loses its context.
pub record Retires (handle_of : ℕ → ℕ) (s : Storage) (h : ℕ) (r : Option ℕ × Storage) : Type 0 where
  pub found : r.0 ≡ lookup handle_of s h
  pub gone : lookup handle_of r.1 h ≡ none
  pub others : (g : ℕ) → g ≢ h → lookup handle_of r.1 g ≡ lookup handle_of s g

pub set-empty : (b : List (Option ℕ)) (i : ℕ) → get_or (set b i none) i none ≡ none
set-empty [] i = refl
set-empty (x ∷ b) zero = refl
set-empty (x ∷ b) (suc i) = set-empty b i

named-some :
    (f : ℕ → ℕ) (h c : ℕ) (cell : Option ℕ) → named f h cell ≡ some c → (cell ≡ some c) × (f c ≡ h)
unfolding named
named-some f h c none e = let clash : none ≡ some c = e in absurd cc
named-some f h c (some d) e = elim (ℕ_discrete (f d) h) [
  | yes mine ↦
      let same : d ≡ c = (let found : some d ≡ some c = sym (named_self f h d mine) ∙ e in cc) in
      (ap some same, ap f (sym same) ∙ mine)
  | no other ↦ (let clash : none ≡ some c = sym (named_ne f h d other) ∙ e in absurd cc)
]

retire-none :
    (handle_of : ℕ → ℕ) (s : Storage) (h : ℕ)
    → lookup handle_of s h ≡ none
    → retire_slot handle_of s h ≡ (none, s)
unfolding retire_slot
retire-none handle_of s h e =
    ap
      (λ (o : Option ℕ). elim o as (λ o. Option ℕ × Storage) [
        | none ↦ (none, s)
        | some ctx ↦ (some ctx, record s { slot = set s.slot (hash s.slot_size h) none })
      ])
      e

pub retire-some :
    (handle_of : ℕ → ℕ) (s : Storage) (h c : ℕ)
    → lookup handle_of s h ≡ some c
    → retire_slot handle_of s h ≡ (some c, record s { slot = set s.slot (hash s.slot_size h) none })
unfolding retire_slot
retire-some handle_of s h c e =
    ap
      (λ (o : Option ℕ). elim o as (λ o. Option ℕ × Storage) [
        | none ↦ (none, s)
        | some ctx ↦ (some ctx, record s { slot = set s.slot (hash s.slot_size h) none })
      ])
      e

cleared-Retires :
    (handle_of : ℕ → ℕ) (s : Storage) (h c : ℕ)
    → lookup handle_of s h ≡ some c
    → Retires handle_of s h (some c, record s { slot = set s.slot (hash s.slot_size h) none })
unfolding lookup
cleared-Retires handle_of s h c e =
    let (cell, mine) = named-some handle_of h c (get_or s.slot (hash s.slot_size h) none) e in
    record {
      found = sym e;
      gone =
          ap (named handle_of h) (set-empty s.slot (hash s.slot_size h)) ∙ named-none handle_of h;
      others = λ g ne. elim (ℕ_discrete (hash s.slot_size h) (hash s.slot_size g)) [
        | yes p ↦
            ap (named handle_of g) (
              ap (λ t. get_or (set s.slot (hash s.slot_size h) none) t none) (sym p)
              ∙ set-empty s.slot (hash s.slot_size h))
            ∙ named-none handle_of g
            ∙ sym (
                ap (named handle_of g) (ap (λ t. get_or s.slot t none) (sym p) ∙ cell)
                ∙ named_ne handle_of g c (λ q. ne (sym q ∙ mine)))
        | no off ↦ ap (named handle_of g) (get_or-set_ne s.slot none none off)
      ];
    }

-- On each branch: retiring a handle gives the context that it names, if there is one, the handle
-- names nothing afterwards, and every other handle names what it did.
pub retire_slot_lem :
    (handle_of : ℕ → ℕ) (s : Storage) (h : ℕ) → Retires handle_of s h (retire_slot handle_of s h)
retire_slot_lem handle_of s h = elim (Option-cases (lookup handle_of s h)) [
  | inl e ↦
      subst (Retires handle_of s h) (sym (retire-none handle_of s h e))
        (record { found = sym e; gone = e; others = λ g ne. refl })
  | inr (c, e) ↦
      subst (Retires handle_of s h) (sym (retire-some handle_of s h c e))
        (cleared-Retires handle_of s h c e)
]

-- A registration below 2 ^ 24 slots ends, and retiring its handle gives the context back and
-- restores what every handle names.
pub retire_slot-register :
    (fuel : ℕ) (handle_of : ℕ → ℕ) (s : Storage) (ctx k a : ℕ)
    → Valid handle_of s k
    → s.harbor ≡ a * 2 ^ 24
    → Fresh s ctx
    → k < 24
    → (r : Registered) × (register (suc (suc fuel)) handle_of s ctx ≡ done r)
      × ((retire_slot r.handle_of r.storage r.handle).0 ≡ some ctx)
      × ((h : ℕ)
          → lookup r.handle_of ((retire_slot r.handle_of r.storage r.handle).1) h
            ≡ lookup handle_of s h)
retire_slot-register fuel handle_of s ctx k a v harbor fresh small =
    let (r, run, g, valid) = register_lem fuel handle_of s ctx k a v harbor fresh small in
    let t = retire_slot_lem r.handle_of r.storage r.handle in
    (
      r,
      run,
      t.found ∙ g.found,
      λ h. elim (ℕ_discrete h r.handle) [
        | yes p ↦
            ap (lookup r.handle_of ((retire_slot r.handle_of r.storage r.handle).1)) p
            ∙ t.gone
            ∙ sym (ap (lookup handle_of s) p ∙ g.free)
        | no ne ↦ t.others h ne ∙ g.others h ne
      ],
    )
