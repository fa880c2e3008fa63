-- ===== src/Handle/Lookup.antt =====
-- What `skynet_handle_grab` and `skynet_handle_retire` of skynet-src/skynet_handle.c make of the
-- slot of a handle.
use skynet_note.Base.{ℕ, ◌≡◌, ◌≢◌, refl, ap, sym, Option, none, some, arith, ◌==◌, if◌then◌else◌}
use skynet_note.Handle.{named, update}

pub update_self : (f : ℕ → ℕ) (i a : ℕ) → update f i a i ≡ a
update_self f i a = ground arith

pub update_ne : (f : ℕ → ℕ) (i a j : ℕ) → i ≢ j → update f i a j ≡ f j
update_ne f i a j ne = ground (arith, ne)

pub named_self : (f : ℕ → ℕ) (h c : ℕ) → f c ≡ h → named f h (some c) ≡ some c
unfolding named
named_self f h c e = ground (arith, e)

pub named_ne : (f : ℕ → ℕ) (h c : ℕ) → f c ≢ h → named f h (some c) ≡ none
unfolding named
named_ne f h c e = ground (arith, e)

pub named-update :
    (f : ℕ → ℕ) (ctx a h : ℕ) (cell : Option ℕ)
    → cell ≢ some ctx
    → named (update f ctx a) h cell ≡ named f h cell
unfolding named
named-update f ctx a h none ne = refl
named-update f ctx a h (some c) ne =
    let other : update f ctx a c ≡ f c = update_ne f ctx a c (λ e. ne (ap some (sym e))) in
    ap (λ t. if t == h then some c else none) other

pub named-none : (f : ℕ → ℕ) (h : ℕ) → named f h none ≡ none
unfolding named
named-none f h = refl
