-- ===== src/Handle/Init.antt =====
-- `skynet_handle_init` of skynet-src/skynet_handle.c, and where its counter of handles leads.
use native.Mathlib.Nat.{zero-mod}
use skynet_note.Base.{
  ℕ, zero, suc, ◌+◌, ◌*◌, ◌%◌, ◌^◌, ◌<◌, ◌≡◌, refl, ap, ◌∙◌, sym, none, some, arith, get_or,
  bit_and_mask, bit_and, get_or-replicate,
}
use skynet_note.Base.Run.{done}
use skynet_note.Handle.{
  Storage, handle_init, hash, lookup, named, register, occupy, scan, candidate, word32, handle_mask,
}
use skynet_note.Handle.Lookup.{named-none}
use skynet_note.Handle.Slots.{Valid, hash_lem, two_pow_pos}
use skynet_note.Handle.Register.{register-scan}

-- The storage starts well formed, with the low eight bits of the harbor above 24 bits, and no
-- handle names a context.
pub handle_init_lem :
    (handle_of : ℕ → ℕ) (harbor : ℕ)
    → Valid handle_of (handle_init harbor) 2
      × ((handle_init harbor).harbor ≡ harbor % 2 ^ 8 * 2 ^ 24)
      × ((h : ℕ) → lookup handle_of (handle_init harbor) h ≡ none)
unfolding handle_init lookup
handle_init_lem handle_of harbor = (
  record {
    size = refl;
    bits = omega arith;
    storage = refl;
    placed =
        λ i c f. absurd (let clash : none ≡ some c = sym (get_or-replicate 4 i none) ∙ f in cc);
  },
  omega (arith, bit_and_mask 8 harbor),
  λ h. ap (named handle_of h) (get_or-replicate 4 (hash 4 h) none) ∙ named-none handle_of h,
)

scan-first :
    (n i : ℕ) (s : Storage)
    → 0 < n
    → get_or s.slot (hash s.slot_size (candidate s i)) none ≡ none
    → scan n i s ≡ some (candidate s i)
unfolding scan
scan-first zero i s pos empty = absurd (omega arith)
scan-first (suc n) i s pos empty = ground (arith, empty)

-- The registration after the one of handle 0xffffff takes slot 0 when it is empty: the low 24 bits
-- of the handle that it gives are 0.
pub register_wraps :
    (fuel : ℕ) (handle_of : ℕ → ℕ) (s : Storage) (ctx k : ℕ)
    → Valid handle_of s k
    → s.handle_index ≡ 2 ^ 24
    → get_or s.slot 0 none ≡ none
    → register (suc fuel) handle_of s ctx ≡ done (occupy handle_of s ctx 0)
register_wraps fuel handle_of s ctx k v index empty =
    let start : 0 + s.handle_index ≡ 2 ^ 24 = omega arith in
    let tries : candidate s 0 ≡ 0 = ap (λ t. bit_and (t % word32) handle_mask) start in
    let slot_0 : hash s.slot_size (candidate s 0) ≡ 0 =
      hash_lem s k (candidate s 0) v.size ∙ ap (λ t. t % 2 ^ k) tries ∙ zero-mod (2 ^ k) in
    let taken : scan s.slot_size 0 s ≡ some (candidate s 0) =
      scan-first s.slot_size 0 s (omega (arith, v.size, two_pow_pos k))
        (ap (λ t. get_or s.slot t none) slot_0 ∙ empty) in
    register-scan fuel handle_of s ctx 0 (taken ∙ ap some tries)
