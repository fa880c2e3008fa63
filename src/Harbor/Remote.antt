-- ===== src/Harbor/Remote.antt =====
-- What `skynet_harbor_message_isremote` of skynet-src/skynet_harbor.c tests.
use skynet_note.Base.{
  ℕ, suc, ◌+◌, ◌*◌, ◌/◌, ◌%◌, ◌^◌, ◌<◌, ◌≡◌, ◌≢◌, ap, ◌∙◌, sym, bit_and, true, false, arith,
  and_high, bit_and_mask, ◌↔◌,
}
use skynet_note.Base.Run.{done}
use skynet_note.Harbor.{harbor_init, harbor_message_isremote}
use skynet_note.Handle.{Storage, Registered, register}
use skynet_note.Handle.Slots.{Valid}
use skynet_note.Handle.Register.{Fresh, register_lem}

high_byte : (h : ℕ) → h < 2 ^ 32 → bit_and h 0xff000000 ≡ h / 2 ^ 24 * 2 ^ 24
high_byte h small =
    let e : h / 2 ^ 24 * 2 ^ 24 + h % 2 ^ 24 ≡ h = omega arith in
    let byte : bit_and (h / 2 ^ 24) 255 ≡ h / 2 ^ 24 = omega (arith, bit_and_mask 8 (h / 2 ^ 24)) in
    sym (ap (λ t. bit_and t 0xff000000) e)
    ∙ and_high 24 (h / 2 ^ 24) (h % 2 ^ 24) 255 (omega arith)
    ∙ ap (λ t. t * 2 ^ 24) byte

-- A handle of 32 bits is remote exactly when its high byte is neither 0 nor the low byte of the
-- number of the harbor.
pub harbor_message_isremote_iff :
    (harbor handle : ℕ)
    → handle < 2 ^ 32
    → (harbor_message_isremote (harbor_init harbor) handle ≡ true)
      ↔ ((handle / 2 ^ 24 ≢ harbor % 2 ^ 8) × (handle / 2 ^ 24 ≢ 0))
unfolding harbor_message_isremote harbor_init
harbor_message_isremote_iff harbor handle small =
    let e : bit_and handle 0xff000000 ≡ handle / 2 ^ 24 * 2 ^ 24 = high_byte handle small in
    ground (arith, e)

-- A registration in a well-formed storage of fewer than 2 ^ 24 slots whose harbor is that of
-- `harbor_init`, for a context that no slot holds, ends, and its handle fits in 32 bits and is not
-- remote.
pub harbor_message_isremote-register :
    (fuel harbor : ℕ) (handle_of : ℕ → ℕ) (s : Storage) (ctx k : ℕ)
    → Valid handle_of s k
    → s.harbor ≡ harbor_init harbor
    → Fresh s ctx
    → k < 24
    → (r : Registered) × (register (suc (suc fuel)) handle_of s ctx ≡ done r)
      × (r.handle < 2 ^ 32)
      × (harbor_message_isremote (harbor_init harbor) r.handle ≡ false)
unfolding harbor_message_isremote harbor_init
harbor_message_isremote-register fuel harbor handle_of s ctx k v same fresh small =
    let byte : s.harbor ≡ harbor % 2 ^ 8 * 2 ^ 24 = omega (arith, same) in
    let (r, run, g, valid) =
      register_lem fuel handle_of s ctx k (harbor % 2 ^ 8) v byte fresh small in
    let word : r.handle < 2 ^ 32 = omega (arith, g.carries, byte) in
    let e : bit_and r.handle 0xff000000 ≡ r.handle / 2 ^ 24 * 2 ^ 24 = high_byte r.handle word in
    let home : bit_and r.handle 0xff000000 ≡ harbor * 2 ^ 24 % 2 ^ 32 =
      omega (arith, e, g.carries, same) in
    (r, run, word, ground (arith, home))
