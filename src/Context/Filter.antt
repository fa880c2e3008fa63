-- ===== src/Context/Filter.antt =====
-- `_filter_args` of skynet-src/skynet_server.c: the session, the data and the size of a message to be
-- sent, with its type in the high bits of the size, and what `_dispatch_message` reads of them. A data
-- pointer is a number, 0 for NULL; `copy` is the block that `skynet_malloc` gives for the copy of the
-- data. A `size_t` has 64 bits.
use native.Mathlib.Nat.{div-add-mod, mod-lt}
use skynet_note.Base.{
  ℕ, ◌+◌, ◌-◌, ◌*◌, ◌/◌, ◌%◌, ◌^◌, ◌<◌, ◌≡◌, ◌≢◌, sym, ap, ap₂, ◌∙◌, bit_and, bit_or, bit_and_mask,
  and_high, or_apart, low_ones_lem, Option, some, not, arith, ltb, ◌&&◌, ◌==◌, if◌then◌else◌, ◌>>=◌,
  ◌>>◌, guard,
}
use skynet_note.Context.{Context, newsession}
use skynet_note.Context.Session.{newsession_value}

-- `PTYPE_TAG_DONTCOPY` of skynet.h
abbrev pub tag_dontcopy : ℕ
tag_dontcopy = 0x10000

-- `PTYPE_TAG_ALLOCSESSION`
abbrev pub tag_allocsession : ℕ
tag_allocsession = 0x20000

-- What `_filter_args` leaves
pub record Filtered : Type 0 where
  pub context : Context
  pub session : ℕ
  pub content : ℕ
  pub sz : ℕ

-- The session part of `_filter_args`
unfoldable pub take_session : Context → ℕ → ℕ → Option (ℕ × Context)
take_session ctx type session =
    if bit_and type tag_allocsession == 0
    then some (session, ctx)
    else (guard (session == 0) >> some (newsession ctx))

-- The bits of an `int`, in the 64 bits of a `size_t`: the sign is extended.
abbrev pub sign_extend : ℕ → ℕ
sign_extend w = if ltb w (2 ^ 31) then w else w + (2 ^ 64 - 2 ^ 32)

-- `sz |= type << HANDLE_REMOTE_SHIFT`, for the low byte of the `int` `type`
abbrev pub pack : ℕ → ℕ → ℕ
pack type sz = bit_or sz (sign_extend (bit_and type 0xff * 2 ^ 24))

-- `_filter_args`
unfoldable pub filter_args : Context → ℕ → ℕ → ℕ → ℕ → ℕ → Option Filtered
filter_args ctx type session content sz copy = take_session ctx type session >>= λ (session', ctx').
    guard (bit_and sz 0xffffff == sz)
    >> some (record {
      context = ctx';
      session = session';
      content = if bit_and type tag_dontcopy == 0 && not (content == 0) then copy else content;
      sz = pack type sz;
    })

-- The type, an `int` again, and the size that `_dispatch_message` gives to the callback
abbrev pub unpack : ℕ → ℕ × ℕ
unpack sz = (sz / 2 ^ 24 % 2 ^ 32, bit_and sz 0xffffff)

-- The low byte of a type, read with a sign: from 128 on it is the `int` that is 256 less.
abbrev pub signed_byte : ℕ → ℕ
signed_byte type = if ltb (type % 256) 128 then type % 256 else 2 ^ 32 - 256 + type % 256

-- Bit `k` of a number
abbrev pub bit : ℕ → ℕ → ℕ
bit k n = n / 2 ^ k % 2

-- What the callback of the receiver gets for a type and a size of 24 bits
pub pack-unpack : (type sz : ℕ) → sz < 2 ^ 24 → unpack (pack type sz) ≡ (signed_byte type, sz)
pack-unpack type sz small =
    let low : bit_and type 0xff ≡ type % 256 = bit_and_mask 8 type in
    let q : ℕ = if ltb (type % 256) 128 then type % 256 else type % 256 + (2 ^ 40 - 2 ^ 8) in
    let shifted : sign_extend (bit_and type 0xff * 2 ^ 24) ≡ q * 2 ^ 24 = ground (arith, low) in
    let apart : pack type sz ≡ q * 2 ^ 24 + sz = ap (bit_or sz) shifted ∙ or_apart 24 q sz small in
    let mask : bit_and (pack type sz) 0xffffff ≡ pack type sz % 2 ^ 24 =
      bit_and_mask 24 (pack type sz) in
    let rest : bit_and (pack type sz) 0xffffff ≡ sz = omega (arith, mask, apart, small) in
    let high : pack type sz / 2 ^ 24 % 2 ^ 32 ≡ q % 2 ^ 32 = omega (arith, apart, small) in
    let byte : q % 2 ^ 32 ≡ signed_byte type = ground arith in
    ap₂ (λ (x y : ℕ). (x, y)) (high ∙ byte) rest

-- A test of one bit by a mask
bit_and-bit : (k n : ℕ) → bit_and n (1 * 2 ^ k) ≡ bit k n * 2 ^ k
bit_and-bit k n =
    let split : n / 2 ^ k * 2 ^ k + n % 2 ^ k ≡ n = grind (arith, div-add-mod n (2 ^ k)) in
    ap (λ t. bit_and t (1 * 2 ^ k)) (sym split)
    ∙ and_high k (n / 2 ^ k) (n % 2 ^ k) 1 (mod-lt n (omega (arith, low_ones_lem k)))
    ∙ ap (λ t. t * 2 ^ k) (bit_and_mask 1 (n / 2 ^ k))

-- The session of a message: the one given, or the next of the sender
abbrev pub sent_session : Context → ℕ → ℕ → ℕ
sent_session ctx type session = if bit 17 type == 0 then session else (ctx.session_id + 1) % 2 ^ 31

-- The sender afterwards: only the number of its last session may differ.
abbrev pub sender_after : Context → ℕ → Context
sender_after ctx type = record ctx {
  session_id = if bit 17 type == 0 then ctx.session_id else (ctx.session_id + 1) % 2 ^ 32;
}

-- The data of a message: a copy, unless the type forbids it or there is none
abbrev pub sent_content : ℕ → ℕ → ℕ → ℕ
sent_content type content copy = if bit 16 type == 0 && not (content == 0) then copy else content

take_session_lem :
    (ctx : Context) (type session : ℕ)
    → (bit 17 type ≢ 0 → session ≡ 0)
    → take_session ctx type session ≡ some (sent_session ctx type session, sender_after ctx type)
unfolding take_session newsession
take_session_lem ctx type session free =
    let test : bit_and type 0x20000 ≡ bit 17 type * 2 ^ 17 = bit_and-bit 17 type in
    let new = newsession_value ctx in ground (arith, test, free, new)

-- The whole of `_filter_args`, when a session is asked for only with none given, and the size has 24
-- bits
pub filter_args_lem :
    (ctx : Context) (type session content sz copy : ℕ)
    → (bit 17 type ≢ 0 → session ≡ 0)
    → sz < 2 ^ 24
    → filter_args ctx type session content sz copy
      ≡ some (record {
        context = sender_after ctx type;
        session = sent_session ctx type session;
        content = sent_content type content copy;
        sz = pack type sz;
      })
unfolding filter_args
filter_args_lem ctx type session content sz copy free small =
    let took = take_session_lem ctx type session free in
    let same : bit_and sz 0xffffff ≡ sz = omega (arith, bit_and_mask 24 sz, small) in
    let test : bit_and type 0x10000 ≡ bit 16 type * 2 ^ 16 = bit_and-bit 16 type in
    ground (arith, took, same, test)
