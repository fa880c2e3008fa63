-- ===== src/Context/Hex.antt =====
-- The text of a handle that `_id_to_hex` of skynet-src/skynet_server.c writes.
use skynet_note.Base.{
  ℕ, zero, suc, ◌+◌, ◌-◌, ◌*◌, ◌/◌, ◌%◌, ◌^◌, ◌<◌, ◌≡◌, refl, ◌∙◌, bit_and, bit_and_mask, List, [],
  ◌∷◌, arith, leb, map, ◌&&◌, ◌==◌, ◌>>=◌, ap, Option, none, some, if◌then◌else◌, get_or, length,
}
use skynet_note.Context.{hex, hex_loop, id_to_hex}

-- The value of a hexadecimal digit, one of 0 to 9 and A to F
abbrev pub digit_value : ℕ → Option ℕ
digit_value c =
    if leb b'0' c && leb c b'9'
    then some (c - b'0')
    else if leb b'A' c && leb c b'F'
    then some (c - b'A' + 10)
    else none

-- The number that digits denote, after the number `v`; `none` where a character is no digit
abbrev pub hex_value : ℕ → List ℕ → Option ℕ
hex_value v [] = some v
hex_value v (c ∷ cs) = digit_value c >>= λ d. hex_value (v * 16 + d) cs

-- The number of a colon and digits
abbrev pub colon_value : List ℕ → Option ℕ
colon_value [] = none
colon_value (c ∷ cs) = if c == b':' then hex_value 0 cs else none

digit_hex : (d : ℕ) → d < 16 → digit_value (get_or hex d 0) ≡ some d
digit_hex zero h = refl
digit_hex (suc zero) h = refl
digit_hex (suc (suc zero)) h = refl
digit_hex (suc (suc (suc zero))) h = refl
digit_hex (suc (suc (suc (suc zero)))) h = refl
digit_hex (suc (suc (suc (suc (suc zero))))) h = refl
digit_hex (suc (suc (suc (suc (suc (suc zero)))))) h = refl
digit_hex (suc (suc (suc (suc (suc (suc (suc zero))))))) h = refl
digit_hex (suc (suc (suc (suc (suc (suc (suc (suc zero)))))))) h = refl
digit_hex (suc (suc (suc (suc (suc (suc (suc (suc (suc zero))))))))) h = refl
digit_hex (suc (suc (suc (suc (suc (suc (suc (suc (suc (suc zero)))))))))) h = refl
digit_hex (suc (suc (suc (suc (suc (suc (suc (suc (suc (suc (suc zero))))))))))) h = refl
digit_hex (suc (suc (suc (suc (suc (suc (suc (suc (suc (suc (suc (suc zero)))))))))))) h = refl
digit_hex (suc (suc (suc (suc (suc (suc (suc (suc (suc (suc (suc (suc (suc zero))))))))))))) h =
    refl
digit_hex (suc (suc (suc (suc (suc (suc (suc (suc (suc (suc (suc (suc (suc (suc zero))))))))))))))
      h =
    refl
digit_hex
      (suc (suc (suc (suc (suc (suc (suc (suc (suc (suc (suc (suc (suc (suc (suc zero)))))))))))))))
      h =
    refl
digit_hex
      (suc
        (suc (suc (suc (suc (suc (suc (suc (suc (suc (suc (suc (suc (suc (suc (suc d))))))))))))))))
      h =
    absurd (omega (arith, h))

nibble : (x : ℕ) → digit_value (get_or hex (bit_and x 0xf) 0) ≡ some (x % 16)
nibble x =
    let low : bit_and x 0xf ≡ x % 16 = bit_and_mask 4 x in
    digit_hex (bit_and x 0xf) (omega (arith, low)) ∙ ap some low

-- The number whose digits are the remainders of numbers by 16, after the number `v`
abbrev number : ℕ → List ℕ → ℕ
number v [] = v
number v (x ∷ xs) = number (v * 16 + x % 16) xs

hex_value-map :
    (v : ℕ) (xs : List ℕ)
    → hex_value v (map (λ x. get_or hex (bit_and x 0xf) 0) xs) ≡ some (number v xs)
hex_value-map v [] = refl
hex_value-map v (x ∷ xs) =
    ap (λ o. o >>= λ d. hex_value (v * 16 + d) (map (λ x. get_or hex (bit_and x 0xf) 0) xs))
      (nibble x)
    ∙ hex_value-map (v * 16 + x % 16) xs

-- The text of a 32-bit handle is a colon and eight hexadecimal digits in upper case, which denote the
-- handle.
pub id_to_hex_lem :
    (id : ℕ) → id < 2 ^ 32 → (length (id_to_hex id) ≡ 9) × (colon_value (id_to_hex id) ≡ some id)
unfolding id_to_hex hex_loop
id_to_hex_lem id small =
    let shifts : List ℕ =
      id / 2 ^ 28
      ∷ id / 2 ^ 24
      ∷ id / 2 ^ 20
      ∷ id / 2 ^ 16
      ∷ id / 2 ^ 12
      ∷ id / 2 ^ 8
      ∷ id / 2 ^ 4
      ∷ id / 2 ^ 0
      ∷ [] in
    let whole : number 0 shifts ≡ id = omega (arith, small) in
    (refl, hex_value-map 0 shifts ∙ ap some whole)
