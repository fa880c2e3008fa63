-- ===== src/Handle/Tests.antt =====
-- The slots of skynet-src/skynet_handle.c at concrete inputs.
use skynet_note.Base.{
  ℕ, zero, suc, ◌%◌, ◌^◌, ◌≡◌, ◌≢◌, ◌⊎◌, refl, ap, sym, none, some, [], ◌∷◌, arith, get_or,
}
use skynet_note.Base.Run.{done}
use skynet_note.Handle.{Storage, Registered, lookup, register, retire_slot, occupy}
use skynet_note.Handle.Slots.{Valid}
use skynet_note.Handle.Register.{Registers, Fresh, register_lem}
use skynet_note.Handle.Retire.{retire_slot-register}
use skynet_note.Handle.Init.{register_wraps}

-- A context whose address is the number of its handle
abbrev own_number : ℕ → ℕ
own_number c = c

-- Four slots of harbor 0, none of them empty
abbrev full_storage : Storage
full_storage = record {
  harbor = 0;
  handle_index = 9;
  slot_size = 4;
  slot = some 8 ∷ some 5 ∷ some 6 ∷ some 7 ∷ [];
}

full_storage-Valid : Valid own_number full_storage 2
full_storage-Valid = record { size = refl; bits = omega arith; storage = refl; placed = at }
  where
    at : (i c : ℕ) → get_or full_storage.slot i none ≡ some c → c % 2 ^ 2 ≡ i
    at zero c e = let same : 8 ≡ c = cc in ap (λ t. t % 4) (sym same)
    at (suc zero) c e = let same : 5 ≡ c = cc in ap (λ t. t % 4) (sym same)
    at (suc (suc zero)) c e = let same : 6 ≡ c = cc in ap (λ t. t % 4) (sym same)
    at (suc (suc (suc zero))) c e = let same : 7 ≡ c = cc in ap (λ t. t % 4) (sym same)
    at (suc (suc (suc (suc i)))) c e = let clash : none ≡ some c = e in absurd cc

same_number : (a b : ℕ) → some a ≡ some b → a ≡ b
same_number a b e = cc

no_number : (a : ℕ) → none ≢ some a
no_number a e = cc

full_storage-Fresh : Fresh full_storage 100
unfolding Fresh
full_storage-Fresh zero e = absurd (omega (arith, same_number 8 100 e))
full_storage-Fresh (suc zero) e = absurd (omega (arith, same_number 5 100 e))
full_storage-Fresh (suc (suc zero)) e = absurd (omega (arith, same_number 6 100 e))
full_storage-Fresh (suc (suc (suc zero))) e = absurd (omega (arith, same_number 7 100 e))
full_storage-Fresh (suc (suc (suc (suc i)))) e = no_number 100 e

register_lem_example :
    (r : Registered) × (register 2 own_number full_storage 100 ≡ done r)
    × Registers own_number full_storage 100 r
    × (Valid r.handle_of r.storage 2 ⊎ Valid r.handle_of r.storage 3)
register_lem_example =
    register_lem 0 own_number full_storage 100 2 0 full_storage-Valid refl full_storage-Fresh
      (omega arith)

retire_slot-register_example :
    (r : Registered) × (register 2 own_number full_storage 100 ≡ done r)
    × ((retire_slot r.handle_of r.storage r.handle).0 ≡ some 100)
    × ((h : ℕ)
        → lookup r.handle_of (retire_slot r.handle_of r.storage r.handle).1 h
          ≡ lookup own_number full_storage h)
retire_slot-register_example =
    retire_slot-register 0 own_number full_storage 100 2 0 full_storage-Valid refl
      full_storage-Fresh (omega arith)

-- The counter after the handle 0xffffff
abbrev wrapped_storage : Storage
wrapped_storage = record {
  harbor = 0;
  handle_index = 2 ^ 24;
  slot_size = 4;
  slot = none ∷ some 5 ∷ none ∷ some 0xffffff ∷ [];
}

wrapped_storage-Valid : Valid own_number wrapped_storage 2
wrapped_storage-Valid = record { size = refl; bits = omega arith; storage = refl; placed = at }
  where
    at : (i c : ℕ) → get_or wrapped_storage.slot i none ≡ some c → c % 2 ^ 2 ≡ i
    at zero c e = let clash : none ≡ some c = e in absurd cc
    at (suc zero) c e = let same : 5 ≡ c = cc in ap (λ t. t % 4) (sym same)
    at (suc (suc zero)) c e = let clash : none ≡ some c = e in absurd cc
    at (suc (suc (suc zero))) c e = let same : 0xffffff ≡ c = cc in ap (λ t. t % 4) (sym same)
    at (suc (suc (suc (suc i)))) c e = let clash : none ≡ some c = e in absurd cc

register_wraps_example :
    register 1 own_number wrapped_storage 100 ≡ done (occupy own_number wrapped_storage 100 0)
register_wraps_example =
    register_wraps 0 own_number wrapped_storage 100 2 wrapped_storage-Valid refl refl
