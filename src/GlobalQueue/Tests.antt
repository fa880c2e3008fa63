-- ===== src/GlobalQueue/Tests.antt =====
-- The theorems about the global queue at concrete queues.
use skynet_note.Base.{
  ℕ, ◌≡◌, refl, true, none, some, List, [], ◌∷◌, arith, replicate, length, length-replicate, get_or,
  zero, suc, ◌<◌, sym, ap,
}
use skynet_note.GlobalQueue.{GlobalQueue, mq_init, globalmq_push, globalmq_pop}
use skynet_note.GlobalQueue.Fifo.{
  Holds, mq_init-Holds, globalmq_push-Holds, Pops, globalmq_pop-Pops, globalmq_push-overflow,
}

abbrev fresh : GlobalQueue
fresh = mq_init (λ i. 0)

abbrev two : GlobalQueue
two = globalmq_push 20 (globalmq_push 10 fresh)

two-Holds : Holds two (10 ∷ 20 ∷ [])
two-Holds =
    globalmq_push-Holds 20 (globalmq_push-Holds 10 (mq_init-Holds (λ i. 0)) (omega arith))
      (omega arith)

pops_first : (globalmq_pop two).0 ≡ some 10
unfolding globalmq_pop globalmq_push mq_init
pops_first = refl

globalmq_push-Holds_example : Holds (globalmq_push 30 two) (10 ∷ 20 ∷ 30 ∷ [])
globalmq_push-Holds_example = globalmq_push-Holds 30 two-Holds (omega arith)

globalmq_pop-Pops_example : Pops two (10 ∷ 20 ∷ [])
globalmq_pop-Pops_example = globalmq_pop-Pops (10 ∷ 20 ∷ []) two-Holds

-- A global queue in which the queue at address 5 stands 65535 times.
abbrev crowded : GlobalQueue
crowded = record { head = 0; tail = 65535; queue = λ i. 5; flag = λ i. true }

-- `n` times the address 5
fives : ℕ → List ℕ
fives n = replicate n 5

length-fives : (n : ℕ) → length (fives n) ≡ n
unfolding fives
length-fives n = length-replicate n 5

get_or-fives : (n i : ℕ) → i < n → get_or (fives n) i 0 ≡ 5
unfolding fives
get_or-fives zero i h = elim h [ ]
get_or-fives (suc n) zero h = refl
get_or-fives (suc n) (suc i) h = get_or-fives n i (omega arith)

crowded-Holds : (n : ℕ) → n ≡ 65535 → Holds crowded (fives n)
crowded-Holds n e = record {
  few = omega (arith, length-fives n);
  head_fits = omega arith;
  tail_at = omega (arith, length-fives n);
  held = λ i h. sym (get_or-fives n i (omega (arith, length-fives n)));
  flagged = λ i h. refl;
}

globalmq_push-overflow_example :
    globalmq_pop (globalmq_push 6 crowded) ≡ (none, globalmq_push 6 crowded)
globalmq_push-overflow_example =
    globalmq_push-overflow 6 (crowded-Holds 65535 refl) (ap suc (length-fives 65535))
