-- ===== src/Timer/Pending.antt =====
-- The wheel of skynet-src/skynet_timer.c as a multiset of pending nodes: each node stands in the
-- one list that is its place at the present time, and nowhere else.
use mathlib.Core.Path.{fun_ext}
use skynet_note.Base.{
  ℕ, suc, ◌+◌, ◌/◌, ◌%◌, ◌≤◌, ◌<◌, ◌≡◌, inl, inr, refl, ap, ◌∙◌, sym, subst, Bool, true, ◌&&◌, List,
  [], ◌∷◌, ◌++◌, arith, ◌==◌, if◌then◌else◌, Bool-cases, bit_and_mask,
}
use skynet_note.Timer.{
  done, Node, Slot, near, wheel, slot_eq, Timer, word32, link, link_clear, add_nodes, timer_execute,
}
use skynet_note.Timer.Place.{place, add_node_lem}
use skynet_note.Timer.Cascade.{slot_eq_refl, slot_eq-eq, climb-near}

abbrev pub node_eq : Node → Node → Bool
node_eq a b = (a.expire == b.expire) && (a.handle == b.handle) && (a.session == b.session)

-- How often a node stands in a list.
abbrev pub count : Node → List Node → ℕ
count n [] = 0
count n (x ∷ xs) = if node_eq x n then suc (count n xs) else count n xs

-- The lists of `T` hold each node `pending` times, in its place at the time of `T`; no pending node
-- is overdue.
pub record Models (T : Timer) (pending : Node → ℕ) : Type 0 where
  pub cells :
      (s : Slot) (n : Node)
      → count n (T.slots s) ≡ (if slot_eq (place T.time n.expire) s then pending n else 0)
  pub due : (n : Node) → 0 < pending n → (T.time ≤ n.expire) × (n.expire < word32)

-- No pending node is due now.
abbrev pub Ahead : Timer → (Node → ℕ) → Type 0
Ahead T pending = (n : Node) → 0 < pending n → T.time < n.expire

-- All nodes of a list may be added at the time `t`.
abbrev pub AllDue : ℕ → List Node → Type 0
AllDue t l = (n : Node) → 0 < count n l → (t ≤ n.expire) × (n.expire < word32)

pub node_eq-eq : (a b : Node) → node_eq a b ≡ true → a ≡ b
node_eq-eq a b h = ground arith

pub node_eq_refl : (a : Node) → node_eq a a ≡ true
node_eq_refl a = ground arith

pub count-append : (n : Node) (xs ys : List Node) → count n (xs ++ ys) ≡ count n xs + count n ys
count-append n [] ys = omega arith
count-append n (x ∷ xs) ys = ground (arith, count-append n xs ys)

pub slot_eq-sym : (s r : Slot) → slot_eq s r ≡ slot_eq r s
slot_eq-sym (near j) (near k) = ground arith
slot_eq-sym (near j) (wheel k l) = refl
slot_eq-sym (wheel i j) (near k) = refl
slot_eq-sym (wheel i j) (wheel k l) = ground arith

pub Models-same : {T : Timer} {p q : Node → ℕ} → Models T p → ((n : Node) → p n ≡ q n) → Models T q
Models-same {T} m h = subst (Models T) (fun_ext h) m

-- Linking a node into its place adds it.
pub link-Models :
    {T : Timer} {p : Node → ℕ} (x : Node)
    → Models T p
    → T.time ≤ x.expire
    → x.expire < word32
    → Models (link T (place T.time x.expire) x) (λ n. p n + count n (x ∷ []))
unfolding link
link-Models {T} {p} x m late small = record {
  cells = cells';
  due = λ n h. elim (Bool-cases (node_eq x n)) [
    | inl same ↦ ground (arith, node_eq-eq x n same)
    | inr other ↦ ground (arith, m.due n)
  ];
}
  where
    cells' :
        (s : Slot) (n : Node)
        → count n (if slot_eq (place T.time x.expire) s then T.slots s ++ (x ∷ []) else T.slots s)
          ≡ (if slot_eq (place T.time n.expire) s then p n + count n (x ∷ []) else 0)
    cells' s n = elim (Bool-cases (node_eq x n)) [
      | inl same ↦
          let e : x ≡ n = node_eq-eq x n same in
          subst
            (λ y.
              count n
                (if slot_eq (place T.time y.expire) s then T.slots s ++ (x ∷ []) else T.slots s)
              ≡ (if slot_eq (place T.time n.expire) s then p n + count n (x ∷ []) else 0))
            (sym e) (ground (arith, m.cells s n, count-append n (T.slots s) (x ∷ [])))
      | inr other ↦ ground (arith, m.cells s n, count-append n (T.slots s) (x ∷ []))
    ]

-- Adding a list of nodes adds each as often as it stands there.
pub add_nodes-Models :
    (l : List Node) {T : Timer} {p : Node → ℕ}
    → Models T p
    → AllDue T.time l
    → (T' : Timer) × (add_nodes T l ≡ done T')
      × Models T' (λ n. p n + count n l)
      × (T'.time ≡ T.time)
      × (T'.current ≡ T.current)
unfolding add_nodes link
add_nodes-Models [] {T} {p} m ok = (T, refl, Models-same m (λ n. omega arith), refl, refl)
add_nodes-Models (x ∷ l) {T} {p} m ok =
    let (late, small) = ok x (ground (arith, node_eq_refl x)) in
    let T1 = link T (place T.time x.expire) x in
    let (T', e, m', t, c) =
      add_nodes-Models l {T = T1} (link-Models x m late small) (λ n h. ok n (ground arith)) in
    (T', rw (add_node_lem T x late small) e, Models-same m' (λ n. ground arith), t, c)

-- A place is the near list of the present tick exactly for a node that is due now.
place_now : (t e : ℕ) → slot_eq (place t e) (near (t % 256)) ≡ (e == t)
unfolding place
place_now t e = elim (Bool-cases (e / 256 == t / 256)) [
  | inl same ↦ rw same (ground arith)
  | inr apart ↦ rw (apart, climb-near 3 0 (e / 256) (t / 256) (t % 256)) (ground arith)
]

-- Executing takes the nodes that are due now, each as often as it is pending, and no other.
pub timer_execute-Models :
    {T : Timer} {p : Node → ℕ}
    → Models T p
    → let (l, T') = timer_execute T in
      ((n : Node) → count n l ≡ (if n.expire == T.time then p n else 0))
      × Models T' (λ n. if n.expire == T.time then 0 else p n)
      × (T'.time ≡ T.time)
      × (T'.current ≡ T.current)
unfolding timer_execute link_clear
timer_execute-Models {T} {p} m = rw (bit_and_mask 8 T.time) (
  λ n. m.cells (near (T.time % 256)) n ∙ ap (λ b. if b then p n else 0) (place_now T.time n.expire),
  record { cells = cells'; due = λ n h. ground (arith, m.due n) },
  refl,
  refl,
)
  where
    cells' :
        (s : Slot) (n : Node)
        → count n (if slot_eq (near (T.time % 256)) s then [] else T.slots s)
          ≡ (if slot_eq (place T.time n.expire) s then if n.expire == T.time then 0 else p n else 0)
    cells' s n = elim (Bool-cases (slot_eq (near (T.time % 256)) s)) [
      | inl here ↦
          subst
            (λ r. count n (if slot_eq (near (T.time % 256)) r then [] else T.slots r) ≡ (
              if slot_eq (place T.time n.expire) r
              then if n.expire == T.time then 0 else p n
              else 0))
            (slot_eq-eq (near (T.time % 256)) s here)
            (rw (slot_eq_refl (near (T.time % 256)), place_now T.time n.expire) (ground arith))
      | inr there ↦ elim (Bool-cases (n.expire == T.time)) [
        | inl due_now ↦
            let e : place T.time n.expire ≡ near (T.time % 256) =
              slot_eq-eq _ _ (place_now T.time n.expire ∙ due_now) in
            rw there (m.cells s n ∙ rw (e, there))
        | inr later ↦ rw (there, later) (m.cells s n)
      ]
    ]
