-- ===== src/Socket/Stream.antt =====
-- `send_list` of skynet-src/socket_server.c: it comes to an end, and what it writes and what it
-- leaves are what there was to write.
use mathlib.Core.List.{append_assoc}
use skynet_note.Base.{
  ℕ, zero, suc, ◌+◌, ◌%◌, ◌^◌, ◌≤◌, ◌<◌, ◌≡◌, ◌≢◌, refl, sym, ap, ◌∙◌, List, [], ◌∷◌, ◌++◌, take,
  drop, length, arith, ◌⊎◌, inl, inr, ℕ_discrete, take_all, drop-drop, take-append-drop,
  length-drop,
}
use skynet_note.Base.Run.{Run, done}
use skynet_note.Socket.{WriteBuffer, Errno, eintr, eagain, other, Io, failed, moved, EpollOp, Os}
use skynet_note.Socket.Buffers.{unsent, sub64, Flushed, kept, broken, wrote, send_list}

-- What the code relies on of the operating system. `output w fd` are the bytes that have been
-- written to `fd`, and `signals` bounds how often a `write` can still be interrupted.
pub record Lawful {W : Type 0} (os : Os W) : Type 0 where
  pub output : W → ℕ → List ℕ
  pub signals : W → ℕ
  pub write_moved :
      (w : W) (fd : ℕ) (bytes : List ℕ) (n : ℕ)
      → (os.write w fd bytes).0 ≡ moved n
      → (n ≤ length bytes)
        × (output ((os.write w fd bytes).1) fd ≡ output w fd ++ take n bytes)
        × (signals ((os.write w fd bytes).1) ≤ signals w)
  pub write_failed :
      (w : W) (fd : ℕ) (bytes : List ℕ) (e : Errno)
      → (os.write w fd bytes).0 ≡ failed e
      → (output ((os.write w fd bytes).1) fd ≡ output w fd)
        × (signals ((os.write w fd bytes).1) ≤ signals w)
  pub write_interrupted :
      (w : W) (fd : ℕ) (bytes : List ℕ)
      → (os.write w fd bytes).0 ≡ failed eintr
      → signals ((os.write w fd bytes).1) < signals w
  pub ctl_output :
      (w : W) (op : EpollOp) (sock fd : ℕ) → output ((os.epoll_ctl w op sock).1) fd ≡ output w fd
  pub close_output : (w : W) (sock fd : ℕ) → output (os.close w sock) fd ≡ output w fd

-- The bytes of a list of write buffers that are still to be written
unfoldable pub pending : List WriteBuffer → List ℕ
pending [] = []
pending (wb ∷ l) = unsent wb ++ pending l

-- Their number, as the buffers have it
unfoldable pub total : List WriteBuffer → ℕ
total [] = 0
total (wb ∷ l) = wb.sz + total l

-- Each buffer's `sz` is what stands behind its `ptr`.
abbrev pub AllWhole : List WriteBuffer → Type 0
AllWhole [] = Unit
AllWhole (wb ∷ l) = (wb.ptr + wb.sz ≡ length wb.buffer) × AllWhole l

-- Nothing of the buffers has been written.
abbrev pub AllUntouched : List WriteBuffer → Type 0
AllUntouched [] = Unit
AllUntouched (wb ∷ l) = (wb.ptr ≡ 0) × AllUntouched l

-- Nothing has been written of the buffers after the first.
abbrev pub TailUntouched : List WriteBuffer → Type 0
TailUntouched [] = Unit
TailUntouched (wb ∷ l) = AllUntouched l

module _ {W : Type 0} (os : Os W) where
  send_list-interrupted :
      (fuel fd wb_size : ℕ) (tmp : WriteBuffer) (list : List WriteBuffer) (w : W)
      → (os.write w fd (unsent tmp)).0 ≡ failed eintr
      → send_list os (suc fuel) fd wb_size (tmp ∷ list) w
        ≡ send_list os fuel fd wb_size (tmp ∷ list) ((os.write w fd (unsent tmp)).1)
  unfolding send_list
  send_list-interrupted fuel fd wb_size tmp list w e = ground (arith, e)

  send_list-again :
      (fuel fd wb_size : ℕ) (tmp : WriteBuffer) (list : List WriteBuffer) (w : W)
      → (os.write w fd (unsent tmp)).0 ≡ failed eagain
      → send_list os (suc fuel) fd wb_size (tmp ∷ list) w
        ≡ done (kept (tmp ∷ list) wb_size, (os.write w fd (unsent tmp)).1)
  unfolding send_list
  send_list-again fuel fd wb_size tmp list w e = ground (arith, e)

  send_list-other :
      (fuel fd wb_size : ℕ) (tmp : WriteBuffer) (list : List WriteBuffer) (w : W)
      → (os.write w fd (unsent tmp)).0 ≡ failed other
      → send_list os (suc fuel) fd wb_size (tmp ∷ list) w
        ≡ done (broken wb_size, (os.write w fd (unsent tmp)).1)
  unfolding send_list
  send_list-other fuel fd wb_size tmp list w e = ground (arith, e)

  send_list-whole :
      (fuel fd wb_size : ℕ) (tmp : WriteBuffer) (list : List WriteBuffer) (w : W)
      → (os.write w fd (unsent tmp)).0 ≡ moved tmp.sz
      → send_list os (suc fuel) fd wb_size (tmp ∷ list) w
        ≡ send_list os fuel fd (sub64 wb_size tmp.sz) list ((os.write w fd (unsent tmp)).1)
  unfolding send_list
  send_list-whole fuel fd wb_size tmp list w e = ground (arith, e)

  send_list-part :
      (fuel fd wb_size n : ℕ) (tmp : WriteBuffer) (list : List WriteBuffer) (w : W)
      → (os.write w fd (unsent tmp)).0 ≡ moved n
      → n ≢ tmp.sz
      → send_list os (suc fuel) fd wb_size (tmp ∷ list) w
        ≡ done (kept (wrote tmp n ∷ list) (sub64 wb_size n), (os.write w fd (unsent tmp)).1)
  unfolding send_list
  send_list-part fuel fd wb_size n tmp list w e ne = ground (arith, e, ne)

pub unsent_lem :
    (wb : WriteBuffer) → wb.ptr + wb.sz ≡ length wb.buffer → unsent wb ≡ drop wb.ptr wb.buffer
unfolding unsent
unsent_lem wb h =
    take_all wb.sz (drop wb.ptr wb.buffer)
      (omega (arith, h, length-drop wb.ptr wb.buffer (omega (arith, h))))

length-unsent : (wb : WriteBuffer) → wb.ptr + wb.sz ≡ length wb.buffer → length (unsent wb) ≡ wb.sz
length-unsent wb h =
    omega (
      arith,
      ap (length {A = ℕ}) (unsent_lem wb h),
      length-drop wb.ptr wb.buffer (omega (arith, h)),
    )

pub sub64_lem : (k n : ℕ) → sub64 ((k + n) % 2 ^ 64) n ≡ k % 2 ^ 64
sub64_lem k n = omega arith

-- A partial write splits what there was to send.
unsent-wrote :
    (wb : WriteBuffer) (n : ℕ)
    → wb.ptr + wb.sz ≡ length wb.buffer
    → n ≤ wb.sz
    → take n (unsent wb) ++ unsent (wrote wb n) ≡ unsent wb
unsent-wrote wb n h le =
    ap (λ t. take n (unsent wb) ++ t)
      (unsent_lem (wrote wb n) (omega (arith, h, le))
        ∙ sym (drop-drop wb.ptr n wb.buffer)
        ∙ ap (drop n) (sym (unsent_lem wb h)))
    ∙ take-append-drop n (unsent wb)

-- What came out and what is left, after a step that wrote `took` of `took ++ left`
stream_step :
    (out : List ℕ) {out' before : List ℕ} (took left : List ℕ)
    → out' ≡ out ++ took
    → took ++ left ≡ before
    → out' ++ left ≡ out ++ before
stream_step out took left e split =
    ap (λ t. t ++ left) e ∙ append_assoc out took left ∙ ap (λ t. out ++ t) split

pub AllUntouched-tail : (list : List WriteBuffer) → AllUntouched list → TailUntouched list
AllUntouched-tail [] h = tt
AllUntouched-tail (wb ∷ l) h = h.1

pub Io-cases :
    {A : Type 0} (io : Io A)
    → (io ≡ failed eintr)
      ⊎ ((io ≡ failed eagain) ⊎ ((io ≡ failed other) ⊎ ((a : A) × (io ≡ moved a))))
Io-cases (failed eintr) = inl refl
Io-cases (failed eagain) = inr (inl refl)
Io-cases (failed other) = inr (inr (inl refl))
Io-cases (moved a) = inr (inr (inr (a, refl)))

module _ {W : Type 0} (os : Os W) (L : Lawful os) where
  -- How `send_list` on `fd` may end: on success, every byte is written or left in order, the buffers
  -- are well formed, and `wb_size` counts them with `k` more; on an error, a prefix is written.
  abbrev pub Sent : ℕ → ℕ → List WriteBuffer → W → Flushed × W → Type 0
  Sent fd k list w (kept list' wb_size, w') =
      (L.output w' fd ++ pending list' ≡ L.output w fd ++ pending list)
      × AllWhole list'
      × TailUntouched list'
      × (wb_size ≡ (k + total list') % 2 ^ 64)
      × (L.signals w' ≤ L.signals w)
  Sent fd k list w (broken wb_size, w') =
      (rest : List ℕ) × (L.output w' fd ++ rest ≡ L.output w fd ++ pending list)

  abbrev pub Ends : ℕ → ℕ → List WriteBuffer → W → Run (Flushed × W) → Type 0
  Ends fd k list w run = (r : Flushed × W) × (run ≡ done r) × Sent fd k list w r

  -- What holds after the first step holds after the whole run.
  Sent-after :
      (fd k : ℕ) (list list' : List WriteBuffer) (w w' : W) (r : Flushed × W)
      → L.output w' fd ++ pending list' ≡ L.output w fd ++ pending list
      → L.signals w' ≤ L.signals w
      → Sent fd k list' w' r
      → Sent fd k list w r
  Sent-after fd k list list' w w' (kept l wb_size, v) e le (s, whole, tail, size, sig) =
      (s ∙ e, whole, tail, size, omega (arith, sig, le))
  Sent-after fd k list list' w w' (broken wb_size, v) e le (rest, s) = (rest, s ∙ e)

  -- After a `write` of the whole first buffer
  wrote_whole :
      (fd : ℕ) (tmp : WriteBuffer) (list : List WriteBuffer) (w : W) (n : ℕ)
      → tmp.ptr + tmp.sz ≡ length tmp.buffer
      → (os.write w fd (unsent tmp)).0 ≡ moved n
      → n ≡ tmp.sz
      → (L.output ((os.write w fd (unsent tmp)).1) fd ++ pending list
          ≡ L.output w fd ++ pending (tmp ∷ list))
        × (L.signals ((os.write w fd (unsent tmp)).1) ≤ L.signals w)
  unfolding pending
  wrote_whole fd tmp list w n whole wrote_n all =
      let (fits, came, le) = L.write_moved w fd (unsent tmp) n wrote_n in
      let everything : take n (unsent tmp) ≡ unsent tmp =
        take_all n (unsent tmp) (omega (arith, length-unsent tmp whole, all)) in
      (
        stream_step (L.output w fd) (unsent tmp) (pending list)
            (came ∙ ap (λ t. L.output w fd ++ t) everything) refl,
        le,
      )

  -- After a `write` of a part of it
  wrote_part :
      (fd k wb_size : ℕ) (tmp : WriteBuffer) (list : List WriteBuffer) (w : W) (n : ℕ)
      → AllWhole (tmp ∷ list)
      → AllUntouched list
      → wb_size ≡ (k + total (tmp ∷ list)) % 2 ^ 64
      → (os.write w fd (unsent tmp)).0 ≡ moved n
      → Sent fd k
          (tmp ∷ list)
          w
          (kept (wrote tmp n ∷ list) (sub64 wb_size n), (os.write w fd (unsent tmp)).1)
  unfolding pending total
  wrote_part fd k wb_size tmp list w n whole tail size wrote_n =
      let (fits, came, le) = L.write_moved w fd (unsent tmp) n wrote_n in
      let below : n ≤ tmp.sz = omega (arith, fits, length-unsent tmp whole.0) in
      (
        stream_step (L.output w fd) (take n (unsent tmp)) (unsent (wrote tmp n) ++ pending list)
            came
            (sym (append_assoc (take n (unsent tmp)) (unsent (wrote tmp n)) (pending list))
              ∙ ap (λ t. t ++ pending list) (unsent-wrote tmp n whole.0 below)),
        (omega (arith, whole.0, below), whole.1),
        tail,
        omega (arith, size, below),
        le,
      )

  -- `send_list` ends, with fuel for the interruptions and the buffers.
  pub send_list_lem :
      (fuel fd k wb_size : ℕ) (list : List WriteBuffer) (w : W)
      → L.signals w + length list < fuel
      → AllWhole list
      → TailUntouched list
      → wb_size ≡ (k + total list) % 2 ^ 64
      → Ends fd k list w (send_list os fuel fd wb_size list w)
  unfolding send_list pending total
  send_list_lem zero fd k wb_size list w enough whole tail size = absurd (omega (arith, enough))
  send_list_lem (suc fuel) fd k wb_size [] w enough whole tail size =
      ((kept [] wb_size, w), refl, (refl, tt, tt, size, omega arith))
  send_list_lem (suc fuel) fd k wb_size (tmp ∷ list) w enough whole tail size =
      let w' : W = (os.write w fd (unsent tmp)).1 in
      elim (Io-cases (os.write w fd (unsent tmp)).0) [
        | inl interrupted ↦
            let (same, le) = L.write_failed w fd (unsent tmp) eintr interrupted in
            let less : L.signals w' < L.signals w =
              L.write_interrupted w fd (unsent tmp) interrupted in
            let (r, run, sent) =
              send_list_lem fuel fd k wb_size (tmp ∷ list) w' (omega (arith, less, enough)) whole
                tail size in
            (
              r,
              send_list-interrupted os fuel fd wb_size tmp list w interrupted ∙ run,
              Sent-after fd k (tmp ∷ list) (tmp ∷ list) w w' r
                  (ap (λ t. t ++ pending (tmp ∷ list)) same) le sent,
            )
        | inr (inl again) ↦
            let (same, le) = L.write_failed w fd (unsent tmp) eagain again in
            (
              (kept (tmp ∷ list) wb_size, w'),
              send_list-again os fuel fd wb_size tmp list w again,
              (ap (λ t. t ++ pending (tmp ∷ list)) same, whole, tail, size, le),
            )
        | inr (inr (inl broke)) ↦
            let (same, le) = L.write_failed w fd (unsent tmp) other broke in
            (
              (broken wb_size, w'),
              send_list-other os fuel fd wb_size tmp list w broke,
              (pending (tmp ∷ list), ap (λ t. t ++ pending (tmp ∷ list)) same),
            )
        | inr (inr (inr (n, wrote_n))) ↦ elim (ℕ_discrete n tmp.sz) [
          | yes all ↦
              let (out, le) = wrote_whole fd tmp list w n whole.0 wrote_n all in
              let rest_size : sub64 wb_size tmp.sz ≡ (k + total list) % 2 ^ 64 =
                omega (arith, size) in
              let (r, run, sent) =
                send_list_lem fuel fd k (sub64 wb_size tmp.sz) list w' (omega (arith, le, enough))
                  whole.1 (AllUntouched-tail list tail) rest_size in
              (
                r,
                send_list-whole os fuel fd wb_size tmp list w (wrote_n ∙ ap moved all) ∙ run,
                Sent-after fd k (tmp ∷ list) list w w' r out le sent,
              )
          | no part ↦ (
            (kept (wrote tmp n ∷ list) (sub64 wb_size n), w'),
            send_list-part os fuel fd wb_size n tmp list w wrote_n part,
            wrote_part fd k wb_size tmp list w n whole tail size wrote_n,
          )
        ]
      ]
