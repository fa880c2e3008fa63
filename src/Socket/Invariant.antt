-- ===== src/Socket/Invariant.antt =====
-- What holds of every slot of skynet-src/socket_server.c between two commands.
use skynet_note.Base.{
  ℕ, ◌+◌, ◌%◌, ◌^◌, ◌≡◌, refl, sym, ap, ap₂, ◌∙◌, subst, [], Bool, true, false, ◌||◌, ◌&&◌,
  if◌then◌else◌,
}
use skynet_note.Base.Run.{Run, done}
use skynet_note.Socket.{
  SocketType, invalid, reserve, plisten, listening, connecting, connected, halfclose, paccept,
  bound, is_type, Socket, Outcome,
}
use skynet_note.Socket.Buffers.{is_empty, send_buffer_empty}
use skynet_note.Socket.Stream.{total, AllWhole, AllUntouched, TailUntouched}
use skynet_note.Socket.Flush.{Ready}

-- Where a slot is in its life: free, waiting for `start_socket` or listening, or open for writing
pub data Phase : Type 0 where
  free waiting active : Phase

abbrev pub phase : SocketType → Phase
phase invalid = free
phase reserve = free
phase plisten = waiting
phase listening = waiting
phase connecting = active
phase connected = active
phase halfclose = active
phase paccept = waiting
phase bound = active

abbrev pub Fits : Phase → Socket → Type 0
Fits free s = (s.high ≡ []) × (s.low ≡ [])
Fits waiting s = (s.high ≡ []) × (s.low ≡ []) × (s.wb_size ≡ 0)
Fits active s = Ready s

-- A slot has write buffers only when it is open for writing, and they are well formed then.
unfoldable pub SlotOk : Socket → Type 0
SlotOk s = Fits (phase s.type) s

-- A run ends and leaves a slot that is well formed.
abbrev pub Fine : {W : Type 0} → Run (Outcome W) → Type 0
Fine {W} run = (o : Outcome W) × (run ≡ done o) × SlotOk o.socket

-- With no write buffers the slot is well formed in each phase.
pub blank-Fits :
    (s : Socket) (p : Phase)
    → is_type s.type invalid ≡ false
    → is_type s.type reserve ≡ false
    → s.high ≡ []
    → s.low ≡ []
    → s.wb_size ≡ 0
    → Fits p s
unfolding total
blank-Fits s free live open_ h l z = (h, l)
blank-Fits s waiting live open_ h l z = (h, l, z)
blank-Fits s active live open_ h l z = record {
  not_invalid = live;
  not_reserve = open_;
  high_whole = subst AllWhole (sym h) tt;
  low_whole = subst AllWhole (sym l) tt;
  high_tail = subst TailUntouched (sym h) tt;
  low_untouched = subst AllUntouched (sym l) tt;
  size = z ∙ ap₂ (λ x y. (total x + total y) % 2 ^ 64) (sym h) (sym l);
}

pub blank-SlotOk :
    (s : Socket)
    → is_type s.type invalid ≡ false
    → is_type s.type reserve ≡ false
    → s.high ≡ []
    → s.low ≡ []
    → s.wb_size ≡ 0
    → SlotOk s
unfolding SlotOk
blank-SlotOk s = blank-Fits s (phase s.type)

pub free-SlotOk : (s : Socket) → s.type ≡ invalid → s.high ≡ [] → s.low ≡ [] → SlotOk s
unfolding SlotOk
free-SlotOk s e h l = subst (λ t. Fits (phase t) s) (sym e) (h, l)

pub retype-Ready :
    (s : Socket) (t : SocketType)
    → is_type t invalid ≡ false
    → is_type t reserve ≡ false
    → Ready s
    → Ready (record s { type = t })
retype-Ready s t live open_ r = record {
  not_invalid = live;
  not_reserve = open_;
  high_whole = r.high_whole;
  low_whole = r.low_whole;
  high_tail = r.high_tail;
  low_untouched = r.low_untouched;
  size = r.size;
}

opaque-Fits : (p : Phase) (s : Socket) (o : ℕ) → Fits p s → Fits p (record s { opaque = o })
opaque-Fits free s o ok = ok
opaque-Fits waiting s o ok = ok
opaque-Fits active s o r = record {
  not_invalid = r.not_invalid;
  not_reserve = r.not_reserve;
  high_whole = r.high_whole;
  low_whole = r.low_whole;
  high_tail = r.high_tail;
  low_untouched = r.low_untouched;
  size = r.size;
}

pub opaque-SlotOk : (s : Socket) (o : ℕ) → SlotOk s → SlotOk (record s { opaque = o })
unfolding SlotOk
opaque-SlotOk s o = opaque-Fits (phase s.type) s o

pub waits_to_start :
    (t : SocketType) → (is_type t paccept || is_type t plisten) ≡ true → phase t ≡ waiting
unfolding is_type
waits_to_start invalid e = cc
waits_to_start reserve e = cc
waits_to_start plisten e = refl
waits_to_start listening e = cc
waits_to_start connecting e = cc
waits_to_start connected e = cc
waits_to_start halfclose e = cc
waits_to_start paccept e = refl
waits_to_start bound e = cc

pub waiting_blank :
    (s : Socket)
    → phase s.type ≡ waiting
    → SlotOk s
    → (s.high ≡ []) × (s.low ≡ []) × (s.wb_size ≡ 0)
unfolding SlotOk
waiting_blank s e ok = subst (λ p. Fits p s) e ok

pub started_type :
    (b : Bool)
    → (is_type (if b then connected else listening) invalid ≡ false)
      × (is_type (if b then connected else listening) reserve ≡ false)
unfolding is_type
started_type true = (refl, refl)
started_type false = (refl, refl)

pub reserved : (s : Socket) → s.type ≡ reserve → is_type s.type reserve ≡ true
unfolding is_type
reserved s e = ap (λ t. is_type t reserve) e

pub nothing_queued : (s : Socket) → s.high ≡ [] → s.low ≡ [] → send_buffer_empty s ≡ true
unfolding send_buffer_empty is_empty
nothing_queued s h l = ap₂ (λ x y. is_empty x && is_empty y) h l

pub Ready-SlotOk : (s : Socket) → phase s.type ≡ active → Ready s → SlotOk s
unfolding SlotOk
Ready-SlotOk s e r = subst (λ p. Fits p s) (sym e) r

-- A slot with write buffers is open for writing.
writing-Fits :
    (p : Phase) (s : Socket) → Fits p s → send_buffer_empty s ≡ false → (p ≡ active) × Ready s
writing-Fits free s ok e =
    let clash : true ≡ false = sym (nothing_queued s ok.0 ok.1) ∙ e in absurd cc
writing-Fits waiting s ok e =
    let clash : true ≡ false = sym (nothing_queued s ok.0 ok.1) ∙ e in absurd cc
writing-Fits active s ok e = (refl, ok)

pub writing_slot :
    (s : Socket) → SlotOk s → send_buffer_empty s ≡ false → (phase s.type ≡ active) × Ready s
unfolding SlotOk
writing_slot s = writing-Fits (phase s.type) s

pub active_slot : (s : Socket) → phase s.type ≡ active → SlotOk s → Ready s
unfolding SlotOk
active_slot s e ok = subst (λ p. Fits p s) e ok
