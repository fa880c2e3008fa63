-- ===== src/Harbor/Tests.antt =====
-- Remote and local handles of skynet-src/skynet_harbor.c at concrete inputs.
use skynet_note.Base.{
  ℕ, ◌^◌, ◌<◌, ◌≡◌, ◌≢◌, refl, ◌∙◌, sym, false, none, some, arith, get_or-replicate,
}
use skynet_note.Base.Run.{done}
use skynet_note.Harbor.{harbor_init, harbor_message_isremote}
use skynet_note.Harbor.Remote.{harbor_message_isremote-register}
use skynet_note.Handle.{Registered, handle_init, register}
use skynet_note.Handle.Register.{Fresh}
use skynet_note.Handle.Init.{handle_init_lem}

abbrev own_number : ℕ → ℕ
own_number c = c

no_number : (a : ℕ) → none ≢ some a
no_number a e = cc

init-Fresh : Fresh (handle_init 1) 100
unfolding Fresh handle_init
init-Fresh i e = no_number 100 (sym (get_or-replicate 4 i none) ∙ e)

init_harbor : (handle_init 1).harbor ≡ harbor_init 1
unfolding handle_init harbor_init
init_harbor = refl

harbor_message_isremote-register_example :
    (r : Registered) × (register 2 own_number (handle_init 1) 100 ≡ done r)
    × (r.handle < 2 ^ 32)
    × (harbor_message_isremote (harbor_init 1) r.handle ≡ false)
harbor_message_isremote-register_example =
    harbor_message_isremote-register 0 1 own_number (handle_init 1) 100 2
      (handle_init_lem own_number 1).0 init_harbor init-Fresh (omega arith)
