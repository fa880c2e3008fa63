-- ===== src/Context/Undelivered.antt =====
-- `skynet_send` of skynet-src/skynet_server.c to a handle of this node that names no service.
use skynet_note.Base.{ℕ, ◌≡◌, ◌≢◌, ◌⊎◌, none, some, get_or}
use skynet_note.Handle.{hash}
use skynet_note.Context.{Context, Node}

-- The slot of the handle is empty, or its context has another handle.
pub record Unserved (n : Node) (handle : ℕ) : Type 0 where
  pub nobody :
      (get_or n.storage.slot (hash n.storage.slot_size handle) none ≡ none)
      ⊎ ((b : ℕ) × (to : Context) × (get_or n.storage.slot (hash n.storage.slot_size handle) none
            ≡ some b)
          × (n.contexts b ≡ some to)
          × (to.handle ≢ handle))
