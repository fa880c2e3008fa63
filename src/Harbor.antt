-- ===== src/Harbor.antt =====
-- Which handles are remote, in skynet-src/skynet_harbor.c.
pub mod Remote
mod Tests
use skynet_note.Base.{ℕ, ◌*◌, ◌%◌, ◌^◌, bit_and, Bool, not, ◌&&◌, ◌==◌}

-- `skynet_harbor_init`: the number that `HARBOR` gets
unfoldable pub harbor_init : ℕ → ℕ
harbor_init harbor = harbor * 2 ^ 24 % 2 ^ 32

-- `skynet_harbor_message_isremote`, with `HARBOR` as its first argument; `~HANDLE_MASK` is
-- 0xff000000.
unfoldable pub harbor_message_isremote : ℕ → ℕ → Bool
harbor_message_isremote harbor handle =
    let h = bit_and handle 0xff000000 in not (h == harbor) && not (h == 0)
