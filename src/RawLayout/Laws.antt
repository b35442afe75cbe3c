-- ===== src/RawLayout/Laws.antt =====
-- The size field of raw layouts.
use garbagecollector.Base.{ℕ, ◌+◌, ◌*◌, ◌%◌, ◌^◌, ◌<◌, ◌≡◌, arith}
use garbagecollector.Word.{shl, shr}
use garbagecollector.BitManip.Arithmetic.{or-shl}
use garbagecollector.RawLayout.{to_raw_layout, get_size, create_raw_header}

-- `get_size` reads back what `to_raw_layout` stored, the two highest bits dropped.
pub get_size-to_raw_layout : (size : ℕ) → get_size (to_raw_layout size) ≡ size % 2 ^ 62
unfolding get_size to_raw_layout shl shr
get_size-to_raw_layout size = omega arith

pub create_raw_header-eq-add :
    (bytes : ℕ) → bytes < 2 ^ 62 → create_raw_header bytes ≡ bytes * 4 + 2
unfolding create_raw_header
create_raw_header-eq-add bytes h = or-shl 2 bytes 2 (omega arith) (omega arith)
