-- ===== src/RawLayout.antt =====
-- src/header/raw_layout.c: the header word of raw data, its size over the type bits.
pub mod Laws
use garbagecollector.Base.{ℕ, bit_or}
use garbagecollector.Word.{shl, shr}

unfoldable pub to_raw_layout : ℕ → ℕ
to_raw_layout size = shl size 2

unfoldable pub get_size : ℕ → ℕ
get_size raw = shr raw 2

-- The new header's `data`.
unfoldable pub create_raw_header : ℕ → ℕ
create_raw_header bytes = bit_or (shl bytes 2) 2
