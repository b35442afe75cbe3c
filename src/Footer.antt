-- ===== src/Footer.antt =====
-- src/header/footer.c: the word behind an object, 8 bits of size over a 56-bit tag.
pub mod Laws
use garbagecollector.Base.{ℕ, bit_or, Bool, ◌==◌}
use garbagecollector.Word.{shl}
use garbagecollector.BitManip.{mask_from_msb}

abbrev pub footer_identifier : ℕ
footer_identifier = 0x00DEADBEEFCAFEBA

-- `size` is a `uint8_t`.
unfoldable pub create_footer : ℕ → ℕ
create_footer size = let footer = shl size 56 in bit_or footer footer_identifier

unfoldable pub confirm_tag : ℕ → Bool
confirm_tag tag = mask_from_msb tag 8 == footer_identifier
