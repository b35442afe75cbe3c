-- ===== src/Footer/Laws.antt =====
-- What a footer says, and which words are footers.
use garbagecollector.Base.{ℕ, ◌+◌, ◌*◌, ◌/◌, ◌^◌, ◌<◌, ◌≡◌, ◌↔◌, true, arith, ==_iff}
use garbagecollector.Word.{shr}
use garbagecollector.BitManip.Arithmetic.{or-shl, mask_from_msb-eq-mod}
use garbagecollector.BitVector.{get_size_bits_field}
use garbagecollector.Footer.{footer_identifier, create_footer, confirm_tag}

pub create_footer-eq-add :
    (size : ℕ) → size < 256 → create_footer size ≡ size * 2 ^ 56 + footer_identifier
unfolding create_footer
create_footer-eq-add size h = or-shl 56 size footer_identifier (omega arith) (omega arith)

pub create_footer-lt : (size : ℕ) → size < 256 → create_footer size < 2 ^ 64
create_footer-lt size h = omega (arith, create_footer-eq-add size h)

-- `get_size_bits_field` reads back the size that a footer was made with.
pub get_size_bits_field-create_footer :
    (size : ℕ) → size < 256 → get_size_bits_field (create_footer size) ≡ size
unfolding get_size_bits_field shr
get_size_bits_field-create_footer size h = omega (arith, create_footer-eq-add size h)

-- `confirm_tag` accepts a word exactly if it is the footer of the size in its first byte.
pub confirm_tag_iff :
    (tag : ℕ)
    → tag < 2 ^ 64
    → (confirm_tag tag ≡ true) ↔ (tag ≡ create_footer (get_size_bits_field tag))
unfolding confirm_tag get_size_bits_field shr
confirm_tag_iff tag small =
    let low = mask_from_msb-eq-mod tag 8 (omega arith) small in
    let word = create_footer-eq-add (tag / 2 ^ 56) (omega arith) in
    (λ h. let e = (==_iff _ _).0 h in omega arith, λ h. (==_iff _ _).1 (omega arith))
