-- ===== src/NbStack/Layout.antt =====
-- The word of the stack gives back the address and the version that were packed into it.
use compact_fit.Base.{ℕ, ◌+◌, ◌-◌, ◌*◌, ◌/◌, ◌%◌, ◌^◌, ◌<◌, ◌≡◌, arith}
use compact_fit.Bits.{and-mask, or-fields}
use compact_fit.NbStack.{Format, page_format, aa_format, lifo_to_elem, lifo_to_count, pack}

-- An address that the format can hold, and a version before it wraps.
pub record Fits (f : Format) (p count : ℕ) : Type 0 where
  pub aligned : p % 2 ^ f.shift ≡ 0
  pub address : p < 2 ^ 32
  pub version : count < 2 ^ (64 - f.bits)

-- What the stack needs of a format.
pub record IsFormat (f : Format) : Type 0 where
  pub elem_pack : (p count : ℕ) → Fits f p count → lifo_to_elem f (pack f p count) ≡ p
  pub count_pack : (p count : ℕ) → Fits f p count → lifo_to_count f (pack f p count) ≡ count

page_sum :
    (p count : ℕ)
    → Fits page_format p count
    → pack page_format p count ≡ p / 2 ^ 14 + count * 2 ^ 18
unfolding pack
page_sum p count h =
    let e : p % 2 ^ 32 ≡ p = omega (arith, h.address) in
    let e' : count * 2 ^ 18 % 2 ^ 64 ≡ count * 2 ^ 18 = omega (arith, h.version) in
    rw (e, e') (or-fields 18 count (p / 2 ^ 14) (omega (arith, h.address)))

page_elem :
    (p count : ℕ)
    → Fits page_format p count
    → lifo_to_elem page_format (pack page_format p count) ≡ p
unfolding lifo_to_elem
page_elem p count h =
    rw (page_sum p count h, and-mask 18 ((p / 2 ^ 14 + count * 2 ^ 18) % 2 ^ 32))
      (omega (arith, h.aligned, h.address))

page_count :
    (p count : ℕ)
    → Fits page_format p count
    → lifo_to_count page_format (pack page_format p count) ≡ count
unfolding lifo_to_count
page_count p count h = rw (page_sum p count h) (omega (arith, h.address))

-- The word of the page stack gives back the aligned address and the version packed into it.
pub page-IsFormat : IsFormat page_format
page-IsFormat = record { elem_pack = page_elem; count_pack = page_count }

aa_sum :
    (p count : ℕ) → Fits aa_format p count → pack aa_format p count ≡ p / 2 ^ 2 + count * 2 ^ 30
unfolding pack
aa_sum p count h =
    let e : p % 2 ^ 32 ≡ p = omega (arith, h.address) in
    let e' : count * 2 ^ 30 % 2 ^ 64 ≡ count * 2 ^ 30 = omega (arith, h.version) in
    rw (e, e') (or-fields 30 count (p / 2 ^ 2) (omega (arith, h.address)))

aa_elem :
    (p count : ℕ) → Fits aa_format p count → lifo_to_elem aa_format (pack aa_format p count) ≡ p
unfolding lifo_to_elem
aa_elem p count h =
    rw (aa_sum p count h, and-mask 30 ((p / 2 ^ 2 + count * 2 ^ 30) % 2 ^ 32))
      (omega (arith, h.aligned, h.address))

aa_count :
    (p count : ℕ)
    → Fits aa_format p count
    → lifo_to_count aa_format (pack aa_format p count) ≡ count
unfolding lifo_to_count
aa_count p count h = rw (aa_sum p count h) (omega (arith, h.address))

-- The word of the abstract address stacks gives back the aligned address and the version packed into it.
pub aa-IsFormat : IsFormat aa_format
aa-IsFormat = record { elem_pack = aa_elem; count_pack = aa_count }
