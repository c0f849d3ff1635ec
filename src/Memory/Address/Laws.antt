-- ===== src/Memory/Address/Laws.antt =====
-- What `parse_hexa_address` and `validate` of MMU/mmu_functions.c compute.
use cpu_scheduler.Base.{
  ℕ, zero, suc, ◌+◌, ◌*◌, ◌/◌, ◌%◌, ◌^◌, ◌≤◌, ◌<◌, ◌≡◌, refl, ◌∙◌, Bool, true, false, List, [], ◌∷◌,
  arith, ℤ, pos, minus_one, leb_ℤ, if◌then◌else◌,
}
use cpu_scheduler.Memory.Address.{has_hex_prefix, parse_hexa_address, digits_loop, validate}

-- What `strtoul` reads of an address, in the base that its prefix asks for.
abbrev pub read_number : (List ℕ → ℕ → ℕ) → List ℕ → ℕ
read_number strtoul [] = 0
read_number strtoul (c ∷ rest) = strtoul (c ∷ rest) (if has_hex_prefix (c ∷ rest) then 16 else 10)

-- The address splits into a page and an offset of four bits that make up again the number that
-- `strtoul` reads, in base 16 with a prefix 0x and in base 10 without, cut to the 32 bits of
-- `unsigned int`; an empty text gives 0. The page has 28 bits.
pub parse_hexa_address-splits :
    (strtoul : List ℕ → ℕ → ℕ) (text : List ℕ)
    → (page : ℕ) × (offset : ℕ) × (parse_hexa_address strtoul text
        ≡ record { page = pos page; offset = pos offset })
      × (page * 16 + offset ≡ read_number strtoul text % 2 ^ 32)
      × (offset < 16)
      × (page < 2 ^ 28)
unfolding parse_hexa_address
parse_hexa_address-splits strtoul [] = (0, 0, refl, omega arith, omega arith, omega arith)
parse_hexa_address-splits strtoul (c ∷ rest) =
    let n = read_number strtoul (c ∷ rest) % 2 ^ 32 in
    (n / 16, n % 16, refl, omega arith, omega arith, omega arith)

abbrev pub bit_value : Bool → ℕ
bit_value true = 1
bit_value false = 0

-- The number whose decimal digits are these bits, the last digit first.
abbrev pub decimal : List Bool → ℕ
decimal [] = 0
decimal (b ∷ bs) = bit_value b + 10 * decimal bs

-- The number that the bits stand for behind `a`, the first bit being the highest.
abbrev pub read_bits : ℕ → List Bool → ℕ
read_bits a [] = a
read_bits a (b ∷ bs) = read_bits (a * 2 + bit_value b) bs

-- No zeros in front: the bit that is written first is 1.
abbrev pub IsCanonical : List Bool → Type 0
IsCanonical [] = Unit
IsCanonical (b ∷ []) = b ≡ true
IsCanonical (b ∷ c ∷ bs) = IsCanonical (c ∷ bs)

IsCanonical-rest : (b : Bool) (bs : List Bool) → IsCanonical (b ∷ bs) → IsCanonical bs
IsCanonical-rest b [] h = tt
IsCanonical-rest b (c ∷ bs) h = h

decimal-pos : (b : Bool) (bs : List Bool) → IsCanonical (b ∷ bs) → 0 < decimal (b ∷ bs)
decimal-pos true bs h = omega arith
decimal-pos false [] h = cc
decimal-pos false (c ∷ bs) h = omega (arith, decimal-pos c bs h)

decimal-digits :
    (b : Bool) (bs : List Bool)
    → (decimal (b ∷ bs) / 10 ≡ decimal bs) × (decimal (b ∷ bs) % 10 ≡ bit_value b)
decimal-digits true bs = (omega arith, omega arith)
decimal-digits false bs = (omega arith, omega arith)

-- One pass of the loop over a number other than 0.
digits_loop-step :
    (fuel n addr : ℕ)
    → 0 < n
    → digits_loop (suc fuel) n addr ≡ digits_loop fuel (n / 10) (addr * 2 + n % 10)
unfolding digits_loop
digits_loop-step fuel n addr h = ground arith

digits_loop-read :
    (fuel : ℕ) (bs : List Bool) (a : ℕ)
    → IsCanonical bs
    → decimal bs ≤ fuel
    → digits_loop fuel (decimal bs) a ≡ read_bits a bs
unfolding digits_loop
digits_loop-read zero [] a h k = refl
digits_loop-read zero (b ∷ bs) a h k = absurd (omega (arith, decimal-pos b bs h))
digits_loop-read (suc fuel) [] a h k = refl
digits_loop-read (suc fuel) (b ∷ bs) a h k =
    let (q, r) = decimal-digits b bs in
    let p = decimal-pos b bs h in
    digits_loop-step fuel (decimal (b ∷ bs)) a p
    ∙ rw (q, r)
        (digits_loop-read fuel bs (a * 2 + bit_value b) (IsCanonical-rest b bs h) (omega arith))

-- For an address of binary digits without zeros in front, the loop ends and `validate` reads the
-- bits from the last digit to the first one, the last as the highest; the page is that number over
-- 16 if it is not over the limit, and -1 if it is.
pub validate-reversed :
    (limit : ℤ) (bs : List Bool)
    → IsCanonical bs
    → validate limit (pos (decimal bs))
      ≡ (let page = pos (read_bits 0 bs / 16) in if leb_ℤ page limit then page else minus_one)
unfolding validate
validate-reversed limit bs h = rw (digits_loop-read (decimal bs) bs 0 h (omega arith)) refl
