-- ===== src/Memory/Address.antt =====
-- `parse_hexa_address` and `validate` of MMU/mmu_functions.c.
pub mod Laws
use cpu_scheduler.Base.{
  ℕ, zero, suc, ◌+◌, ◌*◌, ◌/◌, ◌%◌, ◌^◌, Bool, true, false, ◌&&◌, ◌||◌, List, [], ◌∷◌, ℤ, pos,
  negsuc, minus_one, ◌-ℤ◌, leb_ℤ, ◌==◌, if◌then◌else◌,
}
use cpu_scheduler.Types.{VirtualAddress}

-- `address[0] == '0' && (address[1] == 'x' || address[1] == 'X')`
unfoldable pub has_hex_prefix : List ℕ → Bool
has_hex_prefix [] = false
has_hex_prefix (c ∷ []) = false
has_hex_prefix (c ∷ d ∷ _) = c == b'0' && (d == b'x' || d == b'X')

-- `strtoul text base` is the C library's; its result is cut to `unsigned int`.
unfoldable pub parse_hexa_address : (List ℕ → ℕ → ℕ) → List ℕ → VirtualAddress
unfolding has_hex_prefix
parse_hexa_address strtoul [] = record { page = pos 0; offset = pos 0 }
parse_hexa_address strtoul (c ∷ rest) =
    let text : List ℕ = c ∷ rest in
    let addr = strtoul text (if has_hex_prefix text then 16 else 10) % 2 ^ 32 in
    record { page = pos (addr / 16); offset = pos (addr % 16) }

-- The loop of `validate` over the digits of |address|; the fuel |address| is enough.
unfoldable pub digits_loop : ℕ → ℕ → ℕ → ℕ
digits_loop zero address addr = addr
digits_loop (suc fuel) address addr = elim (address == 0) [
  | true ↦ addr
  | false ↦ digits_loop fuel (address / 10) (addr * 2 + address % 10)
]

-- C's `/` rounds towards zero, so a negative address gives the negated quotient.
unfoldable pub validate : (limit address : ℤ) → ℤ
unfolding digits_loop
validate limit (pos n) =
    let page = pos (digits_loop n n 0 / 16) in if leb_ℤ page limit then page else minus_one
validate limit (negsuc n) =
    let page = pos 0 -ℤ pos (digits_loop (suc n) (suc n) 0 / 16) in
    if leb_ℤ page limit then page else minus_one
