-- ===== src/Tests/Addresses.antt =====
-- Tests of the properties of addresses, and of the search for a frame.
use cpu_scheduler.Base.{ℕ, ◌+◌, ◌*◌, ◌%◌, ◌^◌, ◌<◌, ◌≡◌, refl, true, false, [], ◌∷◌, pos}
use cpu_scheduler.Memory.Address.{parse_hexa_address, validate}
use cpu_scheduler.Memory.Address.Laws.{parse_hexa_address-splits, validate-reversed}
use cpu_scheduler.Memory.Victim.{choose_frame}
use cpu_scheduler.Memory.Victim.Nru.{IsNruChoice, choose_frame-IsNruChoice}
use cpu_scheduler.Tests.Frames.{frames}

-- The text 0x1F, which is the number 31.
parse_hexa_address-splits_example :
    (page : ℕ) × (offset : ℕ) × (parse_hexa_address
        (λ text base. 31)
        (b'0' ∷ b'x' ∷ b'1' ∷ b'F' ∷ [])
      ≡ record { page = pos page; offset = pos offset })
    × (page * 16 + offset ≡ 31 % 2 ^ 32)
    × (offset < 16)
    × (page < 2 ^ 28)
parse_hexa_address-splits_example =
    parse_hexa_address-splits (λ text base. 31) (b'0' ∷ b'x' ∷ b'1' ∷ b'F' ∷ [])

-- The digits 10000, for the number 16, are read as 1: page 0 in place of page 1.
validate-reversed_example : validate (pos 3) (pos 10000) ≡ pos 0
validate-reversed_example =
    validate-reversed (pos 3) (false ∷ false ∷ false ∷ false ∷ true ∷ []) refl

choose_frame-IsNruChoice_example : IsNruChoice frames (choose_frame frames)
choose_frame-IsNruChoice_example = choose_frame-IsNruChoice frames
