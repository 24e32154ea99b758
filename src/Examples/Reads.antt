-- ===== src/Examples/Reads.antt =====
-- Runs of enumerateRfOptions of src/GenMCDriver.cpp on two stores.
use rustmc.Prelude.{◌≡◌, Bool, true, none, some, List, [], ◌∷◌, arith}
use mathlib.Core.List.{reverse}
use rustmc.Event.{init}
use rustmc.SAddr.{align}
use rustmc.SAddr.Fields.{get_byte-mod}
use rustmc.MemAccess.{AAccess, unsigned, fragment}
use rustmc.RfOptions.{Store, RfsT, enumerate_options}
use rustmc.RfOptions.Ways.{ways, enumerate_options-ways}
use rustmc.RfOptions.Covers.{Covers, All, IsInOneWord, enumerate_options-Covers}

abbrev whole_word : AAccess
whole_word = record { addr = 64; size = 8; atype = unsigned }

abbrev upper_half : Store
upper_half = record {
  pos = record { thread = 1; index = 2 };
  access = some (record { addr = 68; size = 4; atype = unsigned });
}

abbrev initial : Store
initial = record { pos = init; access = none }

abbrev any_piece : Store → AAccess → Bool
any_piece s a = true

whole_word-IsInOneWord : IsInOneWord whole_word
whole_word-IsInOneWord = omega (arith, get_byte-mod 64)

enumerate_options-ways_example :
    enumerate_options any_piece (upper_half ∷ initial ∷ []) whole_word (upper_half.pos ∷ [])
    ≡ some (
        reverse (
          ways
            (align 64)
            any_piece
            (upper_half ∷ initial ∷ [])
            (fragment whole_word)
            (upper_half.pos ∷ [])))
enumerate_options-ways_example =
    enumerate_options-ways any_piece (upper_half ∷ initial ∷ []) whole_word (upper_half.pos ∷ [])

enumerate_options-Covers_example :
    (options : List RfsT) × (enumerate_options any_piece
        (upper_half ∷ initial ∷ [])
        whole_word
        (upper_half.pos ∷ [])
      ≡ some options)
    × All (Covers (fragment whole_word) (upper_half.pos ∷ [])) options
enumerate_options-Covers_example =
    enumerate_options-Covers any_piece (upper_half ∷ initial ∷ []) whole_word (upper_half.pos ∷ [])
      whole_word-IsInOneWord
