-- ===== src/Examples/Sets.antt =====
-- Runs of src/VSet.hpp on small sets.
use rustmc.Prelude.{[], ◌∷◌, arith}
use rustmc.VSet.{VSet, insert_set, erase_set}
use rustmc.VSet.Order.{IsSorted}
use rustmc.VSet.Merge.Insert.{IsUnion, insert_set-IsUnion}
use rustmc.VSet.Erase.Difference.{IsDifference, erase_set-IsDifference}

abbrev odds : VSet
odds = 1 ∷ 3 ∷ 5 ∷ 7 ∷ []

abbrev middle : VSet
middle = 2 ∷ 3 ∷ 4 ∷ 5 ∷ []

odds-IsSorted : IsSorted odds
odds-IsSorted = (omega arith, (omega arith, (omega arith, (omega arith, tt))))

middle-IsSorted : IsSorted middle
middle-IsSorted = (omega arith, (omega arith, (omega arith, (omega arith, tt))))

insert_set-IsUnion_example : IsUnion odds middle (insert_set odds middle)
insert_set-IsUnion_example = insert_set-IsUnion odds middle odds-IsSorted middle-IsSorted

erase_set-IsDifference_example : IsDifference odds middle (erase_set odds middle)
erase_set-IsDifference_example = erase_set-IsDifference odds middle odds-IsSorted middle-IsSorted
