-- ===== src/Examples/Queue.antt =====
-- The work list of src/GenMCDriver.cpp with items at two stamps.
use rustmc.Prelude.{List, ℕ, ◌≡◌, ◌==◌, [], ◌∷◌, if◌then◌else◌, arith}
use rustmc.Worklist.{Worklist, add_to_worklist, get_next_item}
use rustmc.Worklist.Stacks.{
  IsOrdered, waiting, IsAnswer, waiting-add_to_worklist, get_next_item-IsAnswer,
}

-- Nothing waits at the greatest stamp, two items wait at the next one.
abbrev two_waiting : Worklist ℕ
two_waiting =
    record { stamp = 9; wset = [] }
    ∷ record { stamp = 6; wset = 61 ∷ 60 ∷ [] }
    ∷ record { stamp = 2; wset = 20 ∷ [] }
    ∷ []

two_waiting-IsOrdered : IsOrdered two_waiting
two_waiting-IsOrdered = (omega arith, (omega arith, tt))

waiting-add_to_worklist_example :
    (waiting 4 (add_to_worklist 4 40 two_waiting)
      ≡ (if 4 == 4 then 40 ∷ waiting 4 two_waiting else waiting 4 two_waiting))
    × IsOrdered (add_to_worklist 4 40 two_waiting)
waiting-add_to_worklist_example = waiting-add_to_worklist 4 4 40 two_waiting two_waiting-IsOrdered

get_next_item-IsAnswer_example : IsAnswer two_waiting (get_next_item two_waiting)
get_next_item-IsAnswer_example = get_next_item-IsAnswer two_waiting two_waiting-IsOrdered

abbrev two_choices : List (ℕ × ℕ)
two_choices = (2, 20) ∷ (5, 50) ∷ []
