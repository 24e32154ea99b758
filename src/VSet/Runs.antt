-- ===== src/VSet/Runs.antt =====
-- src/VSet.tcc: the bulk operations run on small sets.
use rustmc.Prelude.{◌≡◌, refl, [], ◌∷◌}
use rustmc.VSet.{
  VSet, insert_at, insert, count_new, fill, grow_fill, insert_set, last_or, insert_max,
  insert_range, sweep_round, sweep, move_down, sweep_end, erase_set,
}

abbrev odds : VSet
odds = 1 ∷ 3 ∷ 5 ∷ 7 ∷ []

insert_set_run : insert_set odds (2 ∷ 3 ∷ 8 ∷ []) ≡ (1 ∷ 2 ∷ 3 ∷ 5 ∷ 7 ∷ 8 ∷ [], 2)
unfolding insert_set count_new fill grow_fill
insert_set_run = refl

erase_set_run : erase_set odds (2 ∷ 3 ∷ 5 ∷ []) ≡ (1 ∷ 7 ∷ [], 2)
unfolding erase_set sweep sweep_round sweep_end move_down
erase_set_run = refl

insert_range_run : insert_range odds (9 ∷ 4 ∷ 9 ∷ []) ≡ 1 ∷ 3 ∷ 4 ∷ 5 ∷ 7 ∷ 9 ∷ []
unfolding insert_range insert_max last_or insert insert_at
insert_range_run = refl
