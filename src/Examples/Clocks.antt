-- ===== src/Examples/Clocks.antt =====
-- Runs of src/View.hpp and src/DepView.hpp on small clocks.
use rustmc.Prelude.{ℕ, ◌≡◌, ◌||◌, some, [], ◌∷◌}
use rustmc.Event.{Event}
use rustmc.View.{View}
use rustmc.View
use rustmc.View.Laws.{contains-update}
use rustmc.DepView.{DepView, set_max, update_idx, update}
use rustmc.DepView.Seen.Update.{Sees, update_idx-Sees}
use rustmc.DepView.Seen.SetMax.{Cuts, set_max-Cuts}
use rustmc.DepView.Runs.{one_thread, two_threads, one_thread-IsClock, two_threads-IsClock}
use rustmc.DepView.Join.{Joins, update-Joins}

abbrev at : ℕ → ℕ → Event
at t i = record { thread = t; index = i }

abbrev short_view : View
short_view = record { view = 4 ∷ [] }

abbrev long_view : View
long_view = record { view = 2 ∷ 0 ∷ 7 ∷ [] }

contains-update_example :
    View.contains (View.update short_view long_view) (at 2 5)
    ≡ (View.contains short_view (at 2 5) || View.contains long_view (at 2 5))
contains-update_example = contains-update short_view long_view (at 2 5)

update-Joins_example :
    (d : DepView) × (update one_thread two_threads ≡ some d) × Joins one_thread two_threads d
update-Joins_example = update-Joins one_thread two_threads one_thread-IsClock two_threads-IsClock

update_idx-Sees_example :
    (d : DepView) × (update_idx one_thread (at 0 8) ≡ some d) × Sees one_thread (at 0 8) d
update_idx-Sees_example = update_idx-Sees one_thread (at 0 8) one_thread-IsClock

set_max-Cuts_example :
    (d : DepView) × (set_max two_threads (at 0 4) ≡ some d) × Cuts two_threads (at 0 4) d
set_max-Cuts_example = set_max-Cuts two_threads (at 0 4) two_threads-IsClock
