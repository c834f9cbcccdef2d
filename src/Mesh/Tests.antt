-- ===== src/Mesh/Tests.antt =====
-- Runs of the mesh theorems at concrete windows and schedules.
use hart_link.Common.{ℕ, ◌+◌, ◌≡◌, refl, true, false, List, [], ◌∷◌, any, length, ok}
use hart_link.Mesh.Replay.{ReplayWindow, new_window, accept}
use hart_link.Mesh.Replay.History.{
  Remembers, Distinct, admitted, verdict, new_window-Remembers, admitted-Distinct, accept-verdict,
  accept-Remembers,
}
use hart_link.Mesh.Schedule.{
  Cell, Schedule, transmit, new_schedule, insert, remove_device, involves, search_index,
}
use hart_link.Mesh.Schedule.Conflicts.{
  IsSchedule, new_schedule-IsSchedule, insert-IsSchedule, remove_device-IsSchedule,
}

-- Counters out of order, repeated, and too old.
abbrev counters : List ℕ
counters = 5 ∷ 7 ∷ 6 ∷ 7 ∷ 100 ∷ 30 ∷ 99 ∷ 5 ∷ []

admitted-Distinct_example : Distinct (admitted new_window [] counters)
admitted-Distinct_example = admitted-Distinct counters

-- The window after the counter 70.
abbrev window_after : ReplayWindow
window_after = record { highest = 70; seen = 1; initialized = true }

window_after-Remembers : Remembers window_after (70 ∷ [])
unfolding accept
window_after-Remembers = accept-Remembers new_window [] new_window-Remembers 70

accept-verdict_example : (accept window_after 6).0 ≡ verdict window_after (70 ∷ []) 6
accept-verdict_example = accept-verdict window_after (70 ∷ []) window_after-Remembers 6

abbrev empty_schedule : Schedule
empty_schedule = record { superframe_size = 10; cells = [] }

abbrev cell : Cell
cell = record {
  timeslot = 3;
  channel_offset = 2;
  source = 8;
  destination = 9;
  direction = transmit;
}

abbrev one_cell : Schedule
one_cell = record { superframe_size = 10; cells = cell ∷ [] }

empty_schedule-IsSchedule : IsSchedule empty_schedule
unfolding new_schedule
empty_schedule-IsSchedule = (new_schedule-IsSchedule 10 empty_schedule refl).0

cell_inserted : insert empty_schedule cell ≡ ok one_cell
unfolding insert search_index
cell_inserted = refl

insert-IsSchedule_example : IsSchedule one_cell
insert-IsSchedule_example =
    insert-IsSchedule empty_schedule one_cell cell empty_schedule-IsSchedule cell_inserted

one_cell-IsSchedule : IsSchedule one_cell
one_cell-IsSchedule =
    insert-IsSchedule empty_schedule one_cell cell empty_schedule-IsSchedule cell_inserted

remove_device-IsSchedule_example :
    IsSchedule (remove_device one_cell 8).0
    × (any (involves 8) (remove_device one_cell 8).0.cells ≡ false)
    × (length (remove_device one_cell 8).0.cells + (remove_device one_cell 8).1 ≡ 1)
remove_device-IsSchedule_example = remove_device-IsSchedule one_cell 8 one_cell-IsSchedule
