-- ===== src/Mesh/Schedule.antt =====
-- src/mesh/topology.rs: the time-frequency schedule. A device identifier, eight bytes in the source, is
-- the number that they stand for in order, so that comparison is the same.
pub mod Conflicts
use hart_link.Common.{
  ℕ, suc, ◌-◌, Bool, true, false, not, ◌&&◌, ◌||◌, List, [], ◌∷◌, ◌++◌, length, take, drop, any,
  retain, ltb, leb, ◌==◌, if◌then◌else◌, Result, ok, err,
}

abbrev pub DeviceId : Type 0
DeviceId = ℕ

pub data CellDirection : Type 0 where
  transmit receive shared : CellDirection

pub record Cell : Type 0 where
  pub timeslot : ℕ
  pub channel_offset : ℕ
  pub source : DeviceId
  pub destination : DeviceId
  pub direction : CellDirection

pub record Schedule : Type 0 where
  pub superframe_size : ℕ
  pub cells : List Cell

pub data ScheduleError : Type 0 where
  empty_superframe : ScheduleError
  bad_timeslot : ℕ → ScheduleError
  bad_channel : ℕ → ScheduleError
  loopback : ScheduleError
  conflict : ℕ → ScheduleError
  radio_conflict : (timeslot channel : ℕ) → ScheduleError

unfoldable pub new_schedule : ℕ → Result ScheduleError Schedule
new_schedule superframe_size =
    if superframe_size == 0
    then err empty_superframe
    else ok (record { superframe_size = superframe_size; cells = [] })

-- The two cells need one device in one timeslot.
unfoldable pub device_conflict : Cell → Cell → Bool
device_conflict existing cell =
    (existing.timeslot == cell.timeslot)
    && ((existing.source == cell.source)
        || ((existing.source == cell.destination)
            || ((existing.destination == cell.source)
                || (existing.destination == cell.destination))))

-- The two cells are one place of the time-frequency grid.
unfoldable pub radio_overlap : Cell → Cell → Bool
radio_overlap existing cell =
    (existing.timeslot == cell.timeslot) && (existing.channel_offset == cell.channel_offset)

-- The order of the keys `(timeslot, channel_offset)`.
unfoldable pub key_before : Cell → Cell → Bool
key_before a b =
    ltb a.timeslot b.timeslot
    || ((a.timeslot == b.timeslot) && ltb a.channel_offset b.channel_offset)

-- `binary_search_by_key(..).unwrap_or_else(|index| index)`: on cells sorted by a key that the new
-- cell does not share, the documented result is the number of cells before it.
unfoldable pub search_index : Cell → List Cell → ℕ
search_index cell [] = 0
search_index cell (c ∷ cs) = elim (key_before c cell) [
  | true ↦ suc (search_index cell cs)
  | false ↦ 0
]

-- `Vec::insert`
abbrev pub insert_at : ℕ → Cell → List Cell → List Cell
insert_at index cell cells = take index cells ++ cell ∷ drop index cells

unfoldable pub insert : Schedule → Cell → Result ScheduleError Schedule
insert s cell =
    if leb s.superframe_size cell.timeslot
    then err (bad_timeslot cell.timeslot)
    else if ltb 15 cell.channel_offset
    then err (bad_channel cell.channel_offset)
    else if cell.source == cell.destination
    then err loopback
    else if any (λ existing. device_conflict existing cell) s.cells
    then err (conflict cell.timeslot)
    else if any (λ existing. radio_overlap existing cell) s.cells
    then err (radio_conflict cell.timeslot cell.channel_offset)
    else ok (record s { cells = insert_at (search_index cell s.cells) cell s.cells })

unfoldable pub involves : DeviceId → Cell → Bool
involves device cell = (cell.source == device) || (cell.destination == device)

-- `remove_device`: the new schedule and the number of cells removed.
unfoldable pub remove_device : Schedule → DeviceId → Schedule × ℕ
unfolding involves
remove_device s device =
    let kept = retain (λ cell. not (involves device cell)) s.cells in
    (record s { cells = kept }, length s.cells - length kept)
