-- ===== src/Mesh/Schedule/Conflicts.antt =====
-- Every schedule that is built by `insert` and `remove_device` is free of conflicts, and in order.
use hart_link.Common.{
  ℕ, zero, suc, ◌+◌, ◌≤◌, ◌<◌, ◌≡◌, refl, arith, sym, subst, ◌∙◌, Bool, true, false, not, List, [],
  ◌∷◌, length, any, retain, All, ◌==◌, ok, Bool-cases, inl, inr,
}
use hart_link.Mesh.Schedule.{
  Cell, Schedule, new_schedule, device_conflict, radio_overlap, key_before, search_index, insert_at,
  insert, involves, remove_device, DeviceId,
}

-- The cell has its place in the superframe and connects two devices.
pub record IsCell (size : ℕ) (c : Cell) : Type 0 where
  pub in_frame : c.timeslot < size
  pub in_table : c.channel_offset ≤ 15
  pub two_ends : (c.source == c.destination) ≡ false

-- The cells share no device in a timeslot and no radio cell, and the first is before the second.
pub record Apart (a b : Cell) : Type 0 where
  pub devices : device_conflict a b ≡ false
  pub radio : radio_overlap a b ≡ false
  pub order : key_before a b ≡ true

abbrev pub AllApart : List Cell → Type 0
AllApart [] = Unit
AllApart (c ∷ cs) = All (Apart c) cs × AllApart cs

pub record IsSchedule (s : Schedule) : Type 0 where
  pub cells_fit : All (IsCell s.superframe_size) s.cells
  pub apart : AllApart s.cells

pub new_schedule-IsSchedule :
    (n : ℕ) (s : Schedule) → new_schedule n ≡ ok s → IsSchedule s × (0 < s.superframe_size)
unfolding new_schedule
new_schedule-IsSchedule n s e = ground arith

symmetric : (a b : Cell) → device_conflict a b ≡ device_conflict b a
unfolding device_conflict
symmetric a b = ground arith

-- Two cells that do not overlap are ordered one way or the other.
before_or_after :
    (a b : Cell) → radio_overlap a b ≡ false → key_before a b ≡ false → key_before b a ≡ true
unfolding radio_overlap key_before
before_or_after a b r k = ground arith

before_trans :
    (a b c : Cell) → key_before a b ≡ true → key_before b c ≡ true → key_before a c ≡ true
unfolding key_before
before_trans a b c h k = ground arith

radio_symmetric : (a b : Cell) → radio_overlap a b ≡ radio_overlap b a
unfolding radio_overlap
radio_symmetric a b = ground arith

-- The cell conflicts with none of the list.
abbrev Free : Cell → Cell → Type 0
Free cell c = (device_conflict c cell ≡ false) × (radio_overlap c cell ≡ false)

any_none : (p : Cell → Bool) (cs : List Cell) → any p cs ≡ false → All (λ c. p c ≡ false) cs
any_none p [] e = tt
any_none p (c ∷ cs) e = (ground arith, any_none p cs (ground arith))

All-insert_at :
    (P : Cell → Type 0) (i : ℕ) (x : Cell) (cs : List Cell)
    → P x
    → All P cs
    → All P (insert_at i x cs)
All-insert_at P zero x cs h k = (h, k)
All-insert_at P (suc i) x [] h k = (h, k)
All-insert_at P (suc i) x (c ∷ cs) h k = (k.0, All-insert_at P i x cs h k.1)

Apart-front : (cell c x : Cell) → Free cell x → key_before cell c ≡ true → Apart c x → Apart cell x
Apart-front cell c x f k a = record {
  devices = symmetric cell x ∙ f.0;
  radio = radio_symmetric cell x ∙ f.1;
  order = before_trans cell c x k a.order;
}

All-Apart_front :
    (cell c : Cell) (cs : List Cell)
    → All (Free cell) cs
    → key_before cell c ≡ true
    → All (Apart c) cs
    → All (Apart cell) cs
All-Apart_front cell c [] f k a = tt
All-Apart_front cell c (x ∷ cs) f k a =
    (Apart-front cell c x f.0 k a.0, All-Apart_front cell c cs f.1 k a.1)

AllApart-insert_at :
    (cell : Cell) (cs : List Cell)
    → All (Free cell) cs
    → AllApart cs
    → AllApart (insert_at (search_index cell cs) cell cs)
unfolding search_index
AllApart-insert_at cell [] f a = (tt, tt)
AllApart-insert_at cell (c ∷ cs) f a = elim (Bool-cases (key_before c cell)) [
  | inl before ↦
      rw (before, search_index)
        (
          All-insert_at (Apart c) (search_index cell cs) cell cs
              (record { devices = f.0.0; radio = f.0.1; order = before }) a.0,
          AllApart-insert_at cell cs f.1 a.1,
        )
  | inr after ↦
      let first = before_or_after c cell f.0.1 after in
      rw (after, search_index)
        (
          (
            record {
              devices = symmetric cell c ∙ f.0.0;
              radio = radio_symmetric cell c ∙ f.0.1;
              order = first;
            },
            All-Apart_front cell c cs f.1 first a.0,
          ),
          a,
        )
]

All-Free :
    (cell : Cell) (cs : List Cell)
    → All (λ c. device_conflict c cell ≡ false) cs
    → All (λ c. radio_overlap c cell ≡ false) cs
    → All (Free cell) cs
All-Free cell [] d r = tt
All-Free cell (c ∷ cs) d r = ((d.0, r.0), All-Free cell cs d.1 r.1)

-- What `insert` has checked when it succeeds, and the schedule that it makes.
insert_checks :
    (s t : Schedule) (cell : Cell)
    → insert s cell ≡ ok t
    → IsCell s.superframe_size cell
      × (any (λ c. device_conflict c cell) s.cells ≡ false)
      × (any (λ c. radio_overlap c cell) s.cells ≡ false)
      × (t ≡ record s { cells = insert_at (search_index cell s.cells) cell s.cells })
unfolding insert
insert_checks s t cell e = (
  record { in_frame = ground arith; in_table = ground arith; two_ends = ground arith },
  ground arith,
  ground arith,
  ground arith,
)

-- A successful `insert` keeps the schedule free of conflicts: cells in their bounds, no device twice
-- in a timeslot, no radio cell twice, in the order of the superframe.
pub insert-IsSchedule :
    (s t : Schedule) (cell : Cell) → IsSchedule s → insert s cell ≡ ok t → IsSchedule t
insert-IsSchedule s t cell v e =
    let (fits, devices, radio, made) = insert_checks s t cell e in
    subst IsSchedule (sym made) (record {
      cells_fit =
          All-insert_at (IsCell s.superframe_size) (search_index cell s.cells) cell s.cells fits
            v.cells_fit;
      apart =
          AllApart-insert_at cell s.cells
            (All-Free cell s.cells (any_none _ s.cells devices) (any_none _ s.cells radio)) v.apart;
    })

All-retain : (P : Cell → Type 0) (p : Cell → Bool) (cs : List Cell) → All P cs → All P (retain p cs)
All-retain P p [] k = tt
All-retain P p (c ∷ cs) k = elim (Bool-cases (p c)) [
  | inl e ↦ rw (e, retain) (k.0, All-retain P p cs k.1)
  | inr e ↦ rw (e, retain) (All-retain P p cs k.1)
]

AllApart-retain : (p : Cell → Bool) (cs : List Cell) → AllApart cs → AllApart (retain p cs)
AllApart-retain p [] a = tt
AllApart-retain p (c ∷ cs) a = elim (Bool-cases (p c)) [
  | inl e ↦ rw (e, retain) (All-retain (Apart c) p cs a.0, AllApart-retain p cs a.1)
  | inr e ↦ rw (e, retain) (AllApart-retain p cs a.1)
]

none_involved :
    (device : DeviceId) (cs : List Cell)
    → any (involves device) (retain (λ c. not (involves device c)) cs) ≡ false
none_involved device [] = refl
none_involved device (c ∷ cs) = elim (Bool-cases (involves device c)) [
  | inl e ↦ rw (e, retain) (none_involved device cs)
  | inr e ↦ rw (e, retain, e) (none_involved device cs)
]

length-retain : (p : Cell → Bool) (cs : List Cell) → length (retain p cs) ≤ length cs
length-retain p [] = omega arith
length-retain p (c ∷ cs) = elim (Bool-cases (p c)) [
  | inl e ↦ rw (e, retain) (omega (arith, length-retain p cs))
  | inr e ↦ rw (e, retain) (omega (arith, length-retain p cs))
]

-- `remove_device` keeps the schedule free of conflicts, leaves no cell of the device, and returns how
-- many cells it removed.
pub remove_device-IsSchedule :
    (s : Schedule) (device : DeviceId)
    → IsSchedule s
    → IsSchedule (remove_device s device).0
      × (any (involves device) (remove_device s device).0.cells ≡ false)
      × (length (remove_device s device).0.cells + (remove_device s device).1 ≡ length s.cells)
unfolding remove_device
remove_device-IsSchedule s device v =
    let keep = λ (c : Cell). not (involves device c) in
    (
      record {
        cells_fit = All-retain (IsCell s.superframe_size) keep s.cells v.cells_fit;
        apart = AllApart-retain keep s.cells v.apart;
      },
      none_involved device s.cells,
      omega (arith, length-retain keep s.cells),
    )
