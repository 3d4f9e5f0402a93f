-- ===== src/Availability/Offered.antt =====
-- How the two queries agree, and what a booking that passes the check is guaranteed.
use mathlib.Core.List.{Mem, mem-cons_of_mem, mem-cons_self}
use juris.Availability.{Availability, Unavailability}
use juris.Availability.Query.{
  away_on, blocks, covers, get_availability_for_date_with_offerings,
  is_available_at_time_with_offering, listed_on,
}
use juris.Base.{
  All, Bool, Bool-cases, List, [], arith, exists_row, false, inl, inr, not, refl, rows, some, true,
  ℕ, ◌&&◌, ◌*◌, ◌+◌, ◌<◌, ◌∷◌, ◌≡◌, ◌≤◌, ◌⊎◌,
}
use juris.Clock.{date, day, time, weekday}

-- An absence that leaves a whole slot free leaves every part of it free.
blocks-part :
    (lo hi start end : ℕ) (u : Unavailability)
    → lo ≤ start
    → end ≤ hi
    → blocks lo hi u ≡ false
    → blocks start end u ≡ false
blocks-part lo hi start end u h k free = ground arith

free-part :
    (p : Unavailability → Bool) (lo hi start end : ℕ) (us : List Unavailability)
    → lo ≤ start
    → end ≤ hi
    → exists_row (λ u. p u && blocks lo hi u) us ≡ false
    → exists_row (λ u. p u && blocks start end u) us ≡ false
free-part p lo hi start end [] h k free = refl
free-part p lo hi start end (u ∷ us) h k free =
    ground (arith, blocks-part lo hi start end u h k, free-part p lo hi start end us h k)

-- An instant is its date and its time of the day.
instant : (t : ℕ) → date t * day + time t ≡ t
unfolding date time
instant t = omega arith

covered :
    (lawyer weekday start end : ℕ) (s : Availability) (slots : List Availability)
    → ((p : Availability → Bool) → p s ≡ true → exists_row p slots ≡ true)
    → listed_on lawyer weekday s ≡ true
    → s.start_time ≤ start
    → end ≤ s.end_time
    → exists_row (covers lawyer weekday start end (some s.offering.id)) slots ≡ true
covered lawyer weekday start end s slots from l h k = from _ (ground arith)

-- A part of a slot is bookable with the offering of the slot.
abbrev pub Bookable : List Availability → List Unavailability → ℕ → ℕ → Availability → Type 0
Bookable slots absences lawyer date s =
    (start end : ℕ)
    → s.start_time ≤ start
    → end ≤ s.end_time
    → is_available_at_time_with_offering slots absences lawyer date start end (some s.offering.id)
      ≡ true

module _ (slots : List Availability) (absences : List Unavailability) (lawyer date : ℕ) where
  abbrev is_free : Availability → Bool
  is_free s =
      listed_on lawyer (weekday date) s
      && not (exists_row (λ u. away_on lawyer date u && blocks s.start_time s.end_time u) absences)

  Bookable-of_free :
      (s : Availability)
      → ((p : Availability → Bool) → p s ≡ true → exists_row p slots ≡ true)
      → is_free s ≡ true
      → Bookable slots absences lawyer date s
  unfolding is_available_at_time_with_offering
  Bookable-of_free s from free start end h k = ground (
    arith,
    covered lawyer (weekday date) start end s slots from,
    free-part (away_on lawyer date) s.start_time s.end_time start end absences h k,
  )

  Bookable-rows :
      (ys : List Availability)
      → ((p : Availability → Bool) → exists_row p ys ≡ true → exists_row p slots ≡ true)
      → All (Bookable slots absences lawyer date) (rows is_free ys)
  Bookable-rows [] from = tt
  Bookable-rows (s ∷ ys) from =
      let rest = Bookable-rows ys (λ p h. from p (ground arith)) in
      elim (Bool-cases (is_free s)) [
        | inl y ↦ rw y (Bookable-of_free s (λ p h. from p (ground arith)) y, rest)
        | inr n ↦ rw n rest
      ]

  -- Every slot that is listed for a date of a lawyer is available for its offering at every
  -- interval of the date within the slot.
  pub get_availability-Bookable :
      All
        (Bookable slots absences lawyer date)
        (get_availability_for_date_with_offerings slots absences lawyer date)
  unfolding get_availability_for_date_with_offerings
  get_availability-Bookable = Bookable-rows slots (λ p h. h)

row_of_exists :
    (p : Availability → Bool) (slots : List Availability)
    → exists_row p slots ≡ true
    → (s : Availability) × Mem s slots × (p s ≡ true)
row_of_exists p [] h = cc
row_of_exists p (s ∷ slots) h = elim (Bool-cases (p s)) [
  | inl y ↦ (s, mem-cons_self, y)
  | inr n ↦ let (t, m, y) = row_of_exists p slots (rw n at h) in (t, mem-cons_of_mem s m, y)
]

-- The absence, if it is of the lawyer and on the date, is not for the whole day, and the interval, in
-- instants, is over before it or starts after it, where it has both its times.
abbrev pub IsClear : ℕ → ℕ → ℕ → ℕ → Unavailability → Type 0
IsClear lawyer date start end u =
    u.lawyer ≡ lawyer
    → u.date ≡ date
    → (u.is_all_day ≡ false)
      × ((from to : ℕ)
          → u.start_time ≡ some from
          → u.end_time ≡ some to
          → (end ≤ date * day + from) ⊎ (date * day + to ≤ start))

blocks-IsClear :
    (lawyer start end : ℕ) (u : Unavailability)
    → date end ≡ date start
    → (away_on lawyer (date start) u && blocks (time start) (time end) u) ≡ false
    → IsClear lawyer (date start) start end u
blocks-IsClear lawyer start end u same h own on = (
  ground arith,
  λ from to e f.
      let late : (time end ≤ from) ⊎ (to ≤ time start) = ground arith in
      elim late [
        | inl k ↦ inl (ground (arith, instant end))
        | inr k ↦ inr (ground (arith, instant start))
      ],
)

absences-IsClear :
    (lawyer start end : ℕ) (us : List Unavailability)
    → date end ≡ date start
    → exists_row (λ u. away_on lawyer (date start) u && blocks (time start) (time end) u) us ≡ false
    → All (IsClear lawyer (date start) start end) us
absences-IsClear lawyer start end [] same h = tt
absences-IsClear lawyer start end (u ∷ us) same h = (
  blocks-IsClear lawyer start end u same (ground arith),
  absences-IsClear lawyer start end us same (ground arith),
)

-- An interval that ends on the date on which it starts and passes the check lies, as instants,
-- within a stored slot of the lawyer for that weekday and that offering, and the slot and its offering are
-- active. No absence of the lawyer on the date is for the whole day, and the interval is over before
-- each that has a start and an end, or starts after it.
pub is_available-within :
    (slots : List Availability) (absences : List Unavailability) (lawyer offering start end : ℕ)
    → date end ≡ date start
    → is_available_at_time_with_offering slots absences lawyer
        (date start)
        (time start)
        (time end)
        (some offering)
      ≡ true
    → All (IsClear lawyer (date start) start end) absences
      × ((s : Availability) × Mem s slots
          × (s.lawyer ≡ lawyer)
          × (s.day_of_week ≡ weekday (date start))
          × (s.is_active ≡ true)
          × (s.offering.is_active ≡ true)
          × (s.offering.id ≡ offering)
          × (date start * day + s.start_time ≤ start)
          × (end ≤ date start * day + s.end_time))
unfolding is_available_at_time_with_offering
is_available-within slots absences lawyer offering start end same h =
    let (s, m, c) =
      row_of_exists (covers lawyer (weekday (date start)) (time start) (time end) (some offering))
        slots (ground arith) in
    (
      absences-IsClear lawyer start end absences same (ground arith),
      (
        s,
        m,
        ground arith,
        ground arith,
        ground arith,
        ground arith,
        ground arith,
        ground (arith, instant start),
        ground (arith, instant end),
      ),
    )

-- The check reads only the times of the day. An interval that runs past midnight to a time of the
-- next day that is no later than its start passes the check on a lawyer's only slot if it starts
-- within the slot and no absence is stored, although it ends after the slot.
pub is_available-overnight :
    (s : Availability) (start end : ℕ)
    → s.is_active ≡ true
    → s.offering.is_active ≡ true
    → s.day_of_week ≡ weekday (date start)
    → s.start_time ≤ time start
    → time start ≤ s.end_time
    → s.end_time < day
    → date end ≡ date start + 1
    → time end ≤ time start
    → (is_available_at_time_with_offering
          (s ∷ [])
          []
          s.lawyer
          (date start)
          (time start)
          (time end)
          (some s.offering.id)
        ≡ true)
      × (date start * day + s.end_time < end)
unfolding is_available_at_time_with_offering
is_available-overnight s start end a o w h k b n t = (ground arith, ground (arith, instant end))
