-- ===== src/Tests/Slots.antt =====
-- The timetable of tests/ga/chromosome.test.ts: a run of three slots, a break, and a run of two on
-- one day, and slots with gaps on another.

use ga_scheduler_v.Base.{ℕ, ◌<◌, ◌≡◌, ◌↔◌, refl, String, List, [], ◌∷◌, Memᴰ, arith, locale_le}
use ga_scheduler_v.Types.{TimeSlot}
use ga_scheduler_v.Slots.{
  build_slot_lookup, resolve, group_by_day, starts_no_later, sort_by_start, chains, windows,
  day_blocks, find_contiguous_slots, compute_longest_contiguous_run, best_for_day,
}
use ga_scheduler_v.Slots.Blocks.{IsBlock, find_contiguous_slots_sound}
use ga_scheduler_v.Slots.SameDay.{
  profile, pick_tied, fall_back, pick_day, pick_same_day_session_slots,
}
use ga_scheduler_v.Slots.SameDay.OneDay.{IsOneDay, IsListed, pick_same_day_session_slots-IsOneDay}
use ga_scheduler_v.Slots.LongestRun.{find_contiguous_slots-eq-nil}

abbrev slot : ℕ → String → String → String → TimeSlot
slot id day from to = record { id = id; day = day; start_time = from; end_time = to }

abbrev pub timetable : List TimeSlot
timetable =
    slot 101 "Mon" "08:00" "08:50"
    ∷ slot 102 "Mon" "08:50" "09:40"
    ∷ slot 103 "Mon" "09:40" "10:30"
    ∷ slot 104 "Mon" "10:40" "11:30"
    ∷ slot 105 "Mon" "11:30" "12:20"
    ∷ slot 201 "Tue" "08:00" "08:50"
    ∷ slot 202 "Tue" "09:00" "09:50"
    ∷ slot 203 "Tue" "10:00" "10:50"
    ∷ []

abbrev pub ids : List ℕ
ids = 105 ∷ 104 ∷ 103 ∷ 102 ∷ 101 ∷ 201 ∷ 202 ∷ 203 ∷ []

program : Unit {0}
unfolding find_contiguous_slots compute_longest_contiguous_run build_slot_lookup resolve
    group_by_day day_blocks windows chains sort_by_start starts_no_later best_for_day locale_le
    profile pick_tied fall_back pick_day pick_same_day_session_slots
program = tt

blocks_of_two :
    find_contiguous_slots ids 2 (build_slot_lookup timetable)
    ≡ (101 ∷ 102 ∷ []) ∷ (102 ∷ 103 ∷ []) ∷ (104 ∷ 105 ∷ []) ∷ []
unfolding program
blocks_of_two = refl

blocks_of_four : find_contiguous_slots ids 4 (build_slot_lookup timetable) ≡ []
unfolding program
blocks_of_four = refl

longest_run : compute_longest_contiguous_run ids (build_slot_lookup timetable) ≡ 3
unfolding program
longest_run = refl

second_block : Memᴰ (102 ∷ 103 ∷ []) (find_contiguous_slots ids 2 (build_slot_lookup timetable))
second_block = rw blocks_of_two (Memᴰ.tail (Memᴰ.head refl))

find_contiguous_slots_sound_example :
    IsBlock (λ t. Memᴰ t timetable × Memᴰ t.id ids) 2 (102 ∷ 103 ∷ [])
find_contiguous_slots_sound_example =
    find_contiguous_slots_sound timetable ids 2 (102 ∷ 103 ∷ []) second_block

find_contiguous_slots-eq-nil_example :
    (find_contiguous_slots ids 4 (build_slot_lookup timetable) ≡ [])
    ↔ (compute_longest_contiguous_run ids (build_slot_lookup timetable) < 4)
find_contiguous_slots-eq-nil_example =
    find_contiguous_slots-eq-nil ids 4 (build_slot_lookup timetable) (omega arith)

-- Four slots of the day with the longest run: the run, and the first slot of the next one.
across_a_break :
    pick_same_day_session_slots 0 0 ids 4 (build_slot_lookup timetable) ≡ 101 ∷ 102 ∷ 103 ∷ 104 ∷ []
unfolding program
across_a_break = refl

pick_same_day_session_slots-IsOneDay_example :
    IsOneDay
      (IsListed (build_slot_lookup timetable) ids)
      4
      (pick_same_day_session_slots 0 0 ids 4 (build_slot_lookup timetable))
pick_same_day_session_slots-IsOneDay_example =
    pick_same_day_session_slots-IsOneDay 0 0 ids 4 (build_slot_lookup timetable)
