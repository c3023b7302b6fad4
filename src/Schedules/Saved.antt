-- ===== src/Schedules/Saved.antt =====
-- What is sent when a schedule is saved, and when the page stops showing that it is busy.
use alike.Base.{
  ℕ, ◌≤◌, String, List, [], ◌∷◌, Bool, true, false, some, none, ◌≡◌, refl, ap, arith, ◌==◌,
  if◌then◌else◌, length, Bool-cases, inl, inr,
}
use alike.Schedules.{
  Form, Awaited, fulfilled, thrown, unsettled, Step, show_line_load, finish_line_load,
  draw_schedules_table, toast, request, run_schedule, clamped_min, rep_args, restore_args,
  after_rep, after_restore, save_schedule_rep, save_schedule_restore,
}

-- the requests that are sent
abbrev pub sent : {A : Type 0} → List (Step A) → List A
sent [] = []
sent (request a site ∷ steps) = a ∷ sent steps
sent (show_line_load ∷ steps) = sent steps
sent (finish_line_load ∷ steps) = sent steps
sent (draw_schedules_table ∷ steps) = sent steps
sent (toast m t k ∷ steps) = sent steps
sent (run_schedule i s ∷ steps) = sent steps

-- the page shows that it is busy after the steps
abbrev pub is_busy : {A : Type 0} → Bool → List (Step A) → Bool
is_busy b [] = b
is_busy b (show_line_load ∷ steps) = is_busy true steps
is_busy b (finish_line_load ∷ steps) = is_busy false steps
is_busy b (request a s ∷ steps) = is_busy b steps
is_busy b (draw_schedules_table ∷ steps) = is_busy b steps
is_busy b (toast m t k ∷ steps) = is_busy b steps
is_busy b (run_schedule i s ∷ steps) = is_busy b steps

abbrev pub is_unsettled : Awaited → Bool
is_unsettled (fulfilled id) = false
is_unsettled (thrown m) = false
is_unsettled unsettled = true

pub clamped_min-le : (m : ℕ) → clamped_min m ≤ 59
unfolding clamped_min
clamped_min-le m = ground arith

pub after_rep-is_busy :
    {A : Type 0} (w : Awaited)
    → (sent {A = A} (after_rep w) ≡ []) × (is_busy {A = A} true (after_rep w) ≡ is_unsettled w)
unfolding after_rep
after_rep-is_busy (fulfilled id) = (refl, refl)
after_rep-is_busy (thrown message) = (refl, refl)
after_rep-is_busy unsettled = (refl, refl)

after_restore-is_busy :
    (f : Form) (w : Awaited)
    → (sent (after_restore f w) ≡ []) × (is_busy true (after_restore f w) ≡ is_unsettled w)
unfolding after_restore
after_restore-is_busy f (fulfilled none) = (refl, refl)
after_restore-is_busy f (fulfilled (some id)) = ground arith
after_restore-is_busy f (thrown message) = (refl, refl)
after_restore-is_busy f unsettled = (refl, refl)

-- A replication without systems is not sent. Any other is sent once, with the systems and the hour
-- of the form as they are and a minute of at most 59. The page stays busy exactly if the request
-- was sent and its promise stays pending.
pub save_schedule_rep_lem :
    (id : String) (f : Form) (w : Awaited)
    → (sent (save_schedule_rep id f w) ≡ (if length f.targets == 0 then [] else rep_args id f ∷ []))
      × ((rep_args id f).sources ≡ f.targets)
      × ((rep_args id f).hour ≡ f.sched_hour)
      × ((rep_args id f).min ≤ 59)
      × (is_busy false (save_schedule_rep id f w)
          ≡ (if length f.targets == 0 then false else is_unsettled w))
unfolding save_schedule_rep rep_args
save_schedule_rep_lem id f w = elim (Bool-cases (length f.targets == 0)) [
  | inl nothing ↦
      rw (nothing, save_schedule_rep) (refl, refl, refl, clamped_min-le f.sched_min, refl)
  | inr listed ↦
      rw (listed, save_schedule_rep)
        (
          ap (λ l. rep_args id f ∷ l) (after_rep-is_busy w).0,
          refl,
          refl,
          clamped_min-le f.sched_min,
          (after_rep-is_busy w).1,
        )
]

-- A restore without systems is not sent. Any other is sent once, without a time of day, and the
-- page stays busy exactly if the request was sent and its promise stays pending.
pub save_schedule_restore_lem :
    (id : String) (f : Form) (w : Awaited)
    → (sent (save_schedule_restore id f w)
        ≡ (if length f.targets == 0 then [] else restore_args id f ∷ []))
      × ((restore_args id f).hour ≡ 0)
      × (is_busy false (save_schedule_restore id f w)
          ≡ (if length f.targets == 0 then false else is_unsettled w))
unfolding save_schedule_restore restore_args
save_schedule_restore_lem id f w = elim (Bool-cases (length f.targets == 0)) [
  | inl nothing ↦ rw (nothing, save_schedule_restore) (refl, refl, refl)
  | inr listed ↦
      rw (listed, save_schedule_restore)
        (
          ap (λ l. restore_args id f ∷ l) (after_restore-is_busy f w).0,
          refl,
          (after_restore-is_busy f w).1,
        )
]
