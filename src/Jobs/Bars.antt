-- ===== src/Jobs/Bars.antt =====
-- A system's bar and its words tell the same.
use alike.Base.{
  ℕ, zero, suc, String, ℤ, pos, negsuc, int_lt, ◌≡◌, ◌+◌, refl, some, Bool-cases, inl, inr,
}
use alike.Status.Value.{Value}
use alike.Jobs.{make_pb, make_vm_pb, has_stopped, make_vm_pb_status}

pub data Kind : Type 0 where
  completed in_process not_started not_processed failed : Kind

abbrev pub class_of : Kind → String
class_of completed = "bg-success"
class_of in_process = "bg-info"
class_of not_started = ""
class_of not_processed = "bg-warning"
class_of failed = "bg-danger"

abbrev pub words_of : Kind → String
words_of completed = " [Completed] "
words_of in_process = " [In Process] "
words_of not_started = " [Not Started] "
words_of not_processed = " [Not Processed] "
words_of failed = " [Failed] "

-- The bar's class and the words beside it are always those of one kind, and the number on the bar
-- is not negative.
pub make_vm_pb_lem :
    (p : ℤ) (status : Value)
    → (k : Kind) × (n : ℕ) × (make_vm_pb p status ≡ make_pb (pos n) (some (class_of k)))
      × (make_vm_pb_status p status ≡ words_of k)
unfolding make_vm_pb make_vm_pb_status
make_vm_pb_lem (negsuc n) status = (failed, n + 1, refl, refl)
make_vm_pb_lem (pos zero) status = elim (Bool-cases (has_stopped status)) [
  | inl stopped ↦ (not_processed, 1, rw stopped refl, rw stopped refl)
  | inr not_yet ↦ (not_started, 0, rw not_yet refl, rw not_yet refl)
]
make_vm_pb_lem (pos (suc n)) status = elim (Bool-cases (int_lt (pos (suc n)) (pos 100))) [
  | inl less ↦ (in_process, suc n, rw less refl, rw less refl)
  | inr all ↦ (completed, suc n, rw all refl, rw all refl)
]
