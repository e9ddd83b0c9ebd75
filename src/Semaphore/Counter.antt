-- ===== src/Semaphore/Counter.antt =====
-- include/common/s4semaphore.h: `semaphore_t`, one function to a method. The mutex makes each call
-- one step.
use s4_lib_lite.Prelude.{ℕ, ◌+◌, Option, none, some, if◌then◌else◌}
use s4_lib_lite.Prelude.Int.{ℤ, pos, ◌+ℤ◌, ◌-ℤ◌, leb_ℤ}

pub record Semaphore : Type 0 where
  pub ready : ℕ
  pub count : ℤ

abbrev pub new_semaphore : Semaphore
new_semaphore = record { ready = 0; count = pos 0 }

unfoldable pub set_ready : Semaphore → Semaphore
set_ready s = record s { ready = s.ready + 1 }

unfoldable pub clr_ready : Semaphore → Semaphore
clr_ready s = record s { ready = 0 }

unfoldable pub get_ready : Semaphore → ℕ
get_ready s = s.ready

-- `notify_all` wakes the threads that wait, and each tests the count again.
unfoldable pub notify : ℤ → Semaphore → Semaphore
notify n s = record s { count = s.count +ℤ n }

-- What it returns and leaves where the count is above 0; where it is not, the thread waits.
unfoldable pub wait : Semaphore → Option (ℤ × Semaphore)
wait s =
    if leb_ℤ s.count (pos 0)
    then none
    else some (s.count -ℤ pos 1, record s { count = s.count -ℤ pos 1 })
