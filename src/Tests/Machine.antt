-- ===== src/Tests/Machine.antt =====
-- A small machine behind the services: it knows which process runs, logs what is asked of it, and
-- gives out memory upwards.
use horaci_os.Prelude.{ℕ, ◌+◌, refl, List, [], ◌∷◌, some}
use horaci_os.Services.{Services}

pub record Machine : Type 0 where
  pub running : ℕ
  pub blocked : List ℕ
  pub woken : List ℕ
  pub top : ℕ

instance abbrev pub machine : Services Machine
machine = record {
  get_current_pid = λ s. s.running;
  mark_process_as_blocked = λ p s. record s { blocked = p ∷ s.blocked };
  resume_process = λ p s. record s { woken = p ∷ s.woken };
  malloc = λ n s. (some s.top, record s { top = s.top + n });
  free_handler = λ p s. s;
  get_current_pid-resume_process = λ p s. refl;
}

-- Process `p` runs.
abbrev pub runs : ℕ → Machine
runs p = record { running = p; blocked = []; woken = []; top = 4096 }
