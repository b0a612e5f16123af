-- ===== src/Shell/Tests.antt =====
-- Runs of pkg/shell at concrete inputs, and the instances of its theorems there.
use agentry.Base.{ℕ, ◌≡◌, refl, codes, is_empty, false, some, List, [], ◌∷◌, arith}
use agentry.Base.Int.{pos, add64, sub64}
use agentry.Shell.Ring.{
  Ring, empty_ring, new_ring, start_write, write_all, evict, append_chunk, write, copy_out, read,
}
use agentry.Shell.Background.{
  BgCommand, BackgroundManager, new_background_manager, StartWorld, launch, start, new_command,
  new_id, update_at, exited, finish, wait_for, interrupt,
}
use agentry.Shell.Background.Lifecycle.{
  IsSound, starts, ends, interrupts, Reached, fresh, after_step, Reached-IsSound,
}
use agentry.Shell.Background.Finished.{Keeps, step-Keeps}
use agentry.Shell.Ring.Copy.{copy_at}
use agentry.Shell.Ring.Log.{Holds, write-Holds}
use agentry.Shell.Ring.Reading.{read-log}
use agentry.Shell.Ring.Sessions.{concat, writes, empty_ring-Holds, read-writes}

abbrev chunks : List (List ℕ)
chunks = (1 ∷ 2 ∷ 3 ∷ []) ∷ (4 ∷ 5 ∷ []) ∷ []

abbrev four : Ring
four = empty_ring 4

four-Holds : Holds four []
four-Holds = empty_ring-Holds 4 (omega arith)

-- The five bytes overrun the ring by one.
overrun : read (writes four chunks) (pos 0) ≡ (2 ∷ 3 ∷ 4 ∷ 5 ∷ [], pos 5, pos 1)
unfolding read writes write empty_ring add64 sub64 start_write write_all evict append_chunk copy_out
    copy_at
overrun = refl

write-Holds_example :
    Holds (write four (1 ∷ 2 ∷ 3 ∷ [])).0 (1 ∷ 2 ∷ 3 ∷ []) × ((write four (1 ∷ 2 ∷ 3 ∷ [])).1 ≡ 3)
write-Holds_example = write-Holds four [] (1 ∷ 2 ∷ 3 ∷ []) four-Holds (omega arith)

read-log_example : read (write four (1 ∷ 2 ∷ 3 ∷ [])).0 (pos 2) ≡ (3 ∷ [], pos 3, pos 0)
unfolding write empty_ring start_write append_chunk evict
read-log_example =
    read-log (write four (1 ∷ 2 ∷ 3 ∷ [])).0 (1 ∷ 2 ∷ 3 ∷ []) 2 write-Holds_example.0 (omega arith)

read-writes_example : read (writes four chunks) (pos 0) ≡ (2 ∷ 3 ∷ 4 ∷ 5 ∷ [], pos 5, pos 1)
unfolding new_ring concat
read-writes_example = read-writes 4 four chunks 0 refl (omega arith) (omega arith)

abbrev start_world : StartWorld
start_world = record {
  ctx_done = false;
  picks_done = false;
  random = some (codes "a1");
  now = 0;
  spawned = some 77;
}

abbrev one_running : BackgroundManager
one_running = (launch start_world (codes "make") [] new_background_manager).1

one_running-Reached : Reached one_running
one_running-Reached = after_step fresh (
    starts start_world (codes "make") []
      (launch start_world (codes "make") [] new_background_manager).0 one_running
      (unfold start in unfold is_empty in unfold new_background_manager in refl))

Reached-IsSound_example : IsSound one_running
Reached-IsSound_example = Reached-IsSound one_running one_running-Reached

abbrev one_ended : BackgroundManager
one_ended = wait_for 5 exited 0 one_running

abbrev make_ended : BgCommand
make_ended = finish 5 exited (new_command (codes "a1") (codes "make") [] 0 77)

-- A late interrupt leaves a command that completed as it is.
step-Keeps_example : Keeps 0 make_ended (interrupt (codes "a1") one_ended).manager.heap
step-Keeps_example =
    step-Keeps one_ended (interrupt (codes "a1") one_ended).manager 0 make_ended
      (Reached-IsSound one_ended (after_step one_running-Reached (ends 5 exited 0)))
      (interrupts (codes "a1"))
      (unfold wait_for in
        unfold launch in
        unfold new_id in
        unfold new_command in unfold update_at in unfold new_background_manager in refl)
      (unfold finish in refl)
