-- ===== src/Examples/Starts.antt =====
-- The theorems on the start of a server of two threads.
use cppweb.Base.{ℕ, ◌≤◌, ◌<◌, ◌≡◌, ◌≢◌, inl, refl, Bool, false, none, ltb, if◌then◌else◌, ==_of_ne}
use cppweb.LoopThread.{unborn}
use cppweb.TcpServer
use cppweb.TcpServer.{
  TcpServer, Main, idle, testing, done, set_thread_num, start, enter_for, test_null, end_wait,
  Steps, here, next, sets_num, starts, begins, tests, waits, sets,
}
use cppweb.TcpServer.Ending.{test_null-destroy, IsQuit}
use cppweb.TcpServer.Missed.{IsLast, notify-test_null}

-- A server of two threads.
abbrev numbered : TcpServer
numbered = record {
  tid = 7;
  started = false;
  thread_num = 2;
  size = 2;
  loops = λ i. if ltb i 0 then (if ltb i 2 then none else none) else none;
  main = idle;
  workers = λ i. unborn;
}

-- `startInLoop` stands at its test, and the second thread is started.
abbrev testing_one : TcpServer
testing_one = enter_for 1 (start numbered)

testing_one_run : (b : Bool) → Steps b (cppweb.TcpServer.make 7) testing_one
unfolding cppweb.TcpServer.make set_thread_num start
testing_one_run b = next (next (next here (sets_num 7 2 refl)) starts) (begins refl)

-- The second thread has set its loop, and `startInLoop` goes on.
abbrev all_there : TcpServer
all_there = test_null 1 (cppweb.TcpServer.set_loop 1 64 testing_one)

all_there_run : (b : Bool) → Steps b (cppweb.TcpServer.make 7) all_there
unfolding start enter_for cppweb.TcpServer.set_loop
all_there_run b = next (next (testing_one_run b) (sets 1 64 refl)) (tests 1 refl)

test_null-destroy_example :
    ((i : ℕ) → all_there.main ≡ testing i → i < all_there.size)
    × (all_there.main ≡ done → (i : ℕ) → 1 ≤ i → i < all_there.thread_num → IsQuit all_there i)
test_null-destroy_example = test_null-destroy false 7 (all_there_run false)

-- The second thread has stored its loop after `startInLoop` found none, and did not notify yet.
abbrev late : TcpServer
late = cppweb.TcpServer.set_loop 1 64 (test_null 1 testing_one)

-- It notifies before `startInLoop` waits.
abbrev lost : TcpServer
lost = cppweb.TcpServer.notify 1 late

late-IsLast : IsLast 1 late
unfolding start enter_for test_null cppweb.TcpServer.set_loop
late-IsLast j other = rw (==_of_ne j 1 other) (inl refl)

notify-test_null_example :
    (Steps false lost (cppweb.TcpServer.begin_wait 1 lost)
      → (cppweb.TcpServer.begin_wait 1 lost).main ≢ done)
    × let woken_up = end_wait 1 (cppweb.TcpServer.notify 1 (cppweb.TcpServer.begin_wait 1 late)) in
      Steps false late (test_null 1 woken_up) × (test_null 1 woken_up ≡ enter_for 2 woken_up)
unfolding start enter_for test_null cppweb.TcpServer.set_loop
notify-test_null_example = notify-test_null 1 refl refl refl (64, refl) late-IsLast
