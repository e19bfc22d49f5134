-- ===== src/Tests/Ssh.antt =====
-- A connection's channels at concrete operations.
use shbox.Prelude.{
  ℕ, ◌+◌, ◌≡◌, ◌≤◌, refl, true, Bool, none, some, List, [], ◌∷◌, length, arith, inl, inr,
}
use shbox.Prelude.Bytes.{codes}
use shbox.Prelude.Table
use shbox.Ssh.Channel
use shbox.Ssh.Channel.{
  PtyRequest, Registry, Op, opens, removes, starts, resizes, requests, run, start, pty_snapshot,
  perform,
}
use shbox.Ssh.Channel.Cap.{run-within_cap}
use shbox.Ssh.Channel.Once.{start_once, pty_snapshot-Newer}
use shbox.Ssh.Channel.Window.{
  Synced, synchronize_window, Ended, synchronize_window-Ended, synchronize_window-returns,
}

abbrev terminal : ℕ → ℕ → PtyRequest
terminal rows cols = record { term = codes "xterm"; rows = rows; cols = cols; modes = [] }

abbrev setup : List Op
setup = opens 1 10 ∷ opens 2 20 ∷ opens 3 30 ∷ requests 1 (terminal 24 80) ∷ starts 1 ∷ []

run-within_cap_example : length (run 2 setup []) ≤ 2
run-within_cap_example = run-within_cap 2 setup [] (omega arith)

start_once_example :
    (start 1 (run 2 (resizes 1 40 0 ∷ starts 1 ∷ []) (start 1 (run 2 setup [])).1)).0 ≡ none
start_once_example =
    start_once 2 1 (resizes 1 40 0 ∷ starts 1 ∷ []) (run 2 setup []) (refl, (refl, tt))

first_start : (start 1 (run 2 (opens 1 10 ∷ []) [])).0 ≡ some 10
unfolding run perform Channel.try_open start Channel.with_state Table.get Table.set
first_start = refl

before : pty_snapshot 1 (run 2 setup []) ≡ some (terminal 24 80, 0)
unfolding run perform Channel.try_open start Channel.with_state Channel.pty_request pty_snapshot
    Table.get Table.set
before = refl

after : pty_snapshot 1 (run 2 (resizes 1 40 0 ∷ []) (run 2 setup [])) ≡ some (terminal 40 80, 1)
unfolding run perform Channel.try_open start Channel.with_state Channel.pty_request
    Channel.update_window pty_snapshot Table.get Table.set
after = refl

pty_snapshot-Newer_example : (0 ≤ 1) × (◌≡◌ {A = ℕ} 0 1 → terminal 24 80 ≡ terminal 40 80)
pty_snapshot-Newer_example =
    pty_snapshot-Newer 2 1 (resizes 1 40 0 ∷ []) (run 2 setup []) (terminal 24 80) (terminal 40 80)
      0 1 (refl, tt) before after

-- It counts its calls and accepts each.
abbrev accepts : ℕ → ℕ → ℕ → Bool × ℕ
accepts calls rows cols = (true, calls + 1)

abbrev rounds : List (List Op)
rounds = (resizes 1 40 0 ∷ []) ∷ [] ∷ []

synchronize_window-Ended_example :
    Ended accepts 2 1 (synchronize_window accepts 2 1 rounds 0 (run 2 setup []))
synchronize_window-Ended_example =
    synchronize_window-Ended accepts 2 1 rounds 0 (run 2 setup []) ((refl, tt), (tt, tt))

nothing_changes :
    pty_snapshot 1 (run 2 [] (run 2 (resizes 1 40 0 ∷ []) (run 2 setup [])))
    ≡ pty_snapshot 1 (run 2 (resizes 1 40 0 ∷ []) (run 2 setup []))
unfolding run
nothing_changes = refl

synchronize_window-returns_example :
    (s : Synced) × (synchronize_window accepts 2 1 rounds 0 (run 2 setup []) ≡ some s)
synchronize_window-returns_example =
    synchronize_window-returns accepts 2 1 rounds 0 (run 2 setup []) (inr (inl nothing_changes))
