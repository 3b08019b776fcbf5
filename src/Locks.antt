-- ===== src/Locks.antt =====
-- Waiting for the locks of a repository (restic/cli/wait.go). What `restic unlock` and `restic list
-- locks` answer in each round of the loop are arguments, and the rounds are the fuel.
pub mod Waiting
mod Examples
use k8up.Prelude.{
  ℕ, zero, suc, String, Bool, true, false, Option, none, some, List, [], ◌∷◌, if◌then◌else◌,
}

-- What the commands of a repository answer: `unlock i` tells whether the i-th Unlock fails, and
-- `locks i` is the i-th list of locks, or `none` for an error.
pub record Repository : Type 0 where
  pub unlock : ℕ → Bool
  pub locks : ℕ → Option (List String)

-- The loop has not ended, or Wait has returned, without error or with one.
pub data Wait : Type 0 where
  waiting done : Wait
  unlock_failed list_failed : ℕ → Wait

-- The end of a round that got the list: the loop goes on with `rest` after an Unlock.
abbrev pub on_locks : ℕ → Option (List String) → Bool → Wait → Wait
on_locks i none unlock_fails rest = list_failed i
on_locks i (some []) unlock_fails rest = done
on_locks i (some (l ∷ ls)) unlock_fails rest = if unlock_fails then unlock_failed i else rest

-- The loop, from round i; round i's Unlock is the one after the first, which comes before the loop.
unfoldable pub wait_loop : ℕ → Repository → ℕ → Wait
wait_loop zero r i = waiting
wait_loop (suc rounds) r i =
    let rest = wait_loop rounds r (suc i) in on_locks i (r.locks i) (r.unlock (suc i)) rest

-- Wait, cut off after that many rounds.
unfoldable pub wait : ℕ → Repository → Wait
unfolding wait_loop
wait rounds r = if r.unlock 0 then unlock_failed 0 else wait_loop rounds r 0
