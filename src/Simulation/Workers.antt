-- ===== src/Simulation/Workers.antt =====
-- The worker pool of simulation/registry.go: NewRegistry's goroutines, the channel of jobs, and the end of
-- TickAll, which sends the jobs and waits until the workers have processed them. What processJob does with a
-- job is in Simulation.Registry; here a job is a value that is sent, taken and finished.
pub mod Perms
pub mod Accounts
pub mod Returns
pub mod Schedules
use distributed_game_of_life.Prelude.{
  ℕ, zero, suc, ◌+◌, ◌-◌, ◌*◌, ltb, if◌then◌else◌, length, List, [], ◌∷◌, ◌++◌, Option, none, some,
  replicate,
}
use mathlib.Core.Option as Option

infixl 5 ◌>>=◌
abbrev pub ◌>>=◌ {ℓ κ} : {A : Type ℓ} {B : Type κ} → Option A → (A → Option B) → Option B
some a >>= f = f a
none >>= f = none

-- NewRegistry: the number of workers, and the capacity of jobCh.
abbrev pub worker_count : ℕ → ℕ
worker_count num_cpu = if ltb num_cpu 1 then 1 else num_cpu

abbrev pub job_capacity : ℕ → ℕ
job_capacity num_cpu = num_cpu * 2

module _ (J : Type 0) where
  -- The jobs that TickAll has not sent yet, those in the channel, the one of each worker, those that are
  -- finished, the last one at the end, and the counter of the WaitGroup.
  pub record FanOut : Type 0 where
    pub unsent : List J
    pub queue : List J
    pub workers : List (Option J)
    pub finished : List J
    pub waiting : ℕ

  -- wg.Add, with workers that are idle.
  abbrev pub fan_out : ℕ → List J → FanOut
  fan_out num_cpu js = record {
    unsent = js;
    queue = [];
    workers = replicate (worker_count num_cpu) none;
    finished = [];
    waiting = length js;
  }

  -- What can happen next: TickAll sends a job, or a worker takes one or is done with its own.
  pub data Action : Type 0 where
    sends : Action
    takes finishes : ℕ → Action

  -- A send blocks while the channel is full.
  unfoldable pub send_job : ℕ → List J → FanOut → Option FanOut
  send_job num_cpu [] s = none
  send_job num_cpu (j ∷ rest) s =
      if ltb (length s.queue) (job_capacity num_cpu)
      then some (record s { unsent = rest; queue = s.queue ++ j ∷ [] })
      else none

  -- An idle worker gets a job.
  unfoldable pub hire : ℕ → J → List (Option J) → Option (List (Option J))
  hire w j [] = none
  hire zero j (none ∷ ws) = some (some j ∷ ws)
  hire zero j (some i ∷ ws) = none
  hire (suc w) j (x ∷ ws) = Option.map (λ vs. x ∷ vs) (hire w j ws)

  -- A worker is done with its job.
  unfoldable pub release : ℕ → List (Option J) → Option (J × List (Option J))
  release w [] = none
  release zero (none ∷ ws) = none
  release zero (some j ∷ ws) = some (j, none ∷ ws)
  release (suc w) (x ∷ ws) = Option.map (λ done. (done.0, x ∷ done.1)) (release w ws)

  -- A receive blocks while the channel is empty.
  unfoldable pub take_job : ℕ → List J → FanOut → Option FanOut
  unfolding hire
  take_job w [] s = none
  take_job w (j ∷ rest) s =
      Option.map (λ ws. record s { queue = rest; workers = ws }) (hire w j s.workers)

  -- The deferred wg.Done of processJob.
  unfoldable pub finish_job : ℕ → FanOut → Option FanOut
  unfolding release
  finish_job w s =
      Option.map
        (λ done. record s {
          workers = done.1;
          finished = s.finished ++ done.0 ∷ [];
          waiting = s.waiting - 1;
        })
        (release w s.workers)

  -- `none` where the action is blocked.
  unfoldable pub act : ℕ → Action → FanOut → Option FanOut
  unfolding send_job take_job finish_job
  act num_cpu sends s = send_job num_cpu s.unsent s
  act num_cpu (takes w) s = take_job w s.queue s
  act num_cpu (finishes w) s = finish_job w s

  unfoldable pub act_all : ℕ → List Action → FanOut → Option FanOut
  unfolding act
  act_all num_cpu [] s = some s
  act_all num_cpu (a ∷ acts) s = do s' ← act num_cpu a s; act_all num_cpu acts s'
