-- ===== src/Simulation/Workers/Returns.antt =====
-- TickAll returns, when each of its jobs has been processed once.
use mathlib.Core.List.{Permᴰ, append-nil}
use mathlib.Core.List.Permᴰ
use mathlib.Core.Option as Option
use mathlib.Core.Option.{some-injective}
use distributed_game_of_life.Prelude.{
  ℕ, zero, suc, ◌+◌, ◌*◌, ◌≤◌, ◌<◌, ◌==◌, ==→≡, ◌≡◌, ◌⊎◌, refl, sym, ap, subst, arith, ltb, true,
  length, List, [], ◌∷◌, ◌++◌, Option, none, some, replicate, Bool-cases, Option-cases, inl, inr,
}
use distributed_game_of_life.Simulation.Chunk.{ChunkId}
use distributed_game_of_life.Simulation.ChunkMap.{DistinctKeys}
use distributed_game_of_life.Simulation.TickAll.{Work}
use distributed_game_of_life.Simulation.TickAll.Orders.{IsOrder}
use distributed_game_of_life.Simulation.Workers.{
  worker_count, job_capacity, FanOut, fan_out, Action, sends, takes, finishes, send_job, hire,
  release, take_job, finish_job, act, act_all,
}
use distributed_game_of_life.Simulation.Workers.Accounts.{
  in_hand, everywhere, IsFanned, act-IsFanned,
}
use distributed_game_of_life.Simulation.Workers.Perms.{perm-DistinctKeys, find-perm}

length-replicate : {A : Type 0} (n : ℕ) (a : A) → length (replicate n a) ≡ n
length-replicate zero a = refl
length-replicate (suc n) a = ap suc (length-replicate n a)

module _ {J : Type 0} where
  act_all-IsFanned :
      (num_cpu : ℕ) (js : List J) (acts : List (Action J)) (n : ℕ) (s s' : FanOut J)
      → IsFanned num_cpu js n s
      → act_all J num_cpu acts s ≡ some s'
      → IsFanned num_cpu js (n + length acts) s'
  unfolding act_all
  act_all-IsFanned num_cpu js [] n s s' f h =
      let more : n ≡ n + 0 = omega arith in
      subst (λ m. IsFanned num_cpu js m s') more (rw (some-injective s s' h) at f)
  act_all-IsFanned num_cpu js (a ∷ acts) n s s' f h = elim (Option-cases (act J num_cpu a s)) [
    | inl blocked ↦ let no : none ≡ some s' = rw blocked at h in absurd (cc no)
    | inr (t, done) ↦
        let rest =
          act_all-IsFanned num_cpu js acts (n + 1) t s' (act-IsFanned num_cpu js n s t f a done)
            (rw done at h) in
        let more : n + 1 + length acts ≡ n + suc (length acts) = omega arith in
        subst (λ m. IsFanned num_cpu js m s') more rest
  ]

  in_hand-idle : (n : ℕ) → in_hand (replicate {A = Option J} n none) ≡ []
  in_hand-idle zero = refl
  in_hand-idle (suc n) = in_hand-idle n

  fan_out-IsFanned : (num_cpu : ℕ) (js : List J) → IsFanned num_cpu js 0 (fan_out J num_cpu js)
  fan_out-IsFanned num_cpu js =
      let idle = in_hand-idle (worker_count num_cpu) in
      record {
        all = rw idle (Permᴰ.refl js);
        counted = rw idle (omega arith);
        spent = rw idle (omega arith);
        fits = omega arith;
        staffed = length-replicate (worker_count num_cpu) none;
      }

  busy_or_idle :
      (ws : List (Option J))
      → (in_hand ws ≡ []) ⊎ ((w : ℕ) × (done : J × List (Option J)) × (release J w ws ≡ some done))
  unfolding release
  busy_or_idle [] = inl refl
  busy_or_idle (some j ∷ ws) = inr (0, (j, none ∷ ws), refl)
  busy_or_idle (none ∷ ws) = elim (busy_or_idle ws) [
    | inl idle ↦ inl idle
    | inr (w, done, released) ↦ inr (suc w, (done.0, none ∷ done.1), rw released refl)
  ]

  idle_hire :
      (j : J) (ws : List (Option J))
      → in_hand ws ≡ []
      → 0 < length ws
      → (vs : List (Option J)) × (hire J 0 j ws ≡ some vs)
  unfolding hire
  idle_hire j [] idle h = absurd (omega (arith, h))
  idle_hire j (none ∷ ws) idle h = (some j ∷ ws, refl)
  idle_hire j (some i ∷ ws) idle h = absurd (cc idle)

  -- An action that is not blocked.
  abbrev pub CanAct : ℕ → FanOut J → Type 0
  CanAct num_cpu s = (a : Action J) × (s' : FanOut J) × (act J num_cpu a s ≡ some s')

  can_take :
      (num_cpu : ℕ) (j : J) (rest : List J) (s : FanOut J)
      → s.queue ≡ j ∷ rest
      → in_hand s.workers ≡ []
      → 0 < length s.workers
      → CanAct num_cpu s
  unfolding act take_job
  can_take num_cpu j rest s same idle some_worker =
      let (vs, hired) = idle_hire j s.workers idle some_worker in
      (takes 0, record s { queue = rest; workers = vs }, rw (same, hired) refl)

  can_send :
      (num_cpu : ℕ) (j : J) (rest : List J) (s : FanOut J)
      → s.unsent ≡ j ∷ rest
      → length s.queue < job_capacity num_cpu
      → CanAct num_cpu s
  unfolding act send_job
  can_send num_cpu j rest s same room =
      let free : ltb (length s.queue) (job_capacity num_cpu) ≡ true = ground (arith, room) in
      (sends, record s { unsent = rest; queue = s.queue ++ j ∷ [] }, rw (same, free) refl)

  List-cases : (xs : List J) → (xs ≡ []) ⊎ ((j : J) × (rest : List J) × (xs ≡ j ∷ rest))
  List-cases [] = inl refl
  List-cases (j ∷ rest) = inr (j, rest, refl)

  no_jobs : (xs : List J) → length xs ≡ 0 → xs ≡ []
  no_jobs [] h = refl
  no_jobs (j ∷ xs) h = absurd (omega (arith, h))

  -- When the WaitGroup is at 0, every job is finished.
  returned-finished :
      (num_cpu : ℕ) (js : List J) (n : ℕ) (s : FanOut J)
      → s.waiting ≡ 0
      → IsFanned num_cpu js n s
      → everywhere s ≡ s.finished
  returned-finished num_cpu js n s zero_now f =
      let idle = no_jobs (in_hand s.workers) (omega (arith, zero_now, f.counted)) in
      let empty = no_jobs s.queue (omega (arith, zero_now, f.counted)) in
      let sent = no_jobs s.unsent (omega (arith, zero_now, f.counted)) in
      rw (idle, empty, sent) (append-nil s.finished)

  -- The worker pool is never stuck while TickAll waits.
  waiting-CanAct :
      (num_cpu : ℕ) (js : List J) (n : ℕ) (s : FanOut J)
      → 0 < num_cpu
      → 0 < s.waiting
      → IsFanned num_cpu js n s
      → CanAct num_cpu s
  unfolding act finish_job
  waiting-CanAct num_cpu js n s cpu waits f = elim (busy_or_idle s.workers) [
    | inr (w, done, released) ↦ (finishes w, _, ap (Option.map _) released)
    | inl idle ↦ elim (List-cases s.queue) [
      | inr (j, rest, same) ↦
          let hands : 0 < worker_count num_cpu = ground arith in
          can_take num_cpu j rest s same idle (rw f.staffed hands)
      | inl empty ↦ elim (List-cases s.unsent) [
        | inr (j, rest, same) ↦ can_send num_cpu j rest s same (rw empty (omega (arith, cpu)))
        | inl sent ↦
            let none_left = rw (idle, empty, sent) at f.counted in
            absurd (omega (arith, none_left, waits))
      ]
    ]
  ]

-- TickAll's jobs, on the pool of a machine that has a CPU, whatever the order in which TickAll and the workers
-- act: at most three actions for each job take place, and as long as the WaitGroup is not at 0 one of them
-- can take place, so that TickAll returns; when it is at 0, each job has been processed once and no other
-- has, in some order. The channel never has more jobs than its capacity.
pub fan_out-IsOrder :
    (num_cpu : ℕ) (js : List (ChunkId × Work)) (acts : List (Action (ChunkId × Work)))
    (s : FanOut (ChunkId × Work))
    → 0 < num_cpu
    → DistinctKeys js
    → act_all (ChunkId × Work) num_cpu acts (fan_out (ChunkId × Work) num_cpu js) ≡ some s
    → (length acts ≤ 3 * length js)
      × (length s.queue ≤ job_capacity num_cpu)
      × (((s.waiting ≡ 0) × IsOrder s.finished js) ⊎ ((0 < s.waiting) × CanAct num_cpu s))
fan_out-IsOrder num_cpu js acts s cpu distinct h =
    let f =
      act_all-IsFanned num_cpu js acts 0 (fan_out (ChunkId × Work) num_cpu js) s
        (fan_out-IsFanned num_cpu js) h in
    (
      omega (arith, f.spent),
      f.fits,
      elim (Bool-cases (s.waiting == 0)) [
        | inl returned ↦
            let zero_now = ==→≡ s.waiting 0 returned in
            let same = returned-finished num_cpu js (0 + length acts) s zero_now f in
            let all : Permᴰ js s.finished = subst (λ ks. Permᴰ js ks) same f.all in
            inl (
              zero_now,
              record {
                distinct = perm-DistinctKeys all distinct;
                same = λ k. sym (find-perm k all distinct);
              },
            )
        | inr more ↦
            let waits : 0 < s.waiting = ground (arith, more) in
            inr (waits, waiting-CanAct num_cpu js (0 + length acts) s cpu waits f)
      ],
    )
