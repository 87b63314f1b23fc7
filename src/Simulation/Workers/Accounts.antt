-- ===== src/Simulation/Workers/Accounts.antt =====
-- Where the jobs are while the workers process them.
use mathlib.Core.List.{Permᴰ, append_assoc}
use mathlib.Core.Option as Option
use mathlib.Core.Option.{some-injective}
use mathlib.Core.List.Permᴰ
use distributed_game_of_life.Prelude.{
  ℕ, zero, suc, ◌+◌, ◌-◌, ◌*◌, ◌≤◌, ◌<◌, ◌≡◌, refl, sym, ap, ◌∙◌, arith, ltb, length, length-append,
  List, [], ◌∷◌, ◌++◌, Option, none, some, Bool-cases, inl, inr,
}
use distributed_game_of_life.Simulation.Workers.{
  worker_count, job_capacity, FanOut, Action, sends, takes, finishes, send_job, hire, release,
  take_job, finish_job, act,
}

mapped :
    {A B : Type 0} (f : A → B) (m : Option A) (y : B)
    → Option.map f m ≡ some y
    → (x : A) × (m ≡ some x) × (f x ≡ y)
mapped f none y h = absurd (cc h)
mapped f (some x) y h = (x, refl, some-injective (f x) y h)

module _ {J : Type 0} where
  -- The jobs that the workers have.
  abbrev pub in_hand : List (Option J) → List J
  in_hand [] = []
  in_hand (none ∷ ws) = in_hand ws
  in_hand (some j ∷ ws) = j ∷ in_hand ws

  -- All the jobs, wherever they are.
  abbrev pub everywhere : FanOut J → List J
  everywhere s = s.finished ++ (in_hand s.workers ++ (s.queue ++ s.unsent))

  -- The actions that are left.
  abbrev pub left : FanOut J → ℕ
  left s = 3 * length s.unsent + 2 * length s.queue + length (in_hand s.workers)

  -- One more worker in front, with or without a job.
  hands_grow :
      (x : Option J) (j : J) (vs ws : List (Option J))
      → Permᴰ (in_hand vs) (j ∷ in_hand ws)
      → Permᴰ (in_hand (x ∷ vs)) (j ∷ in_hand (x ∷ ws))
  hands_grow none j vs ws p = p
  hands_grow (some i) j vs ws p = Permᴰ.trans (Permᴰ.cons refl p) (Permᴰ.swap refl refl)

  hire-in_hand :
      (w : ℕ) (j : J) (ws vs : List (Option J))
      → hire J w j ws ≡ some vs
      → Permᴰ (in_hand vs) (j ∷ in_hand ws) × (length vs ≡ length ws)
  unfolding hire
  hire-in_hand zero j [] vs h = absurd (cc h)
  hire-in_hand (suc w) j [] vs h = absurd (cc h)
  hire-in_hand zero j (none ∷ ws) vs h =
      let same = some-injective (some j ∷ ws) vs h in
      rw (sym same) (Permᴰ.refl (j ∷ in_hand ws), refl)
  hire-in_hand zero j (some i ∷ ws) vs h = absurd (cc h)
  hire-in_hand (suc w) j (x ∷ ws) vs h =
      let (us, hired, same) = mapped (λ vs. x ∷ vs) (hire J w j ws) vs h in
      let rest = hire-in_hand w j ws us hired in
      rw (sym same) (hands_grow x j us ws rest.0, ap suc rest.1)

  release-in_hand :
      (w : ℕ) (ws : List (Option J)) (done : J × List (Option J))
      → release J w ws ≡ some done
      → Permᴰ (in_hand ws) (done.0 ∷ in_hand done.1) × (length done.1 ≡ length ws)
  unfolding release
  release-in_hand zero [] done h = absurd (cc h)
  release-in_hand (suc w) [] done h = absurd (cc h)
  release-in_hand zero (none ∷ ws) done h = absurd (cc h)
  release-in_hand zero (some i ∷ ws) done h =
      let same = some-injective (i, none ∷ ws) done h in
      rw (sym same) (Permᴰ.refl (i ∷ in_hand ws), refl)
  release-in_hand (suc w) (x ∷ ws) done h =
      let (got, released, same) = mapped (λ done. (done.0, x ∷ done.1)) (release J w ws) done h in
      let rest = release-in_hand w ws got released in
      rw (sym same) (hands_grow x got.0 ws got.1 rest.0, ap suc rest.1)

  length-perm : {xs ys : List J} → Permᴰ xs ys → length xs ≡ length ys
  length-perm Permᴰ.nil = refl
  length-perm (Permᴰ.cons e p) = ap suc (length-perm p)
  length-perm (Permᴰ.swap e f) = refl
  length-perm (Permᴰ.trans p q) = length-perm p ∙ length-perm q

  -- The jobs, after some actions: none is lost, and each action is one of the three that a job needs.
  pub record IsFanned (num_cpu : ℕ) (js : List J) (actions : ℕ) (s : FanOut J) : Type 0 where
    pub all : Permᴰ js (everywhere s)
    pub counted : s.waiting ≡ length (in_hand s.workers) + length s.queue + length s.unsent
    pub spent : left s + actions ≡ 3 * length js
    pub fits : length s.queue ≤ job_capacity num_cpu
    pub staffed : length s.workers ≡ worker_count num_cpu

  module _ (num_cpu : ℕ) (js : List J) (n : ℕ) (s s' : FanOut J) (f : IsFanned num_cpu js n s) where
    sent-IsFanned :
        (j : J) (rest : List J)
        → s.unsent ≡ j ∷ rest
        → length s.queue < job_capacity num_cpu
        → IsFanned num_cpu js (n + 1) (record s { unsent = rest; queue = s.queue ++ j ∷ [] })
    sent-IsFanned j rest same room =
        let longer = length-append s.queue (j ∷ []) in
        let before = rw same at f.all in
        let counted = rw same at f.counted in
        let spent = rw same at f.spent in
        record {
          all = rw (append_assoc s.queue (j ∷ []) rest) before;
          counted = omega (arith, longer, counted);
          spent = omega (arith, longer, spent);
          fits = omega (arith, longer, room);
          staffed = f.staffed;
        }

    taken-IsFanned :
        (j : J) (rest : List J) (ws : List (Option J))
        → s.queue ≡ j ∷ rest
        → Permᴰ (in_hand ws) (j ∷ in_hand s.workers) × (length ws ≡ length s.workers)
        → IsFanned num_cpu js (n + 1) (record s { queue = rest; workers = ws })
    taken-IsFanned j rest ws same hired =
        let longer = length-perm hired.0 in
        let before = rw same at f.all in
        let counted = rw same at f.counted in
        let spent = rw same at f.spent in
        let fits = rw same at f.fits in
        let moved =
          Permᴰ.trans (Permᴰ.append_right (rest ++ s.unsent) hired.0)
            (Permᴰ.symm (Permᴰ.middle j (in_hand s.workers) (rest ++ s.unsent))) in
        record {
          all = Permᴰ.trans before (Permᴰ.append_left s.finished (Permᴰ.symm moved));
          counted = omega (arith, longer, counted);
          spent = omega (arith, longer, spent);
          fits = omega (arith, fits);
          staffed = hired.1 ∙ f.staffed;
        }

    finished-IsFanned :
        (j : J) (ws : List (Option J))
        → Permᴰ (in_hand s.workers) (j ∷ in_hand ws) × (length ws ≡ length s.workers)
        → IsFanned num_cpu js
            (n + 1)
            (record s { workers = ws; finished = s.finished ++ j ∷ []; waiting = s.waiting - 1 })
    finished-IsFanned j ws released =
        let shorter = length-perm released.0 in
        let others = s.queue ++ s.unsent in
        let moved = Permᴰ.append_left s.finished (Permᴰ.append_right others released.0) in
        record {
          all =
              rw (append_assoc s.finished (j ∷ []) (in_hand ws ++ others))
                (Permᴰ.trans f.all moved);
          counted = omega (arith, shorter, f.counted);
          spent = omega (arith, shorter, f.spent);
          fits = f.fits;
          staffed = released.1 ∙ f.staffed;
        }

    send_job-IsFanned :
        (unsent : List J)
        → s.unsent ≡ unsent
        → send_job J num_cpu unsent s ≡ some s'
        → IsFanned num_cpu js (n + 1) s'
    unfolding send_job
    send_job-IsFanned [] same h = absurd (cc h)
    send_job-IsFanned (j ∷ rest) same h =
        elim (Bool-cases (ltb (length s.queue) (job_capacity num_cpu))) [
          | inl room ↦
              let made = some-injective _ s' (rw room at h) in
              rw (sym made) (sent-IsFanned j rest same (ground (arith, room)))
          | inr full ↦ let blocked : none ≡ some s' = rw full at h in absurd (cc blocked)
        ]

    take_job-IsFanned :
        (w : ℕ) (queue : List J)
        → s.queue ≡ queue
        → take_job J w queue s ≡ some s'
        → IsFanned num_cpu js (n + 1) s'
    unfolding take_job
    take_job-IsFanned w [] same h = absurd (cc h)
    take_job-IsFanned w (j ∷ rest) same h =
        let (ws, hired, made) =
          mapped (λ ws. record s { queue = rest; workers = ws }) (hire J w j s.workers) s' h in
        rw (sym made) (taken-IsFanned j rest ws same (hire-in_hand w j s.workers ws hired))

    finish_job-IsFanned : (w : ℕ) → finish_job J w s ≡ some s' → IsFanned num_cpu js (n + 1) s'
    unfolding finish_job
    finish_job-IsFanned w h =
        let (done, released, made) =
          mapped
            (λ done. record s {
              workers = done.1;
              finished = s.finished ++ done.0 ∷ [];
              waiting = s.waiting - 1;
            })
            (release J w s.workers) s' h in
        rw (sym made) (finished-IsFanned done.0 done.1 (release-in_hand w s.workers done released))

    pub act-IsFanned : (a : Action J) → act J num_cpu a s ≡ some s' → IsFanned num_cpu js (n + 1) s'
    unfolding act
    act-IsFanned sends h = send_job-IsFanned s.unsent refl h
    act-IsFanned (takes w) h = take_job-IsFanned w s.queue refl h
    act-IsFanned (finishes w) h = finish_job-IsFanned w h
