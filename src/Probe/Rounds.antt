-- ===== src/Probe/Rounds.antt =====
-- The loop over the proxy pool asks few entries, and only entries of the pool.
use cpa_codex_turn_state_plu.Base.{
  ℕ, zero, suc, ◌+◌, ◌%◌, ◌≤◌, ◌<◌, ◌≡◌, refl, ◌^◌, Option, some, inl, inr, Bool, true, false, not,
  ◌||◌, none, List, [], ◌∷◌, ◌++◌, ltb, length, length-append, Bool-cases, All, All-append, arith,
  Text, nat_eq, str,
}
use native.Mathlib.Nat.{mod-lt}
use cpa_codex_turn_state_plu.Base.Int.{ℤ, pos, negsuc, to_nat, more_than}
use cpa_codex_turn_state_plu.State.{RuntimeState, time_at}
use cpa_codex_turn_state_plu.Probe.{
  ProbeJob, Round, Attempted, Verdict, finish, go_on, attempt, pool_index, rounds, run_probe,
}

-- What the loop keeps: the entries asked are of the pool, and at most `max` in number.
pub record IsWithin (job : ProbeJob) (asked : List ℕ) : Type 0 where
  pub few : length asked ≤ to_nat job.config.probe.max_attempts
  pub pooled : All (λ i. i < length job.config.probe.proxy_pool) asked

more_than-lt : (z : ℤ) (n : ℕ) → more_than z n ≡ true → n < to_nat z
more_than-lt (pos m) n h = ground (arith, h)
more_than-lt (negsuc m) n h = cc

-- One more entry, while there is an attempt left.
ask :
    (job : ProbeJob) (index attempts : ℕ) (asked : List ℕ)
    → length asked ≤ attempts
    → more_than job.config.probe.max_attempts attempts ≡ true
    → index < length job.config.probe.proxy_pool
    → All (λ i. i < length job.config.probe.proxy_pool) asked
    → IsWithin job (asked ++ index ∷ [])
ask job index attempts asked h more i all = record {
  few = ground (
    arith,
    length-append asked (index ∷ []),
    more_than-lt job.config.probe.max_attempts attempts more,
    h,
  );
  pooled = All-append (λ i. i < length job.config.probe.proxy_pool) asked (index ∷ []) all (i, tt);
}

-- The loop comes to an end without a panic, and has asked such entries.
abbrev pub Ends : ProbeJob → Option Attempted → Type 0
Ends job r = (a : Attempted) × (r ≡ some a) × IsWithin job a.asked

pool_index-lt :
    (start offset size : ℕ)
    → start + offset < 2 ^ 63
    → 0 < size
    → (i : ℕ) × (pool_index start offset size ≡ some i) × (i < size)
unfolding pool_index
pool_index-lt start offset size h pool =
    let sum = (start + offset) % 2 ^ 64 in
    let low : ltb sum (2 ^ 63) ≡ true = ground (arith, h) in
    (sum % size, rw low refl, mod-lt sum pool)

-- The rest of the loop after an attempt.
after_attempt :
    (job : ProbeJob) (asked : List ℕ) (rest : Option Attempted) (s : RuntimeState) (outcome : Text)
    (v : Verdict)
    → IsWithin job asked
    → Ends job rest
    → Ends job (elim v as (λ _. Option Attempted) [
      | finish c ↦ some (record { state = s; candidate = c; outcome = outcome; asked = asked })
      | go_on ↦ rest
    ])
after_attempt job asked rest s outcome (finish c) h k = (_, refl, h)
after_attempt job asked rest s outcome go_on h k = k

rounds-Ends :
    (job : ProbeJob) (env : ℕ → Round) (left offset attempts : ℕ) (a : Attempted)
    → 0 < length job.config.probe.proxy_pool
    → job.start + (offset + left) ≤ 2 ^ 63
    → length a.asked ≤ attempts
    → IsWithin job a.asked
    → Ends job (rounds job env left offset attempts a)
unfolding rounds
rounds-Ends job env zero offset attempts a pool low h w = (a, refl, w)
rounds-Ends job env (suc left) offset attempts a pool low h w =
    let round = env offset in
    let (index, found, inside) =
      pool_index-lt job.start offset (length job.config.probe.proxy_pool) (omega (arith, low))
        pool in
    let answered = round.fetch index in
    let r = attempt a.state job index round.after answered.0 answered.1 in
    elim (Bool-cases
      (not (more_than job.config.probe.max_attempts attempts) || not round.in_time)) [
        | inl stop ↦ rw stop (a, refl, w)
        | inr going ↦ elim (Bool-cases (ltb round.at (time_at index a.state.proxy_blocked_until))) [
          | inl blocked ↦
              rw (going, found, blocked)
                (rounds-Ends job env left (offset + 1) attempts a pool (omega (arith, low)) h w)
          | inr free ↦
              let more : more_than job.config.probe.max_attempts attempts ≡ true =
                ground (arith, going) in
              let wider = ask job index attempts a.asked h more inside w.pooled in
              rw (going, found, free)
                (after_attempt job (a.asked ++ index ∷ []) _ r.0 r.1 r.2 wider (
                  rounds-Ends job env left (offset + 1) (attempts + 1)
                    (record {
                      state = r.0;
                      candidate = none;
                      outcome = r.1;
                      asked = a.asked ++ index ∷ [];
                    })
                    pool (omega (arith, low))
                    (ground (arith, h, length-append a.asked (index ∷ []))) wider))
        ]
      ]

-- While the cursor of the pool is at most 2 ^ 63 less the size of the pool, the loop of a probe ends
-- without a panic; it has asked at most as many entries as the configuration allows attempts, and no
-- index outside the pool.
pub run_probe-IsWithin :
    (s : RuntimeState) (job : ProbeJob) (has_auth : Bool) (env : ℕ → Round)
    → job.start + length job.config.probe.proxy_pool ≤ 2 ^ 63
    → Ends job (run_probe s job has_auth env)
unfolding run_probe rounds
run_probe-IsWithin s job false env low = (_, refl, record { few = omega arith; pooled = tt })
run_probe-IsWithin s job true env low =
    elim (Bool-cases (ltb 0 (length job.config.probe.proxy_pool))) [
      | inl h ↦
          rounds-Ends job env (length job.config.probe.proxy_pool) 0 0
            (record { state = s; candidate = none; outcome = str "probe_failed"; asked = [] })
            (ground (arith, h)) (omega (arith, low)) (omega arith)
            (record { few = omega arith; pooled = tt })
      | inr h ↦
          let empty : length job.config.probe.proxy_pool ≡ 0 = ground (arith, h) in
          rw (empty, rounds) (_, refl, record { few = omega arith; pooled = tt })
    ]
