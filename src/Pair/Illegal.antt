-- ===== src/Pair/Illegal.antt =====
-- The two results on unnamed_sem_bin_process_illegal.c: what it prints, and when it hangs.
use linux_application_layer.Common.{ℕ, ◌≤◌, ◌≡◌, refl, ◌↔◌, inl, inr, Bool, true, false, [], arith}
use linux_application_layer.Counter.Lock.{sem_wait, sem_post}
use linux_application_layer.Pair.{acquiring, closing, father_at, son_at}
use linux_application_layer.Pair.Private.{
  unnamed_sem_bin_process_illegal, Sleepers, father_moves, son_moves, father_sleeps, son_sleeps,
  SleepReach, begin, further,
}
use linux_application_layer.Pair.Tidy.{Reach-size}
use linux_application_layer.Pair.Ends.{BothEnded, Finished, ends}
use linux_application_layer.Pair.Sleep.{
  Reach-Asleep, Reach-Traced, illegal-IsTidy, nap_or_posted, SleepCanStep, wakes_step,
}

-- Whether a post wakes the other process or not, a run of unnamed_sem_bin_process_illegal.c has at
-- most 23 steps, and where both processes end, 2 is printed, no name is left and neither process
-- holds anything.
pub illegal_adds_two :
    (wakes : Bool) {k : ℕ} {w : Sleepers}
    → SleepReach wakes k w
    → (k ≤ 23) × (BothEnded w.pair → Finished w.pair)
illegal_adds_two wakes {k} {w} r =
    let h = Reach-Traced r in
    let a = Reach-Asleep wakes r in
    (
      omega (
        arith,
        h.naps,
        Reach-size unnamed_sem_bin_process_illegal h.reach,
        nap_or_posted w.father_asleep w.pair.father a.father_waits,
        nap_or_posted w.son_asleep w.pair.son a.son_waits,
      ),
      (ends unnamed_sem_bin_process_illegal illegal-IsTidy h.reach).1,
    )

-- A run that goes no further with a process that has not ended.
pub record CanHang (wakes : Bool) : Type 0 where
  pub steps : ℕ
  pub last : Sleepers
  pub reach : SleepReach wakes steps last
  pub still : ¬ SleepCanStep wakes last
  pub unfinished : ¬ BothEnded last.pair

-- The father waits for its son, and the son sleeps in `sem_wait`.
stuck :
    {w : Sleepers}
    → w.pair.father ≡ closing []
    → w.pair.son ≡ acquiring
    → w.son_asleep ≡ true
    → ¬ SleepCanStep false w
unfolding father_at son_at
stuck f s a (t, father_moves b e) = ground arith
stuck f s a (t, son_moves b e) = ground arith
stuck f s a (t, father_sleeps b q z) = ground arith
stuck f s a (t, son_sleeps b q z) = ground arith

-- The father takes the semaphore, the son falls asleep, and the father posts.
sleeps_on : CanHang false
unfolding father_at son_at sem_wait sem_post
sleeps_on =
    let taken : SleepReach false 1 _ = further begin (father_moves refl refl) in
    let asleep : SleepReach false 2 _ = further taken (son_sleeps refl refl refl) in
    let read : SleepReach false 3 _ = further asleep (father_moves refl refl) in
    let written : SleepReach false 4 _ = further read (father_moves refl refl) in
    record {
      steps = 5;
      last = _;
      reach = further written (father_moves refl refl);
      still = stuck refl refl refl;
      unfinished = λ b. ground (arith, b.0);
    }

never_stuck : ¬ CanHang true
never_stuck h =
    let run = (Reach-Traced h.reach).reach in
    elim ((ends unnamed_sem_bin_process_illegal illegal-IsTidy run).0) [
      | inl b ↦ h.unfinished b
      | inr c ↦ h.still (wakes_step h.last (Reach-Asleep true h.reach) c)
    ]

-- unnamed_sem_bin_process_illegal.c has a run that hangs exactly where a post does not wake the
-- other process.
pub hangs_unless_woken : (wakes : Bool) → CanHang wakes ↔ (wakes ≡ false)
hangs_unless_woken true = (λ h. absurd (never_stuck h), λ e. absurd (ground (arith, e)))
hangs_unless_woken false = (λ h. refl, λ e. sleeps_on)
