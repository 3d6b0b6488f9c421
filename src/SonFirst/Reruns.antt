-- ===== src/SonFirst/Reruns.antt =====
-- named_sem_no_unlink.c run again and again on the semaphore that it leaves.
use linux_application_layer.Common.{ℕ, suc, ◌≡◌, refl, List, [], ◌∷◌}
use linux_application_layer.SonFirst.{Line, father_line, son_line, Pair, Reach, named_sem_no_unlink}
use linux_application_layer.SonFirst.Ends.{no_unlink, BothEnded, son_first-Ends}

-- `History n v outs`: after `n` complete runs, the first of which made the semaphore with value zero,
-- it has the value `v`; the outputs, the latest run first.
pub data History : ℕ → ℕ → List (List Line) → Type 0 where
  fresh : History 0 0 []
  again :
      {n v k : ℕ} {outs : List (List Line)} {w : Pair}
      → History n v outs
      → Reach named_sem_no_unlink v k w
      → BothEnded w
      → History (suc n) w.sem (w.output ∷ outs)

abbrev pub AllInOrder : List (List Line) → Type 0
AllInOrder [] = Unit
AllInOrder (out ∷ outs) = (out ≡ father_line ∷ son_line ∷ []) × AllInOrder outs

-- However often named_sem_no_unlink is run to its end, on the semaphore that it never removes, that
-- semaphore is zero again, and in every run the son has printed before the father.
pub reruns_in_order :
    {n v : ℕ} {outs : List (List Line)} → History n v outs → (v ≡ 0) × AllInOrder outs
reruns_in_order fresh = (refl, tt)
reruns_in_order (again {n} {v} {k} {outs} {w} h r e) =
    let (zero_before, all) = reruns_in_order h in
    let left = son_first-Ends no_unlink r in
    let after = left.2 e in (cc (after.sem, zero_before), (after.in_order zero_before, all))
