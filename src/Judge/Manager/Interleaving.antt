-- ===== src/Judge/Manager/Interleaving.antt =====
-- The manager's invariant under the steps of the worker threads, and so in every reachable state.
use vibe_coding.Prelude.{
  ℕ, ◌+◌, ◌<◌, ◌≡◌, ap, ◌∙◌, sym, inl, inr, true, List, [], ◌∷◌, ◌++◌, ltb, arith, count, sum_of,
  sum_of-append, subst, Bool-cases,
}
use vibe_coding.Judge.Manager.{Worker, Manager, promises}
use vibe_coding.Judge.Manager.Step.{
  Step, numbers, submits, counts, reserves, commits, releases, cancels, stops, works, Reach, here,
  next,
}
use vibe_coding.Judge.Manager.Worked.{
  holds, lists, is_running, has_exited, Worked, WorkedIf, work-Worked,
}
use vibe_coding.Judge.Manager.Invariant.{
  Inv, enqueue-Inv, reserve-Inv, commit-Inv, cancel_all-Inv, assign_id-Inv, count_accepted-Inv,
  stop_workers-Inv, release-Inv,
}

module _ {Out : Type 0} where
  works-Inv :
      (m m' : Manager Out) (before after : List (Worker Out)) (w w' : Worker Out)
      → Inv m
      → m.workers ≡ before ++ w ∷ after
      → Worked m m' w w'
      → Inv (record m' { workers = before ++ w' ∷ after })
  works-Inv m m' before after w w' v e k = record {
    once = λ a. ground (
      arith,
      v.once a,
      k.places a,
      k.frame.promised,
      ap (sum_of (holds a)) e,
      sum_of-append (holds a) before (w ∷ after),
      sum_of-append (holds a) before (w' ∷ after),
    );
    room = omega (arith, v.room, k.room, k.frame.capacity, k.frame.reservations);
    books = omega (
      arith,
      v.books,
      k.books,
      k.frame.accepts,
      k.frame.pending,
      ap (sum_of is_running) e,
      sum_of-append is_running before (w ∷ after),
      sum_of-append is_running before (w' ∷ after),
    );
    order = λ s. k.frame.stopping ∙ v.order (sym k.frame.ending ∙ s);
    active = λ a. omega (
      arith,
      v.active a,
      k.listed a (
          omega (
            arith,
            v.active a,
            ap (sum_of (lists a)) e,
            sum_of-append (lists a) before (w ∷ after),
          )),
      ap (sum_of (lists a)) e,
      sum_of-append (lists a) before (w ∷ after),
      sum_of-append (lists a) before (w' ∷ after),
    );
    tokens = λ a e' h. token a e' h;
    ended = λ h. last h;
  }
    where
      token :
          (a : ℕ)
          → m'.is_stopped ≡ true
          → 0 < count a (promises m'.queue) + count a (promises m'.active_items)
          → 0 < count a m'.cancelled
      token a s h =
          subst (λ c. 0 < count a c) (sym k.frame.tokens)
            (v.tokens a (sym k.frame.stopping ∙ s) (omega (arith, h, k.waits a)))

      last :
          0 < sum_of has_exited (before ++ w' ∷ after) → (m'.queue ≡ []) × (m'.workers_stop ≡ true)
      last h = elim (Bool-cases (ltb (has_exited w) (has_exited w'))) [
        | inl now ↦ let l = k.ends (ground arith) in (k.same_queue l.0, k.frame.ending ∙ l.1)
        | inr before_ ↦
            let l = v.ended (
              ground (
                arith,
                h,
                k.left,
                ap (sum_of has_exited) e,
                sum_of-append has_exited before (w ∷ after),
                sum_of-append has_exited before (w' ∷ after),
              )) in
            (k.same_queue l.0, k.frame.ending ∙ l.1)
      ]

  -- The invariant holds behind every step of every thread.
  pub Step-Inv : {m n : Manager Out} → Step m n → Inv m → Inv n
  Step-Inv {m} (numbers task) v = assign_id-Inv task m v
  Step-Inv {m} (submits task) v = enqueue-Inv task m v
  Step-Inv {m} (counts h) v = count_accepted-Inv m h v
  Step-Inv {m} reserves v = reserve-Inv m v
  Step-Inv {m} (commits task h) v = commit-Inv task m v h
  Step-Inv {m} (releases h) v = release-Inv m v
  Step-Inv {m} cancels v = cancel_all-Inv m v
  Step-Inv {m} (stops h) v = stop_workers-Inv m h v
  Step-Inv {m} (works done before w after w' m' e k) v =
      works-Inv m m' before after w w' v e (subst (WorkedIf m w) k (work-Worked done w m))

  pub Reach-Inv : {m n : Manager Out} → Reach m n → Inv m → Inv n
  Reach-Inv here v = v
  Reach-Inv (next r s) v = Step-Inv s (Reach-Inv r v)
