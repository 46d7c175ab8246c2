-- ===== src/Judge/Manager/Worked.antt =====
-- What one step of one worker thread changes in the manager.
use vibe_coding.Prelude.{
  ℕ, ◌+◌, ◌-◌, ◌≤◌, ◌<◌, ◌≡◌, refl, Bool, true, false, Option, none, some, List, [], ◌∷◌, ◌==◌,
  if◌then◌else◌, arith, length, count, map,
}
use vibe_coding.Judge.Manager.{
  Item, Delivered, Worker, waiting, exited, running, completed, retired, Manager, promises,
}
use vibe_coding.Judge.Manager.Step.{leave, erase, take_item, work}

le-absurd : ◌<◌ 0 0 → ⊥
le-absurd h = omega arith

abbrev pub same : ℕ → ℕ → ℕ
same a b = if b == a then 1 else 0

count-erase :
    (a p : ℕ) (items : List Item)
    → count a (promises (erase p items)) ≡ count a (promises items) - same a p
unfolding erase
count-erase a p [] = ground arith
count-erase a p (item ∷ items) = ground (arith, count-erase a p items)

module _ {Out : Type 0} where
  -- The worker has item `a`; it has it in `active_items_`; it runs it; and the worker has ended.
  abbrev pub holds : ℕ → Worker Out → ℕ
  holds a (running item) = same a item.promise
  holds a (completed item d) = same a item.promise
  holds a (retired item d) = same a item.promise
  holds a _ = 0

  abbrev pub lists : ℕ → Worker Out → ℕ
  lists a (running item) = same a item.promise
  lists a (completed item d) = same a item.promise
  lists a _ = 0

  abbrev pub is_running : Worker Out → ℕ
  is_running (running item) = 1
  is_running _ = 0

  abbrev pub has_exited : Worker Out → ℕ
  has_exited exited = 1
  has_exited _ = 0

  -- The promises that have their result.
  abbrev pub resolved : List (ℕ × Delivered Out) → List ℕ
  resolved = map λ r. r.0

  -- What the workers leave alone.
  pub record Frame (m m' : Manager Out) : Type 0 where
    pub capacity : m'.queue_capacity ≡ m.queue_capacity
    pub reservations : m'.reserved ≡ m.reserved
    pub stopping : m'.is_stopped ≡ m.is_stopped
    pub ending : m'.workers_stop ≡ m.workers_stop
    pub promised : m'.next_promise ≡ m.next_promise
    pub tokens : m'.cancelled ≡ m.cancelled
    pub accepts : m'.accepted_count ≡ m.accepted_count
    pub pending : m'.uncounted ≡ m.uncounted

  worker-Frame :
      (m : Manager Out) (q l : List Item) (c : ℕ) (r : List (ℕ × Delivered Out))
      → Frame m (record m { queue = q; active_items = l; completed_count = c; results = r })
  worker-Frame m q l c r = record {
    capacity = refl;
    reservations = refl;
    stopping = refl;
    ending = refl;
    promised = refl;
    tokens = refl;
    accepts = refl;
    pending = refl;
  }

  -- What one step of one worker does.
  pub record Worked (m m' : Manager Out) (w w' : Worker Out) : Type 0 where
    pub places :
        (a : ℕ)
        → count a (promises m'.queue) + holds a w' + count a (resolved m'.results)
          ≡ count a (promises m.queue) + holds a w + count a (resolved m.results)
    pub room : length m'.queue ≤ length m.queue
    pub books :
        m'.completed_count + length m'.queue + is_running w'
        ≡ m.completed_count + length m.queue + is_running w
    pub listed :
        (a : ℕ)
        → lists a w ≤ count a (promises m.active_items)
        → count a (promises m'.active_items) + lists a w
          ≡ count a (promises m.active_items) + lists a w'
    pub waits :
        (a : ℕ)
        → count a (promises m'.queue) + count a (promises m'.active_items)
          ≤ count a (promises m.queue) + count a (promises m.active_items)
    pub left : has_exited w ≤ has_exited w'
    pub ends : has_exited w < has_exited w' → (m.queue ≡ []) × (m.workers_stop ≡ true)
    pub same_queue : m.queue ≡ [] → m'.queue ≡ []
    pub frame : Frame m m'

  -- The same of a step that may not be possible.
  abbrev pub WorkedIf : Manager Out → Worker Out → Option (Worker Out × Manager Out) → Type 0
  WorkedIf m w none = Unit {0}
  WorkedIf m w (some (w', m')) = Worked m m' w w'

  leave-Worked :
      (b : Bool) (m : Manager Out)
      → m.workers_stop ≡ b
      → m.queue ≡ []
      → WorkedIf m waiting (leave b m)
  unfolding leave
  leave-Worked true m stop e = record {
    places = λ a. ground arith;
    room = omega arith;
    books = ground arith;
    listed = λ a h. ground arith;
    waits = λ a. omega arith;
    left = omega arith;
    ends = λ h. (e, stop);
    same_queue = λ h. h;
    frame = worker-Frame m m.queue m.active_items m.completed_count m.results;
  }
  leave-Worked false m stop e = tt

  take_item-Worked :
      (q : List Item) (m : Manager Out) → m.queue ≡ q → WorkedIf m waiting (take_item q m)
  unfolding take_item
  take_item-Worked [] m e = leave-Worked m.workers_stop m refl e
  take_item-Worked (item ∷ rest) m e = record {
    places = λ a. rw e (omega arith);
    room = rw e (omega arith);
    books = rw e (omega arith);
    listed = λ a h. ground arith;
    waits = λ a. rw e (omega arith);
    left = omega arith;
    ends = λ h. absurd (le-absurd h);
    same_queue = λ h. cc;
    frame = worker-Frame m rest (item ∷ m.active_items) m.completed_count m.results;
  }

  pub work-Worked :
      (done : Delivered Out) (w : Worker Out) (m : Manager Out) → WorkedIf m w (work done w m)
  unfolding work
  work-Worked done exited m = tt
  work-Worked done waiting m = take_item-Worked m.queue m refl
  work-Worked done (running item) m = record {
    places = λ a. ground arith;
    room = omega arith;
    books = omega arith;
    listed = λ a h. ground arith;
    waits = λ a. omega arith;
    left = omega arith;
    ends = λ h. absurd (le-absurd h);
    same_queue = λ h. h;
    frame = worker-Frame m m.queue m.active_items (m.completed_count + 1) m.results;
  }
  work-Worked done (completed item d) m = record {
    places = λ a. ground arith;
    room = omega arith;
    books = omega arith;
    listed = λ a h. ground (arith, count-erase a item.promise m.active_items);
    waits = λ a. omega (arith, count-erase a item.promise m.active_items);
    left = omega arith;
    ends = λ h. absurd (le-absurd h);
    same_queue = λ h. h;
    frame = worker-Frame m m.queue (erase item.promise m.active_items) m.completed_count m.results;
  }
  work-Worked done (retired item d) m = record {
    places = λ a. ground arith;
    room = omega arith;
    books = omega arith;
    listed = λ a h. ground arith;
    waits = λ a. omega arith;
    left = omega arith;
    ends = λ h. absurd (le-absurd h);
    same_queue = λ h. h;
    frame = worker-Frame m m.queue m.active_items m.completed_count ((item.promise, d) ∷ m.results);
  }
