-- ===== src/Tests/Bounded.antt =====
-- A bounded queue with two places, for the queue of oryx/spsc_queue.h.
use oryxgame.Common.{
  ◌≤◌, ◌<◌, ◌≡◌, refl, Bool, true, false, Option, none, some, List, [], ◌∷◌, ◌++◌, arith, length,
}
use oryxgame.SpscQueue.{BoundedQueue, Spsc}

pub data Two (A : Type 0) : Type 0 where
  no_item : Two A
  one_item : A → Two A
  two_items : A → A → Two A

module _ {A : Type 0} where
  abbrev pub held : Two A → List A
  held no_item = []
  held (one_item a) = a ∷ []
  held (two_items a b) = a ∷ b ∷ []

  abbrev pub put : Two A → A → Bool × Two A
  put no_item c = (true, one_item c)
  put (one_item a) c = (true, two_items a c)
  put (two_items a b) c = (false, two_items a b)

  abbrev pub get : Two A → Option A × Two A
  get no_item = (none, no_item)
  get (one_item a) = (some a, no_item)
  get (two_items a b) = (some a, one_item b)

  pub held_le : (q : Two A) → length (held q) ≤ 2
  held_le no_item = omega arith
  held_le (one_item a) = omega arith
  held_le (two_items a b) = omega arith

  pub put_accepts :
      (q : Two A) (c : A)
      → length (held q) < 2
      → ((put q c).0 ≡ true) × (held (put q c).1 ≡ held q ++ (c ∷ []))
  put_accepts no_item c h = (refl, refl)
  put_accepts (one_item a) c h = (refl, refl)
  put_accepts (two_items a b) c h = absurd (omega arith)

  pub put_refuses :
      (q : Two A) (c : A)
      → 2 ≤ length (held q)
      → ((put q c).0 ≡ false) × (held (put q c).1 ≡ held q)
  put_refuses no_item c h = absurd (omega arith)
  put_refuses (one_item a) c h = absurd (omega arith)
  put_refuses (two_items a b) c h = (refl, refl)

  pub get_empty : (q : Two A) → held q ≡ [] → ((get q).0 ≡ none) × (held (get q).1 ≡ [])
  get_empty no_item e = (refl, refl)
  get_empty (one_item a) e = absurd (cc)
  get_empty (two_items a b) e = absurd (cc)

  pub get_first :
      (q : Two A) (c : A) (rest : List A)
      → held q ≡ c ∷ rest
      → ((get q).0 ≡ some c) × (held (get q).1 ≡ rest)
  get_first no_item c rest e = absurd (cc)
  get_first (one_item a) c rest e = (cc, cc)
  get_first (two_items a b) c rest e = (cc, cc)

abbrev pub bounded_of : (A : Type 0) → BoundedQueue A
bounded_of A = record {
  Queue = Two A;
  capacity = 2;
  contents = held;
  push = put;
  pop = get;
  length_le = held_le;
  push_accepts = put_accepts;
  push_refuses = put_refuses;
  pop_empty = get_empty;
  pop_first = get_first;
}

abbrev pub fresh : {A : Type 0} → Spsc A (Two A)
fresh = record { cache = []; queue = no_item }
