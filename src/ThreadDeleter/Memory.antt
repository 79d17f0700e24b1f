-- ===== src/ThreadDeleter/Memory.antt =====
-- A list as the queue: an instance of the interface that meets what is asked of it.
use mbtest.Prelude.{
  ℕ, refl, Bool, true, ◌&&◌, Option, none, some, List, [], ◌∷◌, ◌++◌, if◌then◌else◌, arith,
}
use mbtest.ThreadDeleter.{BlockingCollection, IsFifo, is_empty}

pub record Fifo : Type 0 where
  pub content : List ℕ
  pub done : Bool

abbrev first : List ℕ → Option ℕ
first [] = none
first (w ∷ ws) = some w

abbrev rest : List ℕ → List ℕ
rest [] = []
rest (w ∷ ws) = ws

abbrev pub memory : BlockingCollection
memory = record {
  Queue = Fifo;
  is_completed = λ q. q.done && is_empty q.content;
  take = λ q. (first q.content, record q { content = rest q.content });
  add = λ w q. if q.done then q else record q { content = q.content ++ (w ∷ []) };
  complete_adding = λ q. record q { done = true };
}

unfoldable pub memory-IsFifo : IsFifo memory
memory-IsFifo = record {
  items = λ q. q.content;
  closed = λ q. q.done;
  completed = λ q. refl;
  take_first = λ q w ws e. ground arith;
  add_open = λ w q open_. ground arith;
  add_closed = λ w q done. ground arith;
  close = λ q. (refl, refl);
}
