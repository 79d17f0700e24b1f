-- ===== src/BaseServer/Laws.antt =====
-- The set of connections under registration, deregistration and `stopConnections`.
use mbtest.Prelude.{
  ℕ, ◌<◌, ◌≡◌, refl, false, ◌||◌, ◌&&◌, not, List, [], ◌∷◌, if◌then◌else◌, ◌==◌, arith, All,
}
use mbtest.Interfaces.{GlobalService}
use mbtest.Worker.{Heap, stop}
use mbtest.BaseServer.{
  insert, erase, contains, register_connection, deregister_connection, stop_all, stop_connections,
}

-- Ascending, and so without duplicates.
abbrev pub IsAscending : List ℕ → Type 0
IsAscending [] = Unit
IsAscending (x ∷ xs) = All (λ y. x < y) xs × IsAscending xs

All-insert : (n w : ℕ) (xs : List ℕ) → n < w → All (λ y. n < y) xs → All (λ y. n < y) (insert w xs)
unfolding insert
All-insert n w [] h hx = (h, tt)
All-insert n w (x ∷ xs) h (hx, hxs) = ground (arith, All-insert n w xs h hxs)

All-erase : (n w : ℕ) (xs : List ℕ) → All (λ y. n < y) xs → All (λ y. n < y) (erase w xs)
unfolding erase
All-erase n w [] hx = tt
All-erase n w (x ∷ xs) (hx, hxs) = ground (arith, All-erase n w xs hxs)

All-lt_trans : (m n : ℕ) (xs : List ℕ) → m < n → All (λ y. n < y) xs → All (λ y. m < y) xs
All-lt_trans m n [] h hx = tt
All-lt_trans m n (x ∷ xs) h (hx, hxs) = (omega arith, All-lt_trans m n xs h hxs)

pub insert-IsAscending : (w : ℕ) (xs : List ℕ) → IsAscending xs → IsAscending (insert w xs)
unfolding insert
insert-IsAscending w [] h = (tt, tt)
insert-IsAscending w (x ∷ xs) (hx, hxs) =
    ground (arith, insert-IsAscending w xs hxs, All-insert x w xs, All-lt_trans w x xs)

pub erase-IsAscending : (w : ℕ) (xs : List ℕ) → IsAscending xs → IsAscending (erase w xs)
unfolding erase
erase-IsAscending w [] h = tt
erase-IsAscending w (x ∷ xs) (hx, hxs) =
    ground (arith, erase-IsAscending w xs hxs, All-erase x w xs hx)

pub contains-insert : (w v : ℕ) (xs : List ℕ) → contains (insert w xs) v ≡ (w == v || contains xs v)
unfolding insert contains
contains-insert w v [] = refl
contains-insert w v (x ∷ xs) = ground (arith, contains-insert w v xs)

not_contains : (w v : ℕ) (xs : List ℕ) → w ≡ v → All (λ y. w < y) xs → contains xs v ≡ false
unfolding contains
not_contains w v [] e h = refl
not_contains w v (x ∷ xs) e (hx, h) = ground (arith, not_contains w v xs e h)

pub contains-erase :
    (w v : ℕ) (xs : List ℕ)
    → IsAscending xs
    → contains (erase w xs) v ≡ (not (w == v) && contains xs v)
unfolding erase contains
contains-erase w v [] h = ground arith
contains-erase w v (x ∷ xs) (hx, h) = ground (arith, contains-erase w v xs h, not_contains x v xs)

-- The connections are a set in ascending order: registering adds one address and deregistering
-- removes one, whatever there is, and keeps the order; and deregistering hands the address to the
-- global service.
pub connections_lem :
    {State : Type 0} (server : GlobalService State) (w v : ℕ) (xs : List ℕ) (s : State)
    → IsAscending xs
    → IsAscending (register_connection w xs)
      × (contains (register_connection w xs) v ≡ (w == v || contains xs v))
      × IsAscending (deregister_connection server w (xs, s)).0
      × (contains (deregister_connection server w (xs, s)).0 v ≡ (not (w == v) && contains xs v))
      × ((deregister_connection server w (xs, s)).1 ≡ server.delete_worker w s)
unfolding register_connection deregister_connection
connections_lem server w v xs s h = (
  insert-IsAscending w xs h,
  contains-insert w v xs,
  erase-IsAscending w xs h,
  contains-erase w v xs h,
  refl,
)

module _ {State : Type 0} (cancel : ℕ → State → State) where
  stop_all_flag :
      (v : ℕ) (xs : List ℕ) (h : Heap) (s : State)
      → ((stop_all cancel xs (h, s)).0 v).b_running
        ≡ (if contains xs v then false else (h v).b_running)
  unfolding stop_all stop contains
  stop_all_flag v [] h s = refl
  stop_all_flag v (x ∷ xs) h s =
      ground (arith, stop_all_flag v xs (stop cancel x (h, s)).0 (cancel x s))

  stop_all_joinable :
      (v : ℕ) (xs : List ℕ) (h : Heap) (s : State)
      → ((stop_all cancel xs (h, s)).0 v).joinable ≡ (h v).joinable
  unfolding stop_all stop
  stop_all_joinable v [] h s = refl
  stop_all_joinable v (x ∷ xs) h s =
      ground (arith, stop_all_joinable v xs (stop cancel x (h, s)).0 (cancel x s))

  -- `stopConnections` clears the flag of every worker in the set and of no other, leaves the
  -- threads as they are, and empties the set.
  pub stop_connections_lem :
      (v : ℕ) (xs : List ℕ) (h : Heap) (s : State)
      → ((stop_connections cancel xs (h, s)).0 ≡ [])
        × (((stop_connections cancel xs (h, s)).1 v).b_running
            ≡ (if contains xs v then false else (h v).b_running))
        × (((stop_connections cancel xs (h, s)).1 v).joinable ≡ (h v).joinable)
  unfolding stop_connections
  stop_connections_lem v xs h s = (refl, stop_all_flag v xs h s, stop_all_joinable v xs h s)
