-- ===== src/BaseServer/Walk.antt =====
-- The loop of `stopConnections` in BaseServer.cpp by its iterator. It does not take the mutex, so
-- that a connection can deregister itself while the loop stands at it.
use mbtest.Prelude.{
  ℕ, zero, suc, ◌+◌, ◌<◌, ◌≤◌, ◌≡◌, refl, ap, ◌∙◌, sym, false, Option, none, some, List, [], ◌∷◌,
  ◌++◌, Outcome, ok, undefined, out_of_fuel, ◌>>=◌, if◌then◌else◌, ◌==◌, ==_refl, arith, All,
  length, append_assoc, get_elem?,
}
use mbtest.Worker.{Heap, stop}
use mbtest.BaseServer.{erase, stop_all, stop_connections}
use mbtest.BaseServer.Laws.{IsAscending}

-- `begin()`, an address or the end of the set.
abbrev pub begin : List ℕ → Option ℕ
begin [] = none
begin (x ∷ xs) = some x

-- `++` on an iterator at an address: undefined if that is not in the set any more.
pub increment : ℕ → List ℕ → Outcome (Option ℕ)
increment w [] = undefined
increment w (x ∷ xs) = if w == x then ok (begin xs) else increment w xs

module _ {State : Type 0} (cancel : ℕ → State → State) (others : ℕ → List ℕ → List ℕ) where
  -- The loop on `fuel` rounds, from an iterator on: `others k` is what other threads do to the set
  -- from the k-th call of `stop` to the increment after it. Then `connections_.clear()`.
  pub walk : ℕ → ℕ → Option ℕ → List ℕ → Heap × State → Outcome (List ℕ × Heap × State)
  walk fuel k none xs (h, s) = ok ([], h, s)
  walk zero k (some w) xs s = out_of_fuel
  walk (suc fuel) k (some w) xs s = do
    let s' = stop cancel w s
    let xs' = others k xs
    next ← increment w xs'
    walk fuel (suc k) next xs' s'

-- Every address of the list comes before the one.
abbrev AreBefore : ℕ → List ℕ → Type 0
AreBefore w = All (λ y. y < w)

increment-here :
    (before : List ℕ) (w : ℕ) (after : List ℕ)
    → AreBefore w before
    → increment w (before ++ (w ∷ after)) ≡ ok (begin after)
unfolding increment
increment-here [] w after h = rw (==_refl w) refl
increment-here (x ∷ before) w after (hx, h) =
    let other : (w == x) ≡ false = ground (arith, hx) in rw other (increment-here before w after h)

All-lt_head :
    (w v : ℕ) (before : List ℕ) → w < v → AreBefore w before → AreBefore v (before ++ (w ∷ []))
All-lt_head w v [] h hb = (h, tt)
All-lt_head w v (x ∷ before) h (hx, hb) = (omega arith, All-lt_head w v before h hb)

AreBefore-begin :
    (w : ℕ) (before after : List ℕ)
    → All (λ y. w < y) after
    → AreBefore w before
    → (v : ℕ) → begin after ≡ some v
    → AreBefore v (before ++ (w ∷ []))
AreBefore-begin w before [] hw hb v e = cc
AreBefore-begin w before (x ∷ after) (hx, hw) hb v e =
    All-lt_head w v before (ground (arith, hx, e)) hb

increment_absent :
    (w : ℕ) (xs : List ℕ) → All (λ y. (w == y) ≡ false) xs → increment w xs ≡ undefined
unfolding increment
increment_absent w [] h = refl
increment_absent w (x ∷ xs) (hx, h) = rw hx (increment_absent w xs h)

above : (w : ℕ) (xs : List ℕ) → All (λ y. w < y) xs → All (λ y. (w == y) ≡ false) xs
above w [] h = tt
above w (x ∷ xs) (hx, h) = (ground (arith, hx), above w xs h)

increment-erase :
    (before : List ℕ) (w : ℕ) (after : List ℕ)
    → AreBefore w before
    → All (λ y. w < y) after
    → increment w (erase w (before ++ (w ∷ after))) ≡ undefined
unfolding increment erase
increment-erase [] w after hb ha = rw (==_refl w) (increment_absent w after (above w after ha))
increment-erase (x ∷ before) w after (hx, hb) ha =
    let other : (w == x) ≡ false = ground (arith, hx) in
    rw (other, other) (increment-erase before w after hb ha)

abbrev emptied : {State : Type 0} → Heap × State → List ℕ × Heap × State
emptied (h, s) = ([], h, s)

module _ {State : Type 0} (cancel : ℕ → State → State) where
  walk_from :
      (others : ℕ → List ℕ → List ℕ) (before after : List ℕ) (fuel k : ℕ) (s : Heap × State)
      → ((j : ℕ) (xs : List ℕ) → others j xs ≡ xs)
      → ((w : ℕ) → begin after ≡ some w → AreBefore w before)
      → IsAscending after
      → length after ≤ fuel
      → walk cancel others fuel k (begin after) (before ++ after) s
        ≡ ok (emptied (stop_all cancel after s))
  unfolding walk stop_all
  walk_from others before [] zero k s same low h enough = refl
  walk_from others before [] (suc fuel) k s same low h enough = refl
  walk_from others before (w ∷ after) zero k s same low h enough = absurd (omega arith)
  walk_from others before (w ∷ after) (suc fuel) k s same low (hw, h) enough =
      let here = increment-here before w after (low w refl) in
      rw (same k (before ++ (w ∷ after)), here, sym (append_assoc before (w ∷ []) after))
        (walk_from others (before ++ (w ∷ [])) after fuel (suc k) (stop cancel w s) same
          (AreBefore-begin w before after hw (low w refl)) h (omega arith))

  -- If no other thread changes the set meanwhile, the loop is `stop` of every connection, in
  -- ascending order, given at least one round of fuel for each.
  pub walk-undisturbed :
      (others : ℕ → List ℕ → List ℕ) (xs : List ℕ) (fuel : ℕ) (s : Heap × State)
      → ((j : ℕ) (xs : List ℕ) → others j xs ≡ xs)
      → IsAscending xs
      → length xs ≤ fuel
      → walk cancel others fuel 0 (begin xs) xs s ≡ ok (stop_connections cancel xs s)
  unfolding stop_connections
  walk-undisturbed others xs fuel s same h enough =
      walk_from others [] xs fuel 0 s same (λ w e. tt) h enough

  walk_ended_from :
      (others : ℕ → List ℕ → List ℕ) (w : ℕ) (n : ℕ) (before after : List ℕ) (fuel k : ℕ)
      (s : Heap × State)
      → ((j : ℕ) (xs : List ℕ) → j < n → others (k + j) xs ≡ xs)
      → ((xs : List ℕ) → others (k + n) xs ≡ erase w xs)
      → ((v : ℕ) → begin after ≡ some v → AreBefore v before)
      → IsAscending after
      → get_elem? after n ≡ some w
      → n < fuel
      → walk cancel others fuel k (begin after) (before ++ after) s ≡ undefined
  unfolding walk
  walk_ended_from others w n before [] fuel k s same ends low h e enough = cc
  walk_ended_from others w n before (x ∷ after) zero k s same ends low h e enough =
      absurd (omega arith)
  walk_ended_from others w zero before (x ∷ after) (suc fuel) k s same ends low (hx, h) e enough =
      let this : x ≡ w = ground (arith, e) in
      let gone : others k (before ++ (x ∷ after)) ≡ erase x (before ++ (x ∷ after)) =
        ap (λ j. others j (before ++ (x ∷ after))) (omega arith)
        ∙ ends (before ++ (x ∷ after))
        ∙ ap (λ v. erase v (before ++ (x ∷ after))) (sym this) in
      rw (gone, increment-erase before x after (low x refl) hx) refl
  walk_ended_from others w (suc n) before (x ∷ after) (suc fuel) k s same ends low (hx, h) e
        enough =
      let first : others k (before ++ (x ∷ after)) ≡ before ++ (x ∷ after) =
        ap (λ j. others j (before ++ (x ∷ after))) (omega arith)
        ∙ same 0 (before ++ (x ∷ after)) (omega arith) in
      let here = increment-here before x after (low x refl) in
      rw (first, here, sym (append_assoc before (x ∷ []) after))
        (walk_ended_from others w n (before ++ (x ∷ [])) after fuel (suc k) (stop cancel x s)
          (λ j xs below. ap (λ i. others i xs) (omega arith) ∙ same (suc j) xs (omega arith))
          (λ xs. ap (λ i. others i xs) (omega arith) ∙ ends xs)
          (AreBefore-begin x before after hx (low x refl)) h e (omega arith))

  -- If the connection that the loop has just stopped, at any place of the set, deregisters itself
  -- before the loop goes on to the next one, the increment of the iterator is undefined.
  pub walk_ended :
      (others : ℕ → List ℕ → List ℕ) (xs : List ℕ) (n w fuel : ℕ) (s : Heap × State)
      → ((j : ℕ) (ys : List ℕ) → j < n → others j ys ≡ ys)
      → ((ys : List ℕ) → others n ys ≡ erase w ys)
      → IsAscending xs
      → get_elem? xs n ≡ some w
      → n < fuel
      → walk cancel others fuel 0 (begin xs) xs s ≡ undefined
  walk_ended others xs n w fuel s same ends h e enough =
      walk_ended_from others w n [] xs fuel 0 s
        (λ j ys below. ap (λ i. others i ys) (omega arith) ∙ same j ys below)
        (λ ys. ap (λ i. others i ys) (omega arith) ∙ ends ys) (λ v b. tt) h e enough
