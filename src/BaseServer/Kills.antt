-- ===== src/BaseServer/Kills.antt =====
-- `stopConnections` with what its calls of `pthread_kill` need. `cancelIO` of Worker.cpp interrupts
-- the thread of a worker; if the worker has none, the behaviour of `pthread_kill` is undefined.
use mbtest.Prelude.{
  ℕ, ◌≡◌, refl, ◌∙◌, true, false, List, [], ◌∷◌, Outcome, ok, undefined, ◌>>=◌, ◌⊎◌, inl, inr,
  if◌then◌else◌, ◌==◌, arith, Bool-cases,
}
use mbtest.Worker.{Heap, stop}
use mbtest.BaseServer.{contains, stop_all, stop_connections}

-- `stop` of a worker up to the end of `cancelIO`, without the closing of its socket.
unfoldable pub stop_one : ℕ → Heap → Outcome Heap
stop_one w h = if (h w).joinable then ok (stop (λ w u. u) w (h, tt)).0 else undefined

-- The loop of `stopConnections`.
pub stop_each : List ℕ → Heap → Outcome Heap
stop_each [] h = ok h
stop_each (w ∷ ws) h = stop_one w h >>= stop_each ws

abbrev pub after_one : ℕ → Heap → Heap
after_one w h = (stop (λ w u. u) w (h, tt {0})).0

pub stop_one-joinable : (w v : ℕ) (h : Heap) → (after_one w h v).joinable ≡ (h v).joinable
unfolding stop
stop_one-joinable w v h = ground arith

-- If each worker has a thread, all of them are stopped.
pub stop_each-ok :
    (ws : List ℕ) (h : Heap)
    → ((v : ℕ) → contains ws v ≡ true → (h v).joinable ≡ true)
    → stop_each ws h ≡ ok (stop_all (λ w u. u) ws (h, tt {0})).0
unfolding stop_each stop_one stop_all contains
stop_each-ok [] h own = refl
stop_each-ok (w ∷ ws) h own = rw (own w (ground arith)) (
    stop_each-ok ws (after_one w h)
      (λ v inside. stop_one-joinable w v h ∙ own v (ground (arith, inside))))

-- If one has none, there is a `pthread_kill` without a thread.
pub stop_each-undefined :
    (ws : List ℕ) (v : ℕ) (h : Heap)
    → contains ws v ≡ true
    → (h v).joinable ≡ false
    → stop_each ws h ≡ undefined
unfolding stop_each stop_one contains
stop_each-undefined [] v h inside none_ = cc
stop_each-undefined (w ∷ ws) v h inside none_ = elim (Bool-cases (w == v)) [
  | inl this ↦
      let none_here : (h w).joinable ≡ false = ground (arith, this, none_) in rw none_here refl
  | inr other ↦ elim (Bool-cases (h w).joinable) [
    | inl own ↦ rw own (
        stop_each-undefined ws v (after_one w h) (ground (arith, inside, other))
          (stop_one-joinable w v h ∙ none_))
    | inr lost ↦ rw lost refl
  ]
]

-- There is no third case.
pub stop_each-cases :
    (ws : List ℕ) (h : Heap)
    → (stop_each ws h ≡ undefined) ⊎ (stop_each ws h ≡ ok (stop_all (λ w u. u) ws (h, tt {0})).0)
unfolding stop_each stop_one stop_all
stop_each-cases [] h = inr refl
stop_each-cases (w ∷ ws) h = elim (Bool-cases (h w).joinable) [
  | inl own ↦ elim (stop_each-cases ws (after_one w h)) [
    | inl bad ↦ inl (rw own bad)
    | inr fine ↦ inr (rw own fine)
  ]
  | inr lost ↦ inl (rw lost refl)
]

-- `stopConnections` as BaseServer.antt has it, with the set emptied.
pub stop_connections-parts :
    (ws : List ℕ) (h : Heap)
    → ((stop_connections (λ w u. u) ws (h, tt {0})).0 ≡ [])
      × ((stop_connections (λ w u. u) ws (h, tt {0})).1 ≡ (stop_all (λ w u. u) ws (h, tt {0})).0)
unfolding stop_connections
stop_connections-parts ws h = (refl, refl)
