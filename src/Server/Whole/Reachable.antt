-- ===== src/Server/Whole/Reachable.antt =====
-- The runs of the whole program.
use mbtest.Prelude.{ℕ, ◌≡◌, refl, ◌∙◌, Bool, true, false, List, [], ◌∷◌, ◌++◌, ltb, arith}
use mathlib.Core.Path.{subst}
use mbtest.Worker.{Worker, Heap, stop}
use mbtest.BaseServer.{contains}
use mbtest.BaseServer.Laws.{stop_connections_lem}
use mbtest.ThreadDeleter.{BlockingCollection, IsFifo, round}
use mbtest.ThreadDeleter.Drain.{round_first, round_terminated}
use mbtest.LifeCycle.{ended}
use mbtest.LifeCycle.Queue.{IsOnce}
use mbtest.LifeCycle.Invariant.{Inv}
use mbtest.Server.{handle_signal, signal_handler}
use mbtest.Server.Invariant.Always.{Reach-IsConsistent}
use mbtest.Server.Process.{signalled, connections, Reach as MainReach}
use mbtest.Server.Whole.{
  Program, view, with_workers, stop_server, Move, moves, serves, signals, IsInitial, Reach, start,
  next,
}
use mbtest.Server.Whole.Invariant.{IsWhole}
use mbtest.Server.Whole.Serves.{serves-IsWhole, Step-main}
use mbtest.Server.Whole.Calls.{moves-IsWhole, stop_server-IsWhole}

module _ {C : BlockingCollection} (F : IsFifo C) (fails : ℕ → Bool) where
  IsInitial-IsWhole : (s : Program C) → IsInitial F fails s → IsWhole F fails s
  unfolding contains
  IsInitial-IsWhole s i = record {
    main = Reach-IsConsistent F fails (MainReach.start i.new);
    servers = λ o. record {
      ascending = rw (i.no_connections o) tt;
      registered = λ v. rw (i.no_connections o) (λ h. cc);
      queued = λ v. rw i.new.no_items (λ h. cc);
      once = rw i.new.no_items tt;
      own_thread = λ v. rw (i.nothing v) (λ h. cc);
      collected = λ open_ v. rw (i.nothing v) (λ h. absurd (ground (arith, h)));
    };
    owned = λ o v. rw (i.no_connections o) (λ h. cc);
    placed = λ v small. i.nothing v;
  }

  pub Move-IsWhole : {s t : Program C} → Move F fails s t → IsWhole F fails s → IsWhole F fails t
  Move-IsWhole {s} (moves q st own et) i = rw et (moves-IsWhole F fails s i q st own)
  Move-IsWhole {s} (serves o u st small fine et) i = rw et (serves-IsWhole F fails s i o u st fine)
  Move-IsWhole {s} (signals et) i =
      rw et (stop_server-IsWhole F fails (stop_server 0 s) (stop_server-IsWhole F fails s i 0) 1)

  -- At any time, whatever `main`, its three threads, the connections of both servers and signals
  -- have done, in any order: each worker of `main` is joinable, and has a thread, just from its
  -- `run` to its `wait`; the queue that the servers share is closed just from `stop` of the deleter
  -- on, and empty once the thread of the deleter has returned; it holds only connections whose
  -- thread has come to its end, each once, and until it is closed all of them; the set of each
  -- server is in ascending order and holds only its own connections, none of which has come to its
  -- end; a connection has an unjoined thread just from its `run` on; and none lies where `main` has
  -- its objects.
  pub Reach-IsWhole : {s : Program C} → Reach F fails s → IsWhole F fails s
  Reach-IsWhole {s} (start i) = IsInitial-IsWhole s i
  Reach-IsWhole (next r mv) = Move-IsWhole mv (Reach-IsWhole r)

  worker_parts : (x y : Worker) → x.b_running ≡ y.b_running → x.joinable ≡ y.joinable → x ≡ y
  worker_parts x y a b = λ i. record { b_running = a i; joinable = b i }

  -- Stopping the connections of a server leaves the workers of `main` as they were.
  stop_server-apart :
      (s : Program C) (o v : ℕ)
      → contains (s.sets o) v ≡ false
      → (stop_server o s).main.deleter.workers v
        ≡ (stop (λ w u. u) o (s.main.deleter.workers, tt {0})).0 v
  unfolding stop_server
  stop_server-apart s o v out =
      let h : Heap = (stop (λ w u. u) o (s.main.deleter.workers, tt)).0 in
      let (_, flag, own) = stop_connections_lem (λ w (u : Unit {0}). u) v (s.sets o) h tt in
      worker_parts _ (h v) (flag ∙ rw out refl) own

  -- What a signal does to the workers of `main`.
  pub signals-own :
      (s : Program C)
      → IsWhole F fails s
      → (v : ℕ) → ltb v 3 ≡ true
      → (stop_server 1 (stop_server 0 s)).main.deleter.workers v
        ≡ (signalled F fails s.main).deleter.workers v
  unfolding handle_signal signal_handler
  signals-own s i v small =
      let out : (o w : ℕ) → ltb w 3 ≡ true → contains (s.sets o) w ≡ false =
        λ o w low. ground (arith, (i.servers o).registered w, i.placed w low) in
      let same : (stop_server 0 s).sets 1 ≡ s.sets 1 = unfold stop_server in refl in
      let none_ : contains ((stop_server 0 s).sets 1) v ≡ false = rw same (out 1 v small) in
      stop_server-apart (stop_server 0 s) 1 v none_
      ∙ (unfold stop in
          rw (stop_server-apart s 0 1 (out 0 1 refl), stop_server-apart s 0 v (out 0 v small)) refl)

  signals-main :
      (s : Program C)
      → (stop_server 1 (stop_server 0 s)).main
        ≡ with_workers (stop_server 1 (stop_server 0 s)).main.deleter.workers s.main
  unfolding stop_server
  signals-main s = refl

  -- The threads of the whole program run as Server/Process.antt says: whatever the program does,
  -- `main`, its threads and its workers come to a state that is reached there.
  pub Reach-Process : {s : Program C} → Reach F fails s → MainReach F fails s.main
  Reach-Process (start i) = MainReach.start i.new
  Reach-Process (next r (moves q st own et)) = rw et (MainReach.next (Reach-Process r) st)
  Reach-Process (next r (serves o u st small fine et)) =
      rw et (MainReach.next (Reach-Process r) (Step-main F fails _ (Reach-IsWhole r) o st fine))
  Reach-Process (next {s} r (signals et)) = rw et (
      MainReach.next (MainReach.interrupted (Reach-Process r)) (
        connections (stop_server 1 (stop_server 0 s)).main.deleter.workers
          (signals-own s (Reach-IsWhole r)) (signals-main s)))

  -- At any time, if there is a first connection in the queue of the deleter: its thread has come to
  -- its end; it is none of the objects of `main` and in the set of neither server; and the round of
  -- the deleter frees it and nothing else, leaves no second entry of it in the queue, and does not
  -- end the process by freeing it with a thread that is not joined. Here `run` of a worker is one
  -- step, from the flag to the assignment of the thread.
  pub first_safe :
      (s : Program C) (w : ℕ) (ws : List ℕ)
      → Reach F fails s
      → F.items s.main.deleter.threads ≡ w ∷ ws
      → (s.phase w ≡ ended)
        × (ltb w 3 ≡ false)
        × ((o : ℕ) → contains (s.sets o) w ≡ false)
        × (((round C s.main.deleter).workers w).joinable ≡ false)
        × ((round C s.main.deleter).terminated ≡ s.main.deleter.terminated)
        × ((round C s.main.deleter).freed ≡ s.main.deleter.freed ++ (w ∷ []))
        × (contains (F.items (round C s.main.deleter).threads) w ≡ false)
  unfolding contains
  first_safe s w ws r e =
      let i = Reach-IsWhole r in
      let j : Inv F (view 0 s) = i.servers 0 in
      let first : contains (F.items s.main.deleter.threads) w ≡ true = rw e (ground arith) in
      let dead = j.queued w first in
      let (others, _, freed, joined) = round_first F s.main.deleter w ws e in
      let own : (s.main.deleter.workers w).joinable ≡ true =
        j.own_thread w (ground (arith, dead)) ∙ ground (arith, dead) in
      (
        dead,
        ground (arith, i.placed w, dead),
        λ o. ground (arith, (i.servers o).registered w, dead),
        rw (joined, own) (ground arith),
        round_terminated F s.main.deleter w ws e,
        freed,
        rw others (subst IsOnce e j.once).0,
      )
