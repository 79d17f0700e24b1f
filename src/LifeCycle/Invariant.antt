-- ===== src/LifeCycle/Invariant.antt =====
-- What holds of the connections at any time.
use mbtest.Prelude.{
  ok-injective, ℕ, ok, ◌≡◌, refl, ◌∙◌, Bool, true, false, ◌||◌, List, ◌∷◌, arith, ◌==◌, sym,
}
use mathlib.Core.Path.{subst}
use mbtest.Worker.{Heap, initial, write, run}
use mbtest.BaseServer.{contains, register_connection, deregister_connection, stop_connections}
use mbtest.BaseServer.Laws.{IsAscending, stop_connections_lem, contains-erase, erase-IsAscending}
use mbtest.BaseServer.Accept.{with_connection-contains, with_connection-IsAscending}
use mbtest.ThreadDeleter.{BlockingCollection, IsFifo, round, stop, delete_worker, global_service}
use mbtest.ThreadDeleter.Drain.{round_first}
use mbtest.LifeCycle.Queue.{IsOnce, contains-add, closed-add, IsOnce-add}
use mbtest.LifeCycle.{
  Phase, absent, created, live, ended, set_phase, World, Step, accepted, started, finished, deleted,
  stopped, closed, IsInitial, Reach, start, next,
}

abbrev pub is_absent : Phase → Bool
is_absent absent = true
is_absent created = false
is_absent live = false
is_absent ended = false

-- The connection has not come to its end.
abbrev pub is_open : Phase → Bool
is_open absent = false
is_open created = true
is_open live = true
is_open ended = false

abbrev pub has_thread : Phase → Bool
has_thread absent = false
has_thread created = false
has_thread live = true
has_thread ended = true

module _ {C : BlockingCollection} (F : IsFifo C) where
  abbrev pub queue : World C → List ℕ
  queue s = F.items s.deleter.threads

  pub record Inv (s : World C) : Type 0 where
    pub ascending : IsAscending s.connections
    pub registered : (v : ℕ) → contains s.connections v ≡ true → is_open (s.phase v) ≡ true
    pub queued : (v : ℕ) → contains (queue s) v ≡ true → s.phase v ≡ ended
    pub once : IsOnce (queue s)
    pub own_thread :
        (v : ℕ)
        → is_absent (s.phase v) ≡ false
        → (s.deleter.workers v).joinable ≡ has_thread (s.phase v)
    pub collected :
        F.closed s.deleter.threads ≡ false
        → (v : ℕ) → s.phase v ≡ ended
        → contains (queue s) v ≡ true

  IsInitial-Inv : (s : World C) → IsInitial F s → Inv s
  unfolding contains
  IsInitial-Inv s i = record {
    ascending = rw i.no_connections tt;
    registered = λ v. rw i.no_connections (λ h. cc);
    queued = λ v. rw i.no_items (λ h. cc);
    once = rw i.no_items tt;
    own_thread = λ v. rw (i.nothing v) (λ h. cc);
    collected = λ open_ v. rw (i.nothing v) (λ h. absurd (ground (arith, h)));
  }

  module _ (s : World C) (w : ℕ) where
    abbrev after_accept : World C
    after_accept = record {
      connections = register_connection w s.connections;
      deleter = record s.deleter { workers = write w initial s.deleter.workers };
      phase = set_phase w created s.phase;
    }

    accepted-Inv : s.phase w ≡ absent → Inv s → Inv after_accept
    accepted-Inv new_ i = record {
      ascending = with_connection-IsAscending w s.connections s.deleter.workers i.ascending;
      registered = λ v h.
          let found = with_connection-contains w s.connections s.deleter.workers v in
          ground (arith, found, h, i.registered v);
      queued = λ v h. ground (arith, h, i.queued v, new_);
      once = i.once;
      own_thread = λ v h. ground (arith, h, i.own_thread v);
      collected = λ open_ v e. ground (arith, e, i.collected open_ v);
    }

    started-Inv :
        (h : Heap)
        → s.phase w ≡ created
        → run w s.deleter.workers ≡ ok h
        → Inv s
        → Inv (record s {
          deleter = record s.deleter { workers = h };
          phase = set_phase w live s.phase;
        })
    unfolding run
    started-Inv h new_ e i =
        let free : (s.deleter.workers w).joinable ≡ false = ground (arith, i.own_thread w, new_) in
        let same : write w (record { b_running = true; joinable = true }) s.deleter.workers ≡ h =
          ok-injective (sym (rw free refl) ∙ e) in
        record {
          ascending = i.ascending;
          registered = λ v hv. ground (arith, i.registered v hv);
          queued = λ v hv. ground (arith, i.queued v hv, new_);
          once = i.once;
          own_thread = λ v hv. rw (sym same) (ground (arith, hv, i.own_thread v));
          collected = λ open_ v hv. ground (arith, hv, i.collected open_ v);
        }

    abbrev after_finish : World C
    after_finish =
        let (connections, deleter) =
          deregister_connection (global_service C) w (s.connections, s.deleter) in
        record { connections = connections; deleter = deleter; phase = set_phase w ended s.phase }

    finished-Inv : s.phase w ≡ live → Inv s → Inv after_finish
    unfolding deregister_connection delete_worker
    finished-Inv alive i =
        let unqueued : contains (queue s) w ≡ false = ground (arith, alive, i.queued w) in
        record {
          ascending = erase-IsAscending w s.connections i.ascending;
          registered = λ v h.
              let left = contains-erase w v s.connections i.ascending in
              ground (arith, left, h, i.registered v);
          queued = λ v h.
              let added = contains-add F w s.deleter.threads v in
              ground (arith, added, h, i.queued v);
          once = IsOnce-add F w s.deleter.threads unqueued i.once;
          own_thread = λ v h. ground (arith, h, i.own_thread v, i.own_thread w, alive);
          collected = λ open_ v e.
              let added = contains-add F w s.deleter.threads v in
              let before : F.closed s.deleter.threads ≡ false =
                sym (closed-add F w s.deleter.threads) ∙ open_ in
              ground (arith, added, before, e, i.collected before v);
        }

    abbrev after_delete : World C
    after_delete = record s { deleter = round C s.deleter; phase = set_phase w absent s.phase }

    deleted-Inv : (ws : List ℕ) → queue s ≡ w ∷ ws → s.phase w ≡ ended → Inv s → Inv after_delete
    unfolding contains
    deleted-Inv ws e dead i =
        let (others, same, _, joined) = round_first F s.deleter w ws e in
        let (unqueued, once) = subst IsOnce e i.once in
        let place : (v : ℕ) → contains (queue s) v ≡ (w == v || contains ws v) = λ v. rw e refl in
        record {
          ascending = i.ascending;
          registered = λ v h. ground (arith, h, i.registered v, dead);
          queued = λ v h.
              let after : contains ws v ≡ true = rw others at h in
              ground (arith, after, place v, i.queued v, unqueued);
          once = rw others once;
          own_thread = λ v h. rw joined (ground (arith, h, i.own_thread v));
          collected =
              λ open_ v d. rw others (ground (arith, d, place v, i.collected (sym same ∙ open_) v));
        }

  stopped-Inv :
      (s : World C)
      → Inv s
      → Inv (record s {
        connections = (stop_connections (λ w u. u) s.connections (s.deleter.workers, tt)).0;
        deleter = record s.deleter {
          workers = (stop_connections (λ w u. u) s.connections (s.deleter.workers, tt)).1;
        };
      })
  unfolding contains
  stopped-Inv s i =
      let left : (v : ℕ) → _ =
        λ v. stop_connections_lem (λ w (u : Unit {0}). u) v s.connections s.deleter.workers tt in
      record {
        ascending = rw (left 0).0 tt;
        registered = λ v. rw (left 0).0 (λ h. cc);
        queued = i.queued;
        once = i.once;
        own_thread = λ v d. (left v).2 ∙ i.own_thread v d;
        collected = i.collected;
      }

  closed-Inv : (s : World C) → Inv s → Inv (record s { deleter = stop C s.deleter })
  unfolding stop
  closed-Inv s i =
      let (same, shut) = F.close s.deleter.threads in
      record {
        ascending = i.ascending;
        registered = i.registered;
        queued = λ v h. i.queued v (rw same at h);
        once = rw same i.once;
        own_thread = i.own_thread;
        collected = λ open_ v e. absurd (ground (arith, open_, shut));
      }

  pub Step-Inv : {s t : World C} → Step F s t → Inv s → Inv t
  Step-Inv {s} (accepted w new_ et) i = rw et (accepted-Inv s w new_ i)
  Step-Inv {s} (started w h new_ e et) i = rw et (started-Inv s w h new_ e i)
  Step-Inv {s} (finished w alive et) i = rw et (finished-Inv s w alive i)
  Step-Inv {s} (deleted w ws e dead et) i = rw et (deleted-Inv s w ws e dead i)
  Step-Inv {s} (stopped et) i = rw et (stopped-Inv s i)
  Step-Inv {s} (closed et) i = rw et (closed-Inv s i)

  -- At any time the connections in the set are in ascending order, and none has come to the end of
  -- its `run__`; the queue of the deleter holds no address twice, and only such whose thread has
  -- come to its end; each connection whose `run` has been called, and no other, has a thread that
  -- has not been joined; and until the deleter is stopped, every connection whose thread has come
  -- to its end is in the queue.
  pub Reach-Inv : {s : World C} → Reach F s → Inv s
  Reach-Inv {s} (start i) = IsInitial-Inv s i
  Reach-Inv (next r st) = Step-Inv st (Reach-Inv r)
