-- ===== src/LifeCycle/Code.antt =====
-- The code of a connection from its `accept` to its end as steps of its life.
use mbtest.Prelude.{ℕ, ◌<◌, ◌≡◌, refl, ◌∙◌, Bool, true, false, List, ok, not, ==_refl, arith}
use mbtest.Wire.{ByteOrder}
use mbtest.Asio.{Asio}
use mbtest.Interfaces.{AllRegs, BaseService, ModbusService, Serves}
use mbtest.Worker.{Heap, run}
use mbtest.BaseServer.{contains, deregister_connection, base_service}
use mbtest.BaseServer.Accept.{start_connection, with_connection, start_connection_lem}
use mbtest.ThreadDeleter.{BlockingCollection, IsFifo, ThreadDeleter, delete_worker, global_service}
use mbtest.TcpConnection.{construct, run as run_connection}
use mbtest.TcpConnection.Stopping.{run_stops}
use mbtest.LifeCycle.{
  absent, created, live, ended, set_phase, World, Step, accepted, started, finished, Reach, Steps,
  here, more,
}
use mbtest.LifeCycle.Queue.{contains-add}
use mbtest.LifeCycle.Invariant.{queue, Inv, Reach-Inv, Step-Inv}

module _ {C : BlockingCollection} (F : IsFifo C) where
  -- After a round of the accept loop, and after the end of a thread.
  abbrev pub with_new : ℕ → World C → World C
  with_new w s =
      let (connections, workers) = with_connection w s.connections s.deleter.workers in
      record {
        connections = connections;
        deleter = record s.deleter { workers = workers };
        phase = set_phase w live (set_phase w created s.phase);
      }

  abbrev pub at_end : ℕ → World C → World C
  at_end w s =
      let (connections, deleter) =
        deregister_connection (global_service C) w (s.connections, s.deleter) in
      record { connections = connections; deleter = deleter; phase = set_phase w ended s.phase }

  accept-Steps : (s : World C) (w : ℕ) → s.phase w ≡ absent → Steps F s (with_new w s)
  unfolding run
  accept-Steps s w new_ =
      let (connections, workers) = with_connection w s.connections s.deleter.workers in
      more (accepted w new_ refl)
        (more (started w workers (ground arith) (rw (==_refl w) refl) refl) here)

  with_end : {s t u : World C} → Steps F s t → Step F t u → Steps F s u
  with_end here last = more last here
  with_end (more st sts) last = more st (with_end sts last)

  Steps-Inv : {s t : World C} → Steps F s t → Inv F s → Inv F t
  Steps-Inv here i = i
  Steps-Inv (more st sts) i = Steps-Inv sts (Step-Inv F st i)

  -- The connection after `newConn->run()` of its accept loop, at the end of its `run__`.
  module _ (A : Asio) (order : ByteOrder) (server2 : ℕ → ModbusService) (now snapshot : ℕ → AllRegs)
      (serves : (k : ℕ) → Serves (server2 k) (now k) (snapshot k)) (running : ℕ → Bool) where
    abbrev server1 : BaseService (List ℕ × ThreadDeleter C)
    server1 = base_service (global_service C)

    -- The code of a TCP connection from the round of the accept loop that makes it to the end of
    -- its `run__`, at an address at which nothing lies, after anything that the server has done,
    -- and with nothing else done to the set and the deleter meanwhile: the round registers it and
    -- gives it a thread; given more than `n` rounds of fuel, if its flag is clear when the n-th
    -- round reads it, and its peer is known at the start, `run__` returns, on any socket; and what
    -- both have done are steps of its life. It is in the set then no more, and it is in the queue
    -- of the deleter unless that has been stopped.
    pub connection-Steps :
        (s : World C) (n fuel w : ℕ) (socket : A.Socket)
        → Reach F s
        → s.phase w ≡ absent
        → A.has_remote_endpoint socket ≡ true
        → running n ≡ false
        → n < fuel
        → (socket' : A.Socket) × (h : Heap) × (connections : List ℕ) × (t : World C)
          × (start_connection w (s.connections, s.deleter.workers) ≡ ok (connections, h))
          × (run_connection A order running fuel w
                (construct A order socket server1 server2)
                (connections, record s.deleter { workers = h })
              ≡ ok (construct A order socket' server1 server2, (t.connections, t.deleter)))
          × Steps F s t
          × (contains t.connections w ≡ false)
          × (contains (queue F t) w ≡ not (F.closed s.deleter.threads))
    unfolding deregister_connection delete_worker
    connection-Steps s n fuel w socket r new_ known off enough =
        let i = Reach-Inv F r in
        let t : World C = with_new w s in
        let (socket', e) =
          run_stops A order server2 now snapshot serves running server1 n fuel w socket
            (t.connections, t.deleter) off enough in
        let sts : Steps F s (at_end w t) =
          with_end (accept-Steps s w new_) (finished w (ground arith) refl) in
        let over : (at_end w t).phase w ≡ ended = ground arith in
        let unqueued : contains (queue F s) w ≡ false = ground (arith, i.queued w, new_) in
        let added = contains-add F w s.deleter.threads w in
        (
          socket',
          t.deleter.workers,
          t.connections,
          at_end w t,
          start_connection_lem w s.connections s.deleter.workers,
          e ∙ rw known refl,
          sts,
          ground (arith, (Steps-Inv sts i).registered w, over),
          added ∙ ground (arith, unqueued),
        )
