-- ===== src/LifeCycle/Starting.antt =====
-- `Worker::run` in its two parts: the new thread runs before `thread_` has been assigned.
use mbtest.Prelude.{
  ℕ, ◌≡◌, refl, ◌∙◌, true, false, [], ◌∷◌, ◌++◌, Outcome, ok, undefined, terminated, ◌>>=◌,
  if◌then◌else◌, ==_refl, arith,
}
use std.Path.{fun_ext}
use mbtest.Worker.{Heap, write, run}
use mbtest.BaseServer.{deregister_connection}
use mbtest.ThreadDeleter.{BlockingCollection, IsFifo, round, delete_worker, global_service}
use mbtest.ThreadDeleter.Drain.{round_first}
use mbtest.LifeCycle.{
  created, live, ended, absent, set_phase, World, Step, finished, deleted, Reach, Steps, here, more,
}
use mbtest.LifeCycle.Invariant.{queue, is_absent, Reach-Inv}

-- `bRunning = true;`
pub set_flag : ℕ → Heap → Heap
set_flag w h = write w (record (h w) { b_running = true }) h

-- The assignment to `thread_` of the thread that `std::thread(run_, this)` has started.
pub assign : ℕ → Heap → Outcome Heap
assign w h =
    if (h w).joinable then terminated else ok (write w (record (h w) { joinable = true }) h)

-- The connection after its flag has been set and its thread has been started.
abbrev pub spawned : {C : BlockingCollection} → ℕ → World C → World C
spawned w s = record s {
  deleter = record s.deleter { workers = set_flag w s.deleter.workers };
  phase = set_phase w live s.phase;
}

-- The connection after the whole of `run`.
abbrev after_start : {C : BlockingCollection} → ℕ → Heap → World C → World C
after_start v h s = record s {
  deleter = record s.deleter { workers = h };
  phase = set_phase v live s.phase;
}

-- The assignment, if there is still an object at the address.
pub assign_thread : {C : BlockingCollection} → ℕ → World C → Outcome (World C)
assign_thread w s = if is_absent (s.phase w) then undefined else (do
  h ← assign w s.deleter.workers
  ok (record s { deleter = record s.deleter { workers = h } }))

flag_first :
    (w : ℕ) (h : Heap)
    → write w (record (set_flag w h w) { joinable = true }) (set_flag w h)
      ≡ write w (record { b_running = true; joinable = true }) h
unfolding set_flag
flag_first w h = fun_ext (λ v. ground arith)

set_flag-joinable : (w : ℕ) (h : Heap) → (set_flag w h w).joinable ≡ (h w).joinable
unfolding set_flag
set_flag-joinable w h = ground arith

assign-set_flag : (w : ℕ) (h : Heap) → assign w (set_flag w h) ≡ run w h
unfolding assign run
assign-set_flag w h = rw (set_flag-joinable w h, flag_first w h) refl

module _ {C : BlockingCollection} (F : IsFifo C) where
  -- If no other step comes between them, the two parts are `run`.
  pub assigned_early :
      (s : World C) (w : ℕ)
      → assign_thread w (spawned w s) ≡ (run w s.deleter.workers >>= λ h. ok (after_start w h s))
  unfolding assign_thread
  assigned_early s w = rw (==_refl w, assign-set_flag) refl

  -- While the queue of the deleter is empty: the new thread can come to its end, and the deleter
  -- can free the connection without joining its thread, before the assignment, which then writes to
  -- an object that does not exist.
  pub assigned_late :
      (s : World C) (w : ℕ)
      → Reach F s
      → F.closed s.deleter.threads ≡ false
      → queue F s ≡ []
      → s.phase w ≡ created
      → (t : World C) × Steps F (spawned w s) t
        × (t.deleter.freed ≡ s.deleter.freed ++ (w ∷ []))
        × ((t.deleter.workers w).joinable ≡ false)
        × (assign_thread w t ≡ undefined)
  unfolding assign_thread set_flag deregister_connection delete_worker
  assigned_late s w r open_ empty new_ =
      let i = Reach-Inv F r in
      let q = s.deleter.threads in
      let s1 : World C = spawned w s in
      let alone : F.items (C.add w q) ≡ w ∷ [] = (F.add_open w q open_).0 ∙ rw empty refl in
      let s2 : World C = record {
        connections = (deregister_connection (global_service C) w (s1.connections, s1.deleter)).0;
        deleter = (deregister_connection (global_service C) w (s1.connections, s1.deleter)).1;
        phase = set_phase w ended s1.phase;
      } in
      let st : Step F s1 s2 = finished w (ground arith) refl in
      let st' : Step F s2
          (record s2 { deleter = round C s2.deleter; phase = set_phase w absent s2.phase }) =
        deleted w [] alone (ground arith) refl in
      let (_, _, freed, joined) = round_first F s2.deleter w [] alone in
      let own : (s.deleter.workers w).joinable ≡ false =
        i.own_thread w (ground (arith, new_)) ∙ ground (arith, new_) in
      (_, more st (more st' here), freed, rw joined (ground (arith, own)), ground arith)
