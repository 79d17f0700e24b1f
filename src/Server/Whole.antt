-- ===== src/Server/Whole.antt =====
-- The whole of mbserver.cpp: `main` with its three threads, and the connections of both servers,
-- which share the deleter. Its steps are those of Server/Process.antt for `main` and those of
-- LifeCycle.antt for the connections of each server.
pub mod Invariant
pub mod Serves
pub mod Calls
pub mod Reachable
pub mod Outrun
pub mod Kills
use mbtest.Prelude.{ℕ, ◌≡◌, Bool, true, false, List, [], ok, if◌then◌else◌, ltb, ◌==◌}
use mbtest.Worker.{Heap, stop}
use mbtest.BaseServer.{stop_connections}
use mbtest.ThreadDeleter.{BlockingCollection, IsFifo, ThreadDeleter}
use mbtest.LifeCycle.{
  Phase, absent, World, Step, accepted, started, finished, deleted, stopped, closed,
}
use mbtest.Server.{deleter}
use mbtest.Server.Process.{
  Thread, active, Process, Step as MainStep, runs, waits, stops, returns, frees, completes,
  hands_over, connections, IsInitial as IsNew,
}

-- The set of connections of each server, and of which server a connection is.
pub record Program (C : BlockingCollection) : Type 0 where
  pub main : Process C
  pub sets : ℕ → List ℕ
  pub phase : ℕ → Phase
  pub owner : ℕ → ℕ

abbrev pub set_at : {A : Type 0} → ℕ → A → (ℕ → A) → ℕ → A
set_at o x f v = if o == v then x else f v

-- One server with its connections.
abbrev pub view : {C : BlockingCollection} → ℕ → Program C → World C
view o s = record { connections = s.sets o; deleter = s.main.deleter; phase = s.phase }

-- The program after a step of that server.
abbrev pub with_view : {C : BlockingCollection} → ℕ → World C → Program C → Program C
with_view o u s = record s {
  main = record s.main { deleter = u.deleter };
  sets = set_at o u.connections s.sets;
  phase = u.phase;
}

abbrev pub with_workers : {C : BlockingCollection} → Heap → Process C → Process C
with_workers h p = record p { deleter = record p.deleter { workers = h } }

-- `stop` of a server: its flag, and `stopConnections`. Its socket, which `stop__` closes first, is
-- in TcpServer.antt and ModbusServer/Accepting.antt.
unfoldable pub stop_server : {C : BlockingCollection} → ℕ → Program C → Program C
stop_server o s =
    let (h, _) = stop (λ w u. u) o (s.main.deleter.workers, tt) in
    let (xs, h', _) = stop_connections (λ w u. u) (s.sets o) (h, tt) in
    record s { main = with_workers h' s.main; sets = set_at o xs s.sets }

module _ {C : BlockingCollection} (F : IsFifo C) (fails : ℕ → Bool) where
  -- A step of `main` or of one of its threads that Server/Process.antt has in full; what that file
  -- says of connections is here said by LifeCycle.antt.
  abbrev pub is_own : {p q : Process C} → MainStep F fails p q → Bool
  is_own (runs w h at_w small e et) = true
  is_own (waits w at_w ended et) = true
  is_own (stops at_five et) = true
  is_own (returns w small on why et) = true
  is_own (frees w ws on e et) = false
  is_own (completes on e et) = true
  is_own (hands_over w far et) = false
  is_own (connections h same et) = false

  -- Which thread makes the step of a server: its accept loop, the connection, or the deleter.
  -- Closing the deleter is a step of `main`, and stopping the server is one of the signal.
  abbrev pub Allowed : (s : Program C) (o : ℕ) {u : World C} → Step F (view o s) u → Type 0
  Allowed s o (accepted w new_ et) = (ltb w 3 ≡ false) × (s.main.thread o ≡ active)
  Allowed s o (started w h new_ e et) = (s.owner w ≡ o) × (s.main.thread o ≡ active)
  Allowed s o (finished w alive et) = s.owner w ≡ o
  Allowed s o (deleted w ws e dead et) = s.main.thread deleter ≡ active
  Allowed s o (stopped et) = ⊥
  Allowed s o (closed et) = ⊥

  abbrev pub owners : (s : Program C) (o : ℕ) {u : World C} → Step F (view o s) u → ℕ → ℕ
  owners s o (accepted w new_ et) = set_at w o s.owner
  owners s o (started w h new_ e et) = s.owner
  owners s o (finished w alive et) = s.owner
  owners s o (deleted w ws e dead et) = s.owner
  owners s o (stopped et) = s.owner
  owners s o (closed et) = s.owner

  pub data Move (s t : Program C) : Type 0 where
    moves :
        (q : Process C) (st : MainStep F fails s.main q)
        → is_own st ≡ true
        → t ≡ record s { main = q }
        → Move s t
    serves :
        (o : ℕ) (u : World C) (st : Step F (view o s) u)
        → ltb o 2 ≡ true
        → Allowed s o st
        → t ≡ record (with_view o u s) { owner = owners s o st }
        → Move s t
    -- SIGINT
    signals : t ≡ stop_server 1 (stop_server 0 s) → Move s t

  pub record IsInitial (s : Program C) : Type 0 where
    pub new : IsNew F fails s.main
    pub no_connections : (o : ℕ) → s.sets o ≡ []
    pub nothing : (v : ℕ) → s.phase v ≡ absent

  pub data Reach : Program C → Type 0 where
    start : {s : Program C} → IsInitial s → Reach s
    next : {s t : Program C} → Reach s → Move s t → Reach t

  pub data Moves : Program C → Program C → Type 0 where
    here : {s : Program C} → Moves s s
    more : {s t u : Program C} → Move s t → Moves t u → Moves s u
