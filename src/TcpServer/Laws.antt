-- ===== src/TcpServer/Laws.antt =====
-- What the TCP server does between its start and its end.
use mbtest.Prelude.{
  ℕ, suc, List, ◌<◌, ◌≡◌, refl, ◌∙◌, Bool, true, false, [], ok, arith, if◌then◌else◌,
}
use mbtest.BaseServer.{contains, stop_connections}
use mbtest.BaseServer.Laws.{stop_connections_lem}
use mbtest.Worker.{Heap}
use mbtest.BaseServer.Histories.{Call, Spec}
use mbtest.BaseServer.Accept.{Agrees, calls_of, after_rounds, after_rounds-last, accept_loop_lem}
use mbtest.TcpServer.{Acceptor, TcpServer, set_up, run, stop}

module _ (A : Acceptor) where
  -- The acceptor after each call of `run__`, and that none of them fails.
  abbrev opened : TcpServer A → A.State
  opened s = (A.open_ s.acceptor).1

  abbrev reusable : TcpServer A → A.State
  reusable s = (A.set_reuse_address (opened s)).1

  abbrev bound : TcpServer A → A.State
  bound s = (A.bind s.port (reusable s)).1

  abbrev listening : TcpServer A → A.State
  listening s = (A.listen (bound s)).1

  pub record Listens (s : TcpServer A) : Type 0 where
    pub opens : (A.open_ s.acceptor).0 ≡ false
    pub reuses : (A.set_reuse_address (opened s)).0 ≡ false
    pub binds : (A.bind s.port (reusable s)).0 ≡ false
    pub listens : (A.listen (bound s)).0 ≡ false

  set_up_lem :
      (s : TcpServer A) → Listens s → set_up A s ≡ ok (true, record s { acceptor = listening s })
  unfolding set_up
  set_up_lem s l = rw (l.opens, l.reuses, l.binds, l.listens) refl

  module _ (running accepted : ℕ → Bool) (address : ℕ → ℕ) (meanwhile : ℕ → List Call) where
    -- The set of a new server, and the flags of the workers.
    abbrev pub at_first : TcpServer A → Spec
    at_first s = (λ v. false, λ v. (s.workers v).b_running)

    run_lem :
        (n fuel : ℕ) (s : TcpServer A)
        → Listens s
        → s.connections ≡ []
        → ((j : ℕ) → j < n → running j ≡ true)
        → running n ≡ false
        → n < fuel
        → (xs : List ℕ) × (h : Heap) × (run A running accepted address (calls_of meanwhile) fuel s
            ≡ ok (record s { acceptor = listening s; connections = xs; workers = h }))
          × Agrees (xs, h) (after_rounds accepted address meanwhile 0 n (at_first s))
    unfolding run contains
    run_lem n fuel s l empty on off enough =
        let ((xs, h), e, r) =
          accept_loop_lem running accepted address meanwhile n fuel ([], s.workers) (at_first s) on
            off enough (record { ascending = tt; members = λ v. refl; flags = λ v. refl }) in
        (xs, h, rw (set_up_lem s l, empty, e) refl, r)

    -- A server without connections that gets its port, and whose flag is cleared before the n-th
    -- round of its accept loop, counted from 0: given more than `n` rounds of fuel `run__` returns,
    -- whatever connections deregister themselves and whatever stops of all connections there are
    -- meanwhile. Its set and the flags are what the accepted connections, deregistrations and stops
    -- lead to in their order. If `stop__` comes to close the acceptor after that, and closing does
    -- not throw, it clears the flags of the workers in the set and of no other, and leaves the
    -- server without connections.
    pub run-stop_lem :
        {S : Type 0} (cancel_io : S → S) (cancel : ℕ → S → S) (n fuel : ℕ) (s : TcpServer A) (t : S)
        → Listens s
        → s.connections ≡ []
        → ((j : ℕ) → j < n → running j ≡ true)
        → running n ≡ false
        → n < fuel
        → ((a : A.State) → (A.close a).0 ≡ false)
        → let expected = after_rounds accepted address meanwhile 0 n (at_first s) in
          (s1 : TcpServer A) × (s2 : TcpServer A) × (t' : S) × (run A running accepted address
              (calls_of meanwhile)
              fuel
              s
            ≡ ok s1)
          × Agrees (s1.connections, s1.workers) expected
          × (stop A cancel_io cancel (s1, t) ≡ ok (s2, t'))
          × (s2.connections ≡ [])
          × ((v : ℕ) → (s2.workers v).b_running ≡ (if expected.0 v then false else expected.1 v))
    unfolding stop
    run-stop_lem cancel_io cancel n fuel s t l empty on off enough closes =
        let (xs, h, e, r) = run_lem n fuel s l empty on off enough in
        let flags : (v : ℕ) → _ = λ v. stop_connections_lem cancel v xs h (cancel_io t) in
        (
          record s { acceptor = listening s; connections = xs; workers = h },
          record s {
            acceptor = (A.close (listening s)).1;
            connections = (stop_connections cancel xs (h, cancel_io t)).0;
            workers = (stop_connections cancel xs (h, cancel_io t)).1;
          },
          (stop_connections cancel xs (h, cancel_io t)).2,
          e,
          r,
          rw (closes (listening s)) refl,
          (flags 0).0,
          λ v. (flags v).1 ∙ rw (r.members v, r.flags v) refl,
        )

    -- A connection that a stop misses. The flag of a server as above is set in the rounds before
    -- the last and still when the last one, the n-th counted from 0, reads it; that round accepts a
    -- connection, and no call comes after. Then `run__` returns with that connection in its set and
    -- its flag set, whatever calls have come before its registration, a stop of all connections in
    -- the last round included.
    pub accepted_late :
        (n fuel : ℕ) (s : TcpServer A)
        → Listens s
        → s.connections ≡ []
        → ((j : ℕ) → j < suc n → running j ≡ true)
        → running (suc n) ≡ false
        → suc n < fuel
        → accepted n ≡ true
        → meanwhile (suc n) ≡ []
        → (s1 : TcpServer A) × (run A running accepted address (calls_of meanwhile) fuel s ≡ ok s1)
          × (contains s1.connections (address n) ≡ true)
          × ((s1.workers (address n)).b_running ≡ true)
    accepted_late n fuel s l empty on off enough last quiet =
        let (xs, h, e, r) = run_lem (suc n) fuel s l empty on off enough in
        let (inside, set) =
          after_rounds-last accepted address meanwhile n 0 n (at_first s) (omega arith) last
            quiet in
        (_, e, r.members (address n) ∙ inside, r.flags (address n) ∙ set)
