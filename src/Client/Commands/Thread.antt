-- ===== src/Client/Commands/Thread.antt =====
-- The two threads of mbclient.cpp over the flag `running`: `main` with `startLoop` and `stopLoop`,
-- and the thread with `loopFunc`. A step is one access to the flag, or one call of `readAll`. The
-- other commands of `main`, which do not touch the flag, are left out.
use mbtest.Prelude.{◌≡◌, Bool, true, false, List, ok, if◌then◌else◌, ℕ}
use mbtest.Wire.{ByteOrder}
use mbtest.Asio.{Asio}
use mbtest.Client.{Client, read_all}
use mbtest.Client.Commands.{start_loop, clear_running, joined}

-- Where the thread stands: it does not exist; it has not reached `running = true`; it is about to
-- read the flag; it is in the body of the loop; it has returned.
pub data Place : Type 0 where
  nowhere created testing reading returned : Place

-- `waiting` is whether `main` is in `join`.
pub record Threads (A : Asio) : Type 0 where
  pub client : Client A.Socket
  pub place : Place
  pub waiting : Bool

module _ (A : Asio) (order : ByteOrder) where
  pub data Step (s t : Threads A) : Type 0 where
    -- `startLoop`
    starts :
        (args : List (List ℕ)) (c : Client A.Socket)
        → s.waiting ≡ false
        → start_loop A order args s.client ≡ ok c
        → t ≡ record { client = c; place = created; waiting = false }
        → Step s t
    -- `stopLoop` up to its `join`
    stops :
        s.waiting ≡ false
        → t ≡ record s { client = clear_running A order s.client; waiting = s.client.loop_thread }
        → Step s t
    joins :
        s.waiting ≡ true
        → s.place ≡ returned
        → t ≡ record { client = joined A order s.client; place = nowhere; waiting = false }
        → Step s t
    -- `loopFunc`
    enters :
        s.place ≡ created
        → t ≡ record s { client = record s.client { running = true }; place = testing }
        → Step s t
    tests :
        s.place ≡ testing
        → t ≡ record s { place = if s.client.running then reading else returned }
        → Step s t
    reads :
        (c : Client A.Socket)
        → s.place ≡ reading
        → read_all A order s.client ≡ ok c
        → t ≡ record s { client = c; place = testing }
        → Step s t

  pub data Steps : Threads A → Threads A → Type 0 where
    here : {s : Threads A} → Steps s s
    more : {s t u : Threads A} → Step s t → Steps t u → Steps s u

-- `main` without the thread, and just after `startLoop` and the first line of `stopLoop`.
abbrev pub idle : {A : Asio} → Client A.Socket → Threads A
idle c = record { client = c; place = nowhere; waiting = false }

abbrev pub early : {A : Asio} → Client A.Socket → Threads A
early c = record {
  client = record c { loop_thread = true; running = false };
  place = created;
  waiting = true;
}
