-- ===== src/Client/Commands/Race.antt =====
-- When `stop` ends the thread that `start` has made, and when it waits without end.
use mbtest.Prelude.{
  ℕ, ◌≡◌, refl, ◌∙◌, sym, ap, ◌<◌, ◌≤◌, ◌⊎◌, inl, inr, Bool, true, false, List, [], ◌∷◌, Outcome,
  terminated, ok, ok-injective, bind_returns, if◌then◌else◌, ltb, length, arith,
}
use mbtest.Wire.{ByteOrder, store16, htons}
use mbtest.Asio.{Asio}
use mbtest.Client.{Client, Line, print, send_command, read_response, read_all}
use mbtest.Client.Commands.{start_loop, joined}
use mbtest.Client.Commands.Thread.{
  Place, nowhere, created, testing, reading, returned, Threads, Step, starts, stops, joins, enters,
  tests, reads, Steps, here, more, idle, early,
}

-- The thread goes on, and `main` waits for it.
abbrev pub goes_on : Place → Bool → Bool
goes_on created running = true
goes_on testing running = running
goes_on reading running = running
goes_on nowhere running = false
goes_on returned running = false

pub record IsStuck {A : Asio} (s : Threads A) : Type 0 where
  pub waits : s.waiting ≡ true
  pub on : goes_on s.place s.client.running ≡ true

if_returns :
    {B : Type 0} {n : Outcome B} {b : B} (failed : Bool)
    → (if failed then terminated else n) ≡ ok b
    → n ≡ ok b
if_returns true e = cc
if_returns false e = e

print_running :
    {S : Type 0} (b : Bool) (xs ys : List Line) (c : Client S)
    → (if b then print xs c else print ys c).running ≡ c.running
unfolding print
print_running true xs ys c = refl
print_running false xs ys c = refl

module _ (A : Asio) (order : ByteOrder) where
  send_command_running :
      (cmd arg : ℕ) (c : Client A.Socket) (response : List ℕ) (c' : Client A.Socket)
      → send_command A order cmd arg c ≡ ok (response, c')
      → c'.running ≡ c.running
  unfolding send_command
  send_command_running cmd arg c response c' e =
      let (failed, s1) = A.write c.socket (cmd ∷ []) in
      let (failed', s2) = A.write s1 (store16 order (htons order arg)) in
      let (r, _, e3) =
        bind_returns (read_response A order s2) (λ r. ok (r.0, record c { socket = r.1 }))
          (if_returns failed' (if_returns failed e)) in
      ap (λ r. r.1.running) (sym (ok-injective e3))

  -- `readAll` leaves the flag as it is.
  read_all_running : (c c' : Client A.Socket) → read_all A order c ≡ ok c' → c'.running ≡ c.running
  unfolding read_all
  read_all_running c c' e =
      let ((response, d), sent, e1) = bind_returns (send_command A order 9 0 c) _ e in
      ap (λ r. r.running) (sym (ok-injective e1))
      ∙ print_running (ltb 0 (length response)) _ _ d
      ∙ send_command_running 9 0 c response d sent

  Step-IsStuck : {s t : Threads A} → Step A order s t → IsStuck s → IsStuck t
  Step-IsStuck {s} (starts args c free e et) i = absurd (ground (arith, i.waits, free))
  Step-IsStuck {s} (stops free et) i = absurd (ground (arith, i.waits, free))
  Step-IsStuck {s} (joins waits e et) i = absurd (ground (arith, i.on, e))
  Step-IsStuck {s} (enters e et) i = rw et (record { waits = i.waits; on = refl })
  Step-IsStuck {s} (tests e et) i = rw et (record { waits = i.waits; on = ground (arith, i.on, e) })
  Step-IsStuck {s} (reads c e r et) i =
      rw et
        (record { waits = i.waits; on = read_all_running s.client c r ∙ ground (arith, i.on, e) })

  Steps-waiting : {s t : Threads A} → Steps A order s t → IsStuck s → t.waiting ≡ true
  Steps-waiting here i = i.waits
  Steps-waiting (more st sts) i = Steps-waiting sts (Step-IsStuck st i)

  -- If `stop` comes before the thread of `start` has set its flag, `main` waits in `join` without
  -- end: a client without the thread can come to such a state, and in whatever state it comes to
  -- from there, `main` still waits.
  pub stop_early :
      (c : Client A.Socket) (t : Threads A)
      → c.loop_thread ≡ false
      → Steps A order (early c) t
      → Steps A order (idle c) (early c) × (t.waiting ≡ true)
  unfolding start_loop
  stop_early c t free sts = (
    more (starts [] (record c { loop_thread = true }) refl (rw free refl) refl)
        (more (stops refl refl) here),
    Steps-waiting sts (record { waits = refl; on = refl }),
  )

abbrev pub is_entered : Place → Bool
is_entered nowhere = false
is_entered created = false
is_entered testing = true
is_entered reading = true
is_entered returned = true

-- The flag is cleared after the thread has set it, and `main` waits for the thread.
pub record IsStopping {A : Asio} (s : Threads A) : Type 0 where
  pub waits : s.waiting ≡ true
  pub cleared : s.client.running ≡ false
  pub entered : is_entered s.place ≡ true

-- How many steps the thread has left.
abbrev pub left : Place → ℕ
left reading = 2
left testing = 1
left returned = 0
left nowhere = 0
left created = 0

left-le_two : (p : Place) → left p ≤ 2
left-le_two reading = omega arith
left-le_two testing = omega arith
left-le_two returned = omega arith
left-le_two nowhere = omega arith
left-le_two created = omega arith

module _ (A : Asio) (order : ByteOrder) where
  Step-IsStopping :
      {s t : Threads A}
      → IsStopping s
      → Step A order s t
      → (t.waiting ≡ false) ⊎ (IsStopping t × (left t.place < left s.place))
  Step-IsStopping {s} i (starts args c free e et) = absurd (ground (arith, i.waits, free))
  Step-IsStopping {s} i (stops free et) = absurd (ground (arith, i.waits, free))
  Step-IsStopping {s} i (joins waits e et) = inl (rw et refl)
  Step-IsStopping {s} i (enters e et) = absurd (ground (arith, i.entered, e))
  Step-IsStopping {s} i (tests e et) = inr (
      rw (et, e, i.cleared)
        (record { waits = i.waits; cleared = refl; entered = refl }, omega arith))
  Step-IsStopping {s} i (reads c e r et) = inr (
      rw (et, e)
        (
          record {
            waits = i.waits;
            cleared = read_all_running A order s.client c r ∙ i.cleared;
            entered = refl;
          },
          omega arith,
        ))

  abbrev join_of : Threads A → Threads A
  join_of s = record { client = joined A order s.client; place = nowhere; waiting = false }

  returned_joins :
      (s : Threads A)
      → s.waiting ≡ true
      → s.place ≡ returned
      → (u : Threads A) × Steps A order s u × (u.waiting ≡ false) × (u.client.loop_thread ≡ false)
  returned_joins s waits e = (join_of s, more (joins waits e refl) here, refl, refl)

  testing_joins :
      (s : Threads A)
      → s.waiting ≡ true
      → s.client.running ≡ false
      → s.place ≡ testing
      → (u : Threads A) × Steps A order s u × (u.waiting ≡ false) × (u.client.loop_thread ≡ false)
  testing_joins s waits off e =
      let (u, sts, back, single) =
        returned_joins (record s { place = if s.client.running then reading else returned }) waits
          (ground (arith, off)) in
      (u, more (tests e refl) sts, back, single)

  can_join :
      (s : Threads A) (p : Place)
      → IsStopping s
      → s.place ≡ p
      → (s.place ≡ reading → (c : Client A.Socket) × (read_all A order s.client ≡ ok c))
      → (u : Threads A) × Steps A order s u × (u.waiting ≡ false) × (u.client.loop_thread ≡ false)
  can_join s nowhere i e returns = absurd (ground (arith, i.entered, e))
  can_join s created i e returns = absurd (ground (arith, i.entered, e))
  can_join s returned i e returns = returned_joins s i.waits e
  can_join s testing i e returns = testing_joins s i.waits i.cleared e
  can_join s reading i e returns =
      let (c, r) = returns e in
      let (u, sts, back, single) =
        testing_joins (record s { client = c; place = testing }) i.waits
          (read_all_running A order s.client c r ∙ i.cleared) refl in
      (u, more (reads c e r refl) sts, back, single)

  -- If the flag is cleared after the thread has set it, and the call of `readAll` that the thread
  -- may be in returns, then there are steps after which `main` has returned from `join` and there
  -- is no thread; and any step either lets `main` return, or brings the thread closer to its end,
  -- which it is two steps away from at most.
  pub stop_ends :
      {s t : Threads A}
      → IsStopping s
      → (s.place ≡ reading → (c : Client A.Socket) × (read_all A order s.client ≡ ok c))
      → Step A order s t
      → ((u : Threads A) × Steps A order s u × (u.waiting ≡ false) × (u.client.loop_thread ≡ false))
        × ((t.waiting ≡ false) ⊎ (IsStopping t × (left t.place < left s.place)))
        × (left s.place ≤ 2)
  stop_ends {s} i returns st =
      (can_join s s.place i refl returns, Step-IsStopping i st, left-le_two s.place)
