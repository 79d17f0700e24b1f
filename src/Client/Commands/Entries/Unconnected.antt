-- ===== src/Client/Commands/Entries/Unconnected.antt =====
-- `main` of mbclient.cpp before `connect`, after `disconnect` and after the server has gone.
use mbtest.Prelude.{
  ℕ, ◌<◌, ◌≡◌, refl, ap, ◌∙◌, Bool, true, false, pos, List, [], ◌∷◌, ◌++◌, Outcome, ok, terminated,
  if◌then◌else◌, arith, All, length, append_assoc,
}
use mbtest.Wire.{ByteOrder}
use mbtest.Asio.{Asio}
use mbtest.Client.{Client, Line, prompt, invalid_command, too_few_args, print}
use mbtest.Client.Text.{codes}
use mbtest.Client.Text.Split.{split_string-join}
use mbtest.Client.Text.Decimal.{decimal, decimal-not_all, stoi-decimal}
use mbtest.Client.Commands.{process_words, process_read_op, main}
use mbtest.Client.Commands.Lines.{Table, name}
use mbtest.Client.Commands.Session.{lines_of, session, main-session}
use mbtest.Client.Commands.Unwritable.{IsUnwritable, table_lem, cell_lem}
use mbtest.Client.Commands.Entries.{
  Entry, cell, table, unknown, short, first, others, line, lines, IsEntry,
}
use mbtest.Client.Commands.Entries.Texts.{words-IsText, All-IsWord, lines-IsCommand, length-lines}
use mbtest.Client.Commands.Entries.Screen.{session-line, unknown_words, short_words}

-- Does a line ask for a table or a cell?
abbrev pub asks : List Entry → Bool
asks [] = false
asks (cell t n ∷ es) = true
asks (table t ∷ es) = true
asks (unknown w words ∷ es) = asks es
asks (short words ∷ es) = asks es

-- The prompts, and the complaints about the lines that ask for nothing.
abbrev pub complaints : List Entry → List Line
complaints [] = prompt ∷ []
complaints (cell t n ∷ es) = prompt ∷ complaints es
complaints (table t ∷ es) = prompt ∷ complaints es
complaints (unknown w words ∷ es) = prompt ∷ invalid_command ∷ complaints es
complaints (short words ∷ es) = prompt ∷ too_few_args ∷ complaints es

print-print :
    {S : Type 0} (xs ys : List Line) (c : Client S) → print ys (print xs c) ≡ print (xs ++ ys) c
unfolding print
print-print xs ys c = ap (λ out. record c { out = out }) (append_assoc c.out xs ys)

module _ (A : Asio) (order : ByteOrder) where
  print-IsUnwritable :
      (xs : List Line) (c : Client A.Socket)
      → IsUnwritable A c.socket
      → IsUnwritable A (print xs c).socket
  unfolding print
  print-IsUnwritable xs c h = h

  -- How the session ends.
  abbrev Ends : (List Entry → Client A.Socket → Outcome (Client A.Socket))
  Ends es c = if asks es then terminated else ok (print (complaints es) c)

  -- A line that asks ends the process.
  asking_ends :
      (e : Entry) (ls : List (List ℕ)) (c : Client A.Socket)
      → IsEntry e
      → process_words A order (first e ∷ others e) (print (prompt ∷ []) c) ≡ terminated
      → session A order (line e ∷ ls) c ≡ terminated
  unfolding session
  asking_ends e ls c h r =
      let ((hw, _), hs) = words-IsText e h in
      rw (split_string-join 32 refl (first e) (others e) hw (All-IsWord (others e) hs), r) refl

  cell_ends :
      (t : Table) (n : ℕ) (c : Client A.Socket)
      → n < 65536
      → IsUnwritable A c.socket
      → process_words A order (codes "read" ∷ name t ∷ decimal n ∷ []) c ≡ terminated
  unfolding process_words process_read_op
  cell_ends t n c small h =
      rw (decimal-not_all n, stoi-decimal n (omega arith)) (cell_lem A order c h t (pos n))

  table_ends :
      (t : Table) (c : Client A.Socket)
      → IsUnwritable A c.socket
      → process_words A order (codes "read" ∷ name t ∷ codes "all" ∷ []) c ≡ terminated
  unfolding process_words process_read_op
  table_ends t c h = table_lem A order c h t

  -- A line that is only complained about.
  complaint_goes_on :
      (e : Entry) (es : List Entry) (out : List Line) (c : Client A.Socket)
      → IsEntry e
      → process_words A order (first e ∷ others e) (print (prompt ∷ []) c)
        ≡ ok (print out (print (prompt ∷ []) c))
      → session A order (lines es) (print out (print (prompt ∷ []) c))
        ≡ Ends es (print out (print (prompt ∷ []) c))
      → session A order (line e ∷ lines es) c
        ≡ (if asks es then terminated else ok (print (prompt ∷ out ++ complaints es) c))
  complaint_goes_on e es out c he prints rest =
      session-line A order e (lines es) c _ he prints
      ∙ rest
      ∙ ap (λ d. if asks es then terminated else ok d)
          (print-print out (complaints es) (print (prompt ∷ []) c)
            ∙ print-print (prompt ∷ []) (out ++ complaints es) c)

  session_unconnected :
      (es : List Entry) (c : Client A.Socket)
      → All IsEntry es
      → IsUnwritable A c.socket
      → session A order (lines es) c ≡ Ends es c
  unfolding session
  session_unconnected [] c h u = refl
  session_unconnected (cell t n ∷ es) c (he, h) u =
      asking_ends (cell t n) (lines es) c he
        (cell_ends t n (print (prompt ∷ []) c) he (print-IsUnwritable (prompt ∷ []) c u))
  session_unconnected (table t ∷ es) c (he, h) u =
      asking_ends (table t) (lines es) c he
        (table_ends t (print (prompt ∷ []) c) (print-IsUnwritable (prompt ∷ []) c u))
  session_unconnected (unknown w words ∷ es) c (he, h) u =
      let (_, _, other, _) = he in
      let d = print (prompt ∷ []) c in
      complaint_goes_on (unknown w words) es (invalid_command ∷ []) c he
        (unknown_words A order w words d other)
        (session_unconnected es (print (invalid_command ∷ []) d) h
          (print-IsUnwritable (invalid_command ∷ []) d (print-IsUnwritable (prompt ∷ []) c u)))
  session_unconnected (short words ∷ es) c (he, h) u =
      let d = print (prompt ∷ []) c in
      complaint_goes_on (short words) es (too_few_args ∷ []) c he (short_words A order words d he.1)
        (session_unconnected es (print (too_few_args ∷ []) d) h
          (print-IsUnwritable (too_few_args ∷ []) d (print-IsUnwritable (prompt ∷ []) c u)))

  -- A session without a connection. On a socket on which every write fails, with more rounds of
  -- fuel than lines, the first line that asks for a table or for a cell ends the whole process; a
  -- session without such a line, of lines with an unknown first word or too few words after `read`,
  -- runs to the empty line, with the complaint about each.
  pub main_unconnected :
      (es : List Entry) (rest : List ℕ) (fuel : ℕ) (c : Client A.Socket)
      → All IsEntry es
      → length es < fuel
      → IsUnwritable A c.socket
      → main A order fuel (record { text = lines_of (lines es) (10 ∷ rest); at_end = false }) c
        ≡ (if asks es then terminated else ok (print (complaints es) c))
  main_unconnected es rest fuel c h enough u =
      main-session A order (lines es) rest fuel c (lines-IsCommand es h) (rw length-lines enough)
      ∙ session_unconnected es c h u
