-- ===== src/Client/Commands/Entries/Screen.antt =====
-- What `main` of mbclient.cpp prints in a session of reads.
use mbtest.Prelude.{
  ℕ, suc, ◌<◌, ◌%◌, ◌≡◌, refl, ap, ◌∙◌, false, pos, List, [], ◌∷◌, ◌++◌, ok, arith, All, length,
  append_assoc, append-nil,
}
use mathlib.Core.Path.{subst}
use mbtest.Wire.{ByteOrder}
use mbtest.Asio.{Asio, IsStream, Holds}
use mbtest.Interfaces.{AllRegs}
use mbtest.Protocol.{Command, request, requests, answers, IsWellFormed}
use mbtest.Client.{Client, Line, prompt, invalid_command, too_few_args, print}
use mbtest.Client.Text.{codes}
use mbtest.Client.Text.Split.{split_string-join}
use mbtest.Client.Text.Decimal.{decimal, decimal-not_all, stoi-decimal}
use mbtest.Client.Reads.{Shows, shown}
use mbtest.Client.Commands.{process_words, process_read_op}
use mbtest.Client.Commands.Lines.{Table, name, cell_of, table_of, read_table-Shows, read_cell-Shows}
use mbtest.Client.Commands.Session.{session}
use mbtest.Client.Commands.Entries.{
  Entry, cell, table, unknown, short, first, others, line, lines, is_keyword, IsEntry, commands,
  screen,
}
use mbtest.Client.Commands.Entries.Texts.{words-IsText, All-IsWord}

-- What a line prints after its prompt, and what comes after that.
print-print :
    {S : Type 0} (xs ys : List Line) (s1 s2 : S) (c : Client S)
    → print ys (record (print xs (record (print (prompt ∷ []) c) { socket = s1 })) { socket = s2 })
      ≡ print ((prompt ∷ xs) ++ ys) (record c { socket = s2 })
unfolding print
print-print xs ys s1 s2 c =
    ap (λ out. record c { socket = s2; out = out })
      (append_assoc (c.out ++ (prompt ∷ [])) xs ys ∙ append_assoc c.out (prompt ∷ []) (xs ++ ys))

module _ (A : Asio) (order : ByteOrder) where
  -- A line of words is taken apart before it is run.
  pub session-line :
      (e : Entry) (ls : List (List ℕ)) (c c' : Client A.Socket)
      → IsEntry e
      → process_words A order (first e ∷ others e) (print (prompt ∷ []) c) ≡ ok c'
      → session A order (line e ∷ ls) c ≡ session A order ls c'
  unfolding session
  session-line e ls c c' h r =
      let ((hw, _), hs) = words-IsText e h in
      rw (split_string-join 32 refl (first e) (others e) hw (All-IsWord (others e) hs), r) refl

  pub unknown_words :
      (w : List ℕ) (words : List (List ℕ)) (c : Client A.Socket)
      → is_keyword w ≡ false
      → process_words A order (w ∷ words) c ≡ ok (print (invalid_command ∷ []) c)
  unfolding process_words
  unknown_words w words c h = ground (arith, h)

  pub short_words :
      (words : List (List ℕ)) (c : Client A.Socket)
      → length words < 2
      → process_words A order (codes "read" ∷ words) c ≡ ok (print (too_few_args ∷ []) c)
  unfolding process_words process_read_op
  short_words [] c h = refl
  short_words (a ∷ []) c h = refl
  short_words (a ∷ b ∷ words) c h = absurd (omega arith)

module _ {A : Asio} (S : IsStream A) (order : ByteOrder) (now snapshot : ℕ → AllRegs)
    (valid : (k : ℕ) → IsWellFormed (now k)) (valid' : (k : ℕ) → IsWellFormed (snapshot k)) where
  -- What is left of the session after a line.
  abbrev Ends : (ℕ → List Entry → Client A.Socket → List ℕ → List ℕ → Type 0)
  Ends k es c i o =
      (s' : A.Socket) × (session A order (lines es) c
        ≡ ok (print (screen now snapshot k es) (record c { socket = s' })))
      × Holds S s' i (o ++ requests (commands es))

  cell-Shows :
      (t : Table) (n k : ℕ)
      → n < 65536
      → Shows S order
          (valid k)
          (valid' k)
          (process_words A order (codes "read" ∷ name t ∷ decimal n ∷ []))
          (cell_of t n)
  cell-Shows t n k small =
      let fits : n % 65536 ≡ n = omega arith in
      subst
        (λ j.
          Shows S order (valid k) (valid' k)
            (process_words A order (codes "read" ∷ name t ∷ decimal n ∷ [])) (cell_of t j))
        fits
        (read_cell-Shows S order (valid k) (valid' k) t (decimal n) [] (pos n) (decimal-not_all n)
          (stoi-decimal n (omega arith)))

  Holds-print :
      (out : List Line) (c : Client A.Socket) {i o : List ℕ}
      → Holds S c.socket i o
      → Holds S (print out c).socket i o
  unfolding print
  Holds-print out c h = h

  -- A line that sends a command.
  exchange-Ends :
      (e : Entry) (es : List Entry) (command : Command) (k : ℕ) (c : Client A.Socket) (i o : List ℕ)
      → IsEntry e
      → Shows S order (valid k) (valid' k) (process_words A order (first e ∷ others e)) command
      → ((c : Client A.Socket) (o : List ℕ)
          → Holds S c.socket (answers now snapshot (suc k) (commands es) ++ i) o
          → Ends (suc k) es c i o)
      → Holds S c.socket (answers now snapshot k (command ∷ commands es) ++ i) o
      → (s' : A.Socket) × (session A order (line e ∷ lines es) c
          ≡ ok (
              print
                (prompt ∷ shown (now k) (snapshot k) command ++ screen now snapshot (suc k) es)
                (record c { socket = s' })))
        × Holds S s' i (o ++ requests (command ∷ commands es))
  unfolding answers requests
  exchange-Ends e es command k c i o he shows rest h =
      let (s1, r1, h1) =
        shows (print (prompt ∷ []) c) (answers now snapshot (suc k) (commands es) ++ i) o
          (Holds-print (prompt ∷ []) c (rw append_assoc at h)) in
      let out = shown (now k) (snapshot k) command in
      let (s2, r2, h2) =
        rest (print out (record (print (prompt ∷ []) c) { socket = s1 })) (o ++ request command)
          (Holds-print out (record (print (prompt ∷ []) c) { socket = s1 }) h1) in
      (
        s2,
        session-line A order e (lines es) c _ he r1 ∙ r2 ∙ ap ok (print-print _ _ s1 s2 c),
        rw append_assoc at h2,
      )

  -- A line that only prints.
  local-Ends :
      (e : Entry) (es : List Entry) (out : List Line) (k : ℕ) (c : Client A.Socket) (i o : List ℕ)
      → IsEntry e
      → ((c : Client A.Socket) → process_words A order (first e ∷ others e) c ≡ ok (print out c))
      → ((c : Client A.Socket) (o : List ℕ)
          → Holds S c.socket (answers now snapshot k (commands es) ++ i) o
          → Ends k es c i o)
      → Holds S c.socket (answers now snapshot k (commands es) ++ i) o
      → (s' : A.Socket) × (session A order (line e ∷ lines es) c
          ≡ ok (print (prompt ∷ out ++ screen now snapshot k es) (record c { socket = s' })))
        × Holds S s' i (o ++ requests (commands es))
  local-Ends e es out k c i o he prints rest h =
      let (s2, r2, h2) =
        rest (print out (print (prompt ∷ []) c)) o
          (Holds-print out (print (prompt ∷ []) c) (Holds-print (prompt ∷ []) c h)) in
      (
        s2,
        session-line A order e (lines es) c _ he (prints (print (prompt ∷ []) c))
            ∙ r2
            ∙ ap ok (print-print out _ (print (prompt ∷ []) c).socket s2 c),
        h2,
      )

  -- On a stream that answers the commands, the session prints what the tables tell, and reads no
  -- more than the answers.
  pub session_reads :
      (es : List Entry) (k : ℕ) (c : Client A.Socket) (i o : List ℕ)
      → All IsEntry es
      → Holds S c.socket (answers now snapshot k (commands es) ++ i) o
      → Ends k es c i o
  unfolding session answers requests print
  session_reads [] k c i o h holds = (c.socket, refl, rw append-nil holds)
  session_reads (cell t n ∷ es) k c i o (he, h) holds =
      exchange-Ends (cell t n) es (cell_of t n) k c i o he (cell-Shows t n k he)
        (λ c o. session_reads es (suc k) c i o h) holds
  session_reads (table t ∷ es) k c i o (he, h) holds =
      exchange-Ends (table t) es (table_of t 0) k c i o he
        (read_table-Shows S order (valid k) (valid' k) t [])
        (λ c o. session_reads es (suc k) c i o h) holds
  session_reads (unknown w words ∷ es) k c i o (he, h) holds =
      let (_, _, other, _) = he in
      local-Ends (unknown w words) es (invalid_command ∷ []) k c i o he
        (λ c. unknown_words A order w words c other) (λ c o. session_reads es k c i o h) holds
  session_reads (short words ∷ es) k c i o (he, h) holds =
      local-Ends (short words) es (too_few_args ∷ []) k c i o he
        (λ c. short_words A order words c he.1) (λ c o. session_reads es k c i o h) holds
