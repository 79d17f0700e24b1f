-- ===== src/Client/Commands/Session.antt =====
-- `main` of mbclient.cpp on what stands on its standard input.
use mbtest.Prelude.{
  ℕ, zero, suc, ◌<◌, ◌≡◌, refl, sym, ap, ◌∙◌, Bool, true, false, List, [], ◌∷◌, ◌++◌, Outcome, ok,
  undefined, terminated, out_of_fuel, ◌>>=◌, arith, length, All, ◌==◌, bind_returns,
}
use mbtest.Wire.{ByteOrder}
use mbtest.Asio.{Asio}
use mbtest.Client.{Client, prompt, print}
use mbtest.Client.Text.{Input, take_line, getline, split_string}
use mbtest.Client.Commands.{process_words, process_command, main_loop, main}

-- A command: not empty and without a line end.
abbrev pub IsCommand : List ℕ → Type 0
IsCommand line = (0 < length line) × All (λ x. (x == 10) ≡ false) line

-- Lines, each with its end, before `rest`.
abbrev pub lines_of : List (List ℕ) → List ℕ → List ℕ
lines_of [] rest = rest
lines_of (l ∷ ls) rest = l ++ (10 ∷ lines_of ls rest)

module _ (A : Asio) (order : ByteOrder) where
  -- One command after another, each with its prompt, and a last prompt.
  unfoldable pub session : List (List ℕ) → Client A.Socket → Outcome (Client A.Socket)
  session [] c = ok (print (prompt ∷ []) c)
  session (l ∷ ls) c = do
    words ← split_string l 32
    c' ← process_words A order words (print (prompt ∷ []) c)
    session ls c'

take_line-line :
    (l rest : List ℕ)
    → All (λ x. (x == 10) ≡ false) l
    → take_line (l ++ (10 ∷ rest)) ≡ (l, record { text = rest; at_end = false })
unfolding take_line
take_line-line [] rest h = refl
take_line-line (x ∷ l) rest (hx, h) = rw (hx, take_line, take_line-line l rest h) refl

take_line-end :
    (l : List ℕ)
    → All (λ x. (x == 10) ≡ false) l
    → take_line l ≡ (l, record { text = []; at_end = true })
unfolding take_line
take_line-end [] h = refl
take_line-end (x ∷ l) (hx, h) = rw (hx, take_line, take_line-end l h) refl

module _ {B C D : Type 0} (p : B → Outcome C) (k : Bool × C → Outcome D) (k' : C → Outcome D)
    (same : (c : C) → k (true, c) ≡ k' c) where
  continue_with : (m : Outcome C) → ((m >>= λ c. ok (true, c)) >>= k) ≡ (m >>= k')
  continue_with (ok c) = same c
  continue_with undefined = refl
  continue_with terminated = refl
  continue_with out_of_fuel = refl

  go_on : (m : Outcome B) → ((m >>= λ b. p b >>= λ c. ok (true, c)) >>= k) ≡ (m >>= λ b. p b >>= k')
  go_on (ok b) = continue_with (p b)
  go_on undefined = refl
  go_on terminated = refl
  go_on out_of_fuel = refl

module _ (A : Asio) (order : ByteOrder) where
  -- A round on a command that is not empty.
  main_loop-command :
      (fuel x : ℕ) (l last : List ℕ) (input input' : Input) (c : Client A.Socket)
      (next : Client A.Socket → Outcome (Client A.Socket))
      → getline input last ≡ (x ∷ l, input')
      → ((c' : Client A.Socket) → main_loop A order fuel input' (x ∷ l) c' ≡ next c')
      → main_loop A order (suc fuel) input last c ≡ (
          split_string (x ∷ l) 32 >>= λ words.
          process_words A order words (print (prompt ∷ []) c) >>= next)
  unfolding main_loop process_command
  main_loop-command fuel x l last input input' c next e same =
      ap
        (λ read. process_command A order read.0 (print (prompt ∷ []) c) >>= λ (more, c').
          elim more [ true ↦ main_loop A order fuel read.1 read.0 c' | false ↦ ok c' ])
        e
      ∙ go_on (λ words. process_words A order words (print (prompt ∷ []) c))
          (λ (more, c'). elim more [
            | true ↦ main_loop A order fuel input' (x ∷ l) c'
            | false ↦ ok c'
          ])
          next same (split_string (x ∷ l) 32)

  main_loop_lines :
      (ls : List (List ℕ)) (rest : List ℕ) (fuel : ℕ) (last : List ℕ) (c : Client A.Socket)
      → All IsCommand ls
      → length ls < fuel
      → main_loop A order fuel (record { text = lines_of ls (10 ∷ rest); at_end = false }) last c
        ≡ session A order ls c
  unfolding main_loop getline process_command session
  main_loop_lines ls rest zero last c h enough = absurd (omega arith)
  main_loop_lines [] rest (suc fuel) last c h enough = refl
  main_loop_lines ([] ∷ ls) rest (suc fuel) last c ((some_, _), h) enough = absurd (omega arith)
  main_loop_lines ((x ∷ l) ∷ ls) rest (suc fuel) last c ((_, line), h) enough =
      main_loop-command fuel x l last
        (record { text = lines_of ((x ∷ l) ∷ ls) (10 ∷ rest); at_end = false })
        (record { text = lines_of ls (10 ∷ rest); at_end = false }) c (session A order ls)
        (take_line-line (x ∷ l) (lines_of ls (10 ∷ rest)) line)
        (λ c'. main_loop_lines ls rest fuel (x ∷ l) c' h (omega arith))

  -- `main` reads commands up to the first empty line: on lines that are not empty, then an empty
  -- line, then whatever there is, with more rounds of fuel than commands, it runs just those
  -- commands, in order, each after a prompt.
  pub main-session :
      (ls : List (List ℕ)) (rest : List ℕ) (fuel : ℕ) (c : Client A.Socket)
      → All IsCommand ls
      → length ls < fuel
      → main A order fuel (record { text = lines_of ls (10 ∷ rest); at_end = false }) c
        ≡ session A order ls c
  unfolding main
  main-session ls rest fuel c h enough = main_loop_lines ls rest fuel [] c h enough

  -- If the loop returns, it has gone on after the command.
  main_loop_went_on :
      (fuel x : ℕ) (l last : List ℕ) (input input' : Input) (c c' : Client A.Socket)
      → getline input last ≡ (x ∷ l, input')
      → main_loop A order (suc fuel) input last c ≡ ok c'
      → (d : Client A.Socket) × (main_loop A order fuel input' (x ∷ l) d ≡ ok c')
  main_loop_went_on fuel x l last input input' c c' e done =
      let next : Client A.Socket → Outcome (Client A.Socket) =
        main_loop A order fuel input' (x ∷ l) in
      let round = main_loop-command fuel x l last input input' c next e (λ d. refl) in
      let (words, _, e1) =
        bind_returns (split_string (x ∷ l) 32)
          (λ words. process_words A order words (print (prompt ∷ []) c) >>= next)
          (sym round ∙ done) in
      let (d, _, e2) = bind_returns (process_words A order words (print (prompt ∷ []) c)) next e1 in
      (d, e2)

  main_loop_at_end :
      (fuel x : ℕ) (l : List ℕ) (input : Input) (c c' : Client A.Socket)
      → input.at_end ≡ true
      → main_loop A order fuel input (x ∷ l) c ≡ ok c'
      → ⊥
  unfolding main_loop getline
  main_loop_at_end zero x l input c c' e done = cc
  main_loop_at_end (suc fuel) x l input c c' e done =
      let again : getline input (x ∷ l) ≡ (x ∷ l, input) = rw (e, getline) refl in
      let (d, e2) = main_loop_went_on fuel x l (x ∷ l) input input c c' again done in
      main_loop_at_end fuel x l input d c' e e2

  -- A last line that is not empty and has no line end is run again and again: on an input that
  -- consists of it, `main` returns with no fuel at all.
  pub main_unterminated :
      (line : List ℕ) (fuel : ℕ) (c c' : Client A.Socket)
      → IsCommand line
      → ¬ (main A order fuel (record { text = line; at_end = false }) c ≡ ok c')
  unfolding main main_loop getline
  main_unterminated [] fuel c c' (some_, _) = absurd (omega arith)
  main_unterminated (x ∷ l) zero c c' h = λ done. cc
  main_unterminated (x ∷ l) (suc fuel) c c' (_, line) = λ done.
      let finished : Input = record { text = []; at_end = true } in
      let (d, e2) =
        main_loop_went_on fuel x l [] (record { text = x ∷ l; at_end = false }) finished c c'
          (take_line-end (x ∷ l) line) done in
      main_loop_at_end fuel x l finished d c' refl e2
