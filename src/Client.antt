-- ===== src/Client.antt =====
-- mbclient.cpp: the requests that the client makes, and what it prints of the answers.
-- `boost::asio::write` without an error code throws, and nothing catches it: that is `terminated`.
pub mod Text
pub mod Commands
pub mod Exchange
pub mod Reads
pub mod Loop
pub mod Broken
pub mod Sharing
use mbtest.Prelude.{
  ℕ, zero, suc, ◌+◌, ◌-◌, ℤ, to_uint16, Bool, true, false, Option, none, some, List, [], ◌∷◌, ◌++◌,
  Outcome, ok, undefined, terminated, ◌>>=◌, deref, if◌then◌else◌, ltb, leb, length, get_elem?,
  replicate,
}
use mbtest.Wire.{ByteOrder, store16, load16, load32, ntohs, htons, ntohl}
use mbtest.Asio.{Asio}
use mbtest.Protocol.Code

-- What goes to `std::cout`, a constructor for each kind of line.
pub data Line : Type 0 where
  value : ℕ → Line
  value_at : ℕ → ℕ → Line
  response_size : ℕ → Line
  argument : ℕ → List ℕ → Line
  no_values invalid_argument too_few_args invalid_command : Line
  error_message connected disconnected prompt : Line

-- The globals: the socket `s`, the thread of `start` and its flag; whether that thread comes to its
-- end once it is waited for; and what has been printed.
pub record Client (Socket : Type 0) : Type 0 where
  pub socket : Socket
  pub loop_thread : Bool
  pub running : Bool
  pub thread_ends : Bool
  pub out : List Line

pub print : {Socket : Type 0} → List Line → Client Socket → Client Socket
print lines c = record c { out = c.out ++ lines }

-- `printArgs`, which nothing calls
abbrev args_from : ℕ → List (List ℕ) → List Line
args_from j [] = []
args_from j (arg ∷ args) = argument j arg ∷ args_from (suc j) args

abbrev print_args : {Socket : Type 0} → List (List ℕ) → Client Socket → Client Socket
print_args args c = print (args_from 0 args) c

-- `decodeResponse` for many bytes: a copy
abbrev decode_bytes : List ℕ → List ℕ
decode_bytes response = response

-- `decodeResponse` for one byte
pub decode_byte : List ℕ → Outcome ℕ
decode_byte response = deref (get_elem? response 0)

module _ (order : ByteOrder) where
  -- Two bytes through a `uint16_t *`.
  pub decode_word : List ℕ → Outcome ℕ
  decode_word [] = undefined
  decode_word (a ∷ []) = undefined
  decode_word (a ∷ b ∷ rest) = ok (ntohs order (load16 order a b))

  -- As many whole words as there are.
  pub decode_words : List ℕ → List ℕ
  decode_words [] = []
  decode_words (a ∷ []) = []
  decode_words (a ∷ b ∷ rest) = ntohs order (load16 order a b) ∷ decode_words rest

-- `value[j] = …`, from `j` on.
pub values_from : ℕ → List ℕ → List Line
values_from j [] = []
values_from j (v ∷ values) = value_at j v ∷ values_from (suc j) values

module _ (A : Asio) (order : ByteOrder) where
  open A use {Socket, read, write}

  -- `ntohl(n)` of the variable `n` that four bytes have been read into.
  abbrev size_of : List ℕ → Outcome ℕ
  size_of [] = undefined
  size_of (a ∷ []) = undefined
  size_of (a ∷ b ∷ []) = undefined
  size_of (a ∷ b ∷ c ∷ []) = undefined
  size_of (a ∷ b ∷ c ∷ d ∷ rest) = ok (ntohl order (load32 order a b c d))

  -- The response has the announced size also if its end does not come: `resize` has set it to zero.
  pub read_response : Socket → Outcome (List ℕ × Socket)
  read_response s =
      let (bytes, failed, s1) = read s 4 in
      if failed then ok ([], s1) else (do
        n ← size_of bytes
        let (response, failed', s2) = read s1 n
        ok (response ++ replicate (n - length response) 0, s2))

  -- The argument is a `uint16_t`.
  pub send_command : ℕ → ℕ → Client Socket → Outcome (List ℕ × Client Socket)
  send_command cmd arg c =
      let (failed, s1) = write c.socket (cmd ∷ []) in
      let (failed', s2) = write s1 (store16 order (htons order arg)) in
      if failed
      then terminated
      else if failed'
      then terminated
      else (do (response, s3) ← read_response s2; ok (response, record c { socket = s3 }))

  pub read_discrete_all : Client Socket → Outcome (Client Socket)
  read_discrete_all c = do
    (response, c') ← send_command Code.read_discrete_all 0 c
    ok (
        if ltb 0 (length response)
        then print (values_from 0 (decode_bytes response)) c'
        else print (no_values ∷ []) c')

  pub read_coil_all : Client Socket → Outcome (Client Socket)
  read_coil_all c = do
    (response, c') ← send_command Code.read_coil_all 0 c
    ok (
        if ltb 0 (length response)
        then print (values_from 0 (decode_bytes response)) c'
        else print (no_values ∷ []) c')

  pub read_input_all : Client Socket → Outcome (Client Socket)
  read_input_all c = do
    (response, c') ← send_command Code.read_input_all 0 c
    ok (
        if ltb 0 (length response)
        then print (values_from 0 (decode_words order response)) c'
        else print (no_values ∷ []) c')

  pub read_holding_all : Client Socket → Outcome (Client Socket)
  read_holding_all c = do
    (response, c') ← send_command Code.read_holding_all 0 c
    ok (
        if ltb 0 (length response)
        then print (values_from 0 (decode_words order response)) c'
        else print (no_values ∷ []) c')

  pub read_discrete : ℤ → Client Socket → Outcome (Client Socket)
  read_discrete n c = do
    (response, c') ← send_command Code.read_discrete (to_uint16 n) c
    if ltb 0 (length response)
        then (do v ← decode_byte response; ok (print (value v ∷ []) c'))
        else ok (print (no_values ∷ []) c')

  pub read_coil : ℤ → Client Socket → Outcome (Client Socket)
  read_coil n c = do
    (response, c') ← send_command Code.read_coil (to_uint16 n) c
    if ltb 0 (length response)
        then (do v ← decode_byte response; ok (print (value v ∷ []) c'))
        else ok (print (no_values ∷ []) c')

  pub read_input : ℤ → Client Socket → Outcome (Client Socket)
  read_input n c = do
    (response, c') ← send_command Code.read_input (to_uint16 n) c
    if leb 2 (length response)
        then (do v ← decode_word order response; ok (print (value v ∷ []) c'))
        else ok (print (no_values ∷ []) c')

  pub read_holding : ℤ → Client Socket → Outcome (Client Socket)
  read_holding n c = do
    (response, c') ← send_command Code.read_holding (to_uint16 n) c
    if leb 2 (length response)
        then (do v ← decode_word order response; ok (print (value v ∷ []) c'))
        else ok (print (no_values ∷ []) c')

  -- The response is not taken apart.
  pub read_all : Client Socket → Outcome (Client Socket)
  read_all c = do
    (response, c') ← send_command Code.read_all 0 c
    ok (
        if ltb 0 (length response)
        then print (response_size (length response) ∷ []) c'
        else print (no_values ∷ []) c')
