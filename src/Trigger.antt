-- ===== src/Trigger.antt =====
-- display_app/services/manual_trigger_client.py: a trigger by hand through the TCP port of the controller.
-- What the other side does is a list of what each call of the socket returns.
pub mod Answer
pub mod Order
use Prim.Native.String.{◌∷◌ as ◌∷ₛ◌, [] as []ₛ, count}
use Prim.Native.Char.{Char, code}
use seat_surface_aoi.Prelude.{
  ℕ, ◌==◌, ◌&&◌, ◌||◌, not, String, Bool, true, false, List, [], ◌∷◌, ◌++◌, any, str_eq, str_append,
  ltb, leb, if◌then◌else◌,
}
use seat_surface_aoi.Prelude.Result.{Result, done, raised, ◌>>=◌}
use seat_surface_aoi.Protocol.Layout.{Codec}

pub record ManualTriggerConfig : Type 0 where
  pub terminator : String
  pub start_command : String
  pub sn_prefix : String
  pub start_ack : String
  pub sn_ack : String
  pub max_sn_length : ℕ

-- The messages of a ManualTriggerError.
pub data ManualTriggerError : Type 0 where
  empty_sn long_sn newline_in_sn bad_sn : ManualTriggerError
  no_connection communication disconnected reply_timeout : ManualTriggerError

pub record ManualTriggerClient : Type 0 where
  pub is_connected : Bool
  pub rx_buffer : List ℕ

-- [A-Za-z0-9_.-]
unfoldable pub is_sn_char : ℕ → Bool
is_sn_char n =
    (leb 65 n && leb n 90)
    || (leb 97 n && leb n 122)
    || (leb 48 n && leb n 57)
    || (n == 95)
    || (n == 46)
    || (n == 45)

unfoldable pub all_chars : (ℕ → Bool) → String → Bool
all_chars p []ₛ = true
all_chars p (c ∷ₛ s) = p (code c) && all_chars p s

-- _validate_sn; `strip` is Python's str.strip
unfoldable pub validate_sn : (String → String) → String → ℕ → Result ManualTriggerError String
unfolding all_chars is_sn_char
validate_sn strip sn max_length =
    let normalized = strip sn in
    if str_eq normalized ""
    then raised empty_sn
    else if ltb max_length (count normalized)
    then raised long_sn
    else if not (all_chars (λ n. not (n == 13 || n == 10)) normalized)
    then raised newline_in_sn
    else if not (all_chars is_sn_char normalized)
    then raised bad_sn
    else done normalized

-- One call of `recv`: bytes, at least one; nothing in time, the end of the connection, or an OSError.
pub data Recv : Type 0 where
  chunk : List ℕ → Recv
  nothing closed failed : Recv

unfoldable pub starts_with : List ℕ → List ℕ → Bool
starts_with [] bytes = true
starts_with (x ∷ xs) [] = false
starts_with (x ∷ xs) (y ∷ ys) = (x == y) && starts_with xs ys

-- expected in buffer
unfoldable pub occurs_in : List ℕ → List ℕ → Bool
unfolding starts_with
occurs_in buffer [] = true
occurs_in [] (x ∷ xs) = false
occurs_in (y ∷ ys) (x ∷ xs) = starts_with (x ∷ xs) (y ∷ ys) || occurs_in ys (x ∷ xs)

-- text.replace("\r", "\\r").replace("\n", "\\n")
unfoldable pub escape_newlines : String → String
escape_newlines []ₛ = ""
escape_newlines (c ∷ₛ s) =
    let rest = escape_newlines s in
    if code c == 13
    then str_append "\\r" rest
    else if code c == 10
    then str_append "\\n" rest
    else c ∷ₛ rest

-- text.rstrip("\r\n")
unfoldable pub rstrip_newlines : String → String
rstrip_newlines []ₛ = ""
rstrip_newlines (c ∷ₛ s) =
    let rest = rstrip_newlines s in
    if str_eq rest "" && (code c == 13 || code c == 10) then "" else c ∷ₛ rest

module _ ⦃k : Codec⦄ where
  -- _command_bytes
  unfoldable pub command_bytes : String → String → List ℕ
  command_bytes command terminator = k.utf8 (str_append command terminator)

  -- The variants of a reply in _read_expected_locked, with _expected_variants.
  unfoldable pub expected_variants : String → List (List ℕ)
  unfolding escape_newlines rstrip_newlines
  expected_variants expected =
      (if str_eq (escape_newlines expected) expected
        then k.utf8 expected ∷ []
        else k.utf8 expected ∷ k.utf8 (escape_newlines expected) ∷ [])
      ++ (if str_eq (rstrip_newlines expected) expected
          then []
          else k.utf8 (rstrip_newlines expected) ∷ [])

-- The loop of _read_expected_locked until the deadline: what `recv` returns in each round.
unfoldable pub read_expected :
    List (List ℕ) → List ℕ → List Recv → Result ManualTriggerError (Unit {0})
unfolding occurs_in
read_expected variants buffer [] = raised reply_timeout
read_expected variants buffer (chunk bytes ∷ rest) =
    let later = read_expected variants (buffer ++ bytes) rest in
    if any (occurs_in buffer) variants then done tt else later
read_expected variants buffer (nothing ∷ rest) =
    if any (occurs_in buffer) variants then done tt else raised reply_timeout
read_expected variants buffer (closed ∷ rest) =
    if any (occurs_in buffer) variants then done tt else raised disconnected
read_expected variants buffer (failed ∷ rest) =
    if any (occurs_in buffer) variants then done tt else raised communication

-- The loop of _drain_socket_locked until nothing is left: whether the connection is still there.
unfoldable pub drain : List Recv → Result ManualTriggerError Bool
drain [] = done true
drain (chunk bytes ∷ rest) = drain rest
drain (nothing ∷ rest) = done true
drain (closed ∷ rest) = done false
drain (failed ∷ rest) = raised communication

-- What the other side does during one trigger.
pub record Exchange : Type 0 where
  pub connects : Bool
  pub stale : List Recv
  pub start_is_sent : Bool
  pub start_replies : List Recv
  pub sn_is_sent : Bool
  pub sn_replies : List Recv

-- What was sent, and how it ended.
abbrev pub Sent : Type 0
Sent = List (List ℕ) × Result ManualTriggerError (Unit {0})

-- A line that is sent and answered, and what follows.
unfoldable pub ask : List ℕ → Bool → Result ManualTriggerError (Unit {0}) → Sent → Sent
ask line false reply later = ([], raised communication)
ask line true (raised e) later = (line ∷ [], raised e)
ask line true (done u) later = (line ∷ later.0, later.1)

module _ ⦃k : Codec⦄ where
  unfoldable pub talk :
      ManualTriggerConfig → String → Exchange → Result ManualTriggerError Bool → Sent
  unfolding ask read_expected expected_variants command_bytes
  talk config sn x (raised e) = ([], raised e)
  talk config sn x (done is_connected) =
      ask (command_bytes config.start_command config.terminator) (is_connected && x.start_is_sent)
        (read_expected (expected_variants config.start_ack) [] x.start_replies)
        (ask (command_bytes (str_append config.sn_prefix (str_append " " sn)) config.terminator)
          x.sn_is_sent (read_expected (expected_variants config.sn_ack) [] x.sn_replies)
          ([], done tt))

  -- The part of `trigger` under the lock.
  unfoldable pub exchange : ManualTriggerConfig → ManualTriggerClient → String → Exchange → Sent
  unfolding talk drain
  exchange config client sn x =
      if client.is_connected || x.connects
      then talk config sn x (drain x.stale)
      else ([], raised no_connection)

  -- The client after the exchange: connected where it succeeded, closed where it raised. Without a
  -- connection there is nothing to close.
  unfoldable pub settled :
      ManualTriggerClient → Result ManualTriggerError (Unit {0}) → ManualTriggerClient
  settled client (done u) = record { is_connected = true; rx_buffer = [] }
  settled client (raised no_connection) = client
  settled client (raised e) = record { is_connected = false; rx_buffer = [] }

  unfoldable pub finished :
      String → Result ManualTriggerError (Unit {0}) → Result ManualTriggerError String
  finished sn (done u) = done sn
  finished sn (raised e) = raised e

  unfoldable pub submit :
      ManualTriggerConfig
      → ManualTriggerClient
      → Exchange
      → Result ManualTriggerError String
      → ManualTriggerClient × List (List ℕ) × Result ManualTriggerError String
  unfolding exchange settled finished
  submit config client x (raised e) = (client, [], raised e)
  submit config client x (done sn) =
      let sent = exchange config client sn x in
      (settled client (sent.1), sent.0, finished sn (sent.1))

  -- ManualTriggerClient.trigger: the client, the lines that were sent, and the serial number or the error
  unfoldable pub trigger :
      (String → String)
      → ManualTriggerConfig
      → ManualTriggerClient
      → Exchange
      → String
      → ManualTriggerClient × List (List ℕ) × Result ManualTriggerError String
  unfolding validate_sn submit
  trigger strip config client x sn =
      submit config client x (validate_sn strip sn config.max_sn_length)
