-- ===== src/Injector/Control.antt =====
-- The control socket of ublkfault/src/main.rs: the requests as JSON objects, on the side of the
-- commands that send them and of the server that reads them. How serde_json prints and parses an
-- object is outside.
use ublkera.Base.{
  ℕ, Bool, true, false, Option, some, none, List, [], ◌∷◌, ◌++◌, ◌≡◌, refl, list_eq, if◌then◌else◌,
  Result, ok, err,
}
use ublkera.Fault.{CrashMode, drop_all, seeded}
use ublkera.Injector.{
  Shared, Command, show_status, set_policy, crash_now, thaw, Answer, status_is, policy_is, crashed,
  thawing, too_large, handle_ctl, eio,
}
use ublkera.Injector.Words.{
  cmd_word, status_word, set_word, crash_word, thaw_word, error_word, lie_word, hang_word,
  mode_word, drop_word, seeded_word, result_word, ok_word, eio_word,
}

-- The values that a request holds.
pub data Json : Type 0 where
  null : Json
  number : ℕ → Json
  text : List ℕ → Json

abbrev pub Object : Type 0
Object = List (List ℕ × Json)

-- `req[key]`
unfoldable pub field : Object → List ℕ → Json
field [] key = null
field ((k, v) ∷ o) key = if list_eq k key then v else field o key

-- `req[key] = value`
unfoldable pub put : List ℕ → Json → Object → Object
put key v [] = (key, v) ∷ []
put key v ((k, w) ∷ o) = if list_eq k key then (k, v) ∷ o else (k, w) ∷ put key v o

abbrev pub as_str : Json → Option (List ℕ)
as_str (text t) = some t
as_str (number n) = none
as_str null = none

abbrev pub as_u64 : Json → Option ℕ
as_u64 (text t) = none
as_u64 (number n) = some n
as_u64 null = none

pub data CtlError : Type 0 where
  bad_request unknown_cmd : CtlError
  unknown_mode unknown_result : List ℕ → CtlError

-- The mode of a crash.
unfoldable pub read_mode : Option (List ℕ) → Result CtlError CrashMode
read_mode none = ok seeded
read_mode (some mode) =
    if list_eq mode drop_word
    then ok drop_all
    else if list_eq mode seeded_word
    then ok seeded
    else err (unknown_mode mode)

-- The result of a thaw.
unfoldable pub read_result : Option (List ℕ) → Result CtlError (Option ℕ)
read_result none = ok none
read_result (some result) =
    if list_eq result ok_word
    then ok none
    else if list_eq result eio_word
    then ok (some eio)
    else err (unknown_result result)

abbrev pub crash_with : Result CtlError CrashMode → Result CtlError Command
crash_with (ok mode) = ok (crash_now mode)
crash_with (err e) = err e

abbrev pub thaw_for : Result CtlError (Option ℕ) → Result CtlError Command
thaw_for (ok result) = ok (thaw result)
thaw_for (err e) = err e

unfoldable pub read_cmd : Option (List ℕ) → Object → Result CtlError Command
unfolding field read_mode read_result
read_cmd none o = err unknown_cmd
read_cmd (some cmd) o =
    if list_eq cmd status_word
    then ok show_status
    else if list_eq cmd set_word
    then ok (
        set_policy (as_u64 (field o error_word)) (as_u64 (field o lie_word))
          (as_u64 (field o hang_word)))
    else if list_eq cmd crash_word
    then crash_with (read_mode (as_str (field o mode_word)))
    else if list_eq cmd thaw_word
    then thaw_for (read_result (as_str (field o result_word)))
    else err unknown_cmd

-- What `handle_ctl` makes of a request; `none` is a line that does not parse.
unfoldable pub read_command : Option Object → Result CtlError Command
unfolding read_cmd field
read_command none = err bad_request
read_command (some o) = read_cmd (as_str (field o cmd_word)) o

pub data Response : Type 0 where
  answered : Answer → Response
  refused : CtlError → Response

abbrev pub answer : Option (Shared × Answer) → Option (Shared × Response)
answer none = none
answer (some (s, a)) = some (s, answered a)

abbrev pub perform_command : Result CtlError Command → Shared → Option (Shared × Response)
perform_command (err e) s = some (s, refused e)
perform_command (ok c) s = answer (handle_ctl c s)

-- `handle_ctl` on a line.
unfoldable pub handle_line : Option Object → Shared → Option (Shared × Response)
unfolding read_command
handle_line line s = perform_command (read_command line) s

-- The member `ok` of a response.
unfoldable pub is_ok : Response → Bool
is_ok (answered too_large) = false
is_ok (answered (status_is policy stats bytes parked)) = true
is_ok (answered (policy_is policy)) = true
is_ok (answered (crashed report)) = true
is_ok (answered (thawing parked)) = true
is_ok (refused e) = false

-- The inner loop of `control_loop`: the lines of a connection, each with whether its response can be
-- written; the first that cannot ends the loop.
unfoldable pub serve_lines :
    List (Option Object × Bool) → Shared → List Response → Option (Shared × List Response)
unfolding handle_line
serve_lines [] s sent = some (s, sent)
serve_lines ((line, written) ∷ rest) s sent = elim (handle_line line s) [
  | none ↦ none
  | some (s', r) ↦ elim written [
    | false ↦ some (s', sent)
    | true ↦ serve_lines rest s' (sent ++ r ∷ [])
  ]
]

-- The commands of `main` that talk to the control socket.
pub data Client : Type 0 where
  status_cmd : Client
  set_cmd : (error_pm flush_lie_pm hang_pm : Option ℕ) → Client
  crash_cmd : (mode : List ℕ) → Client
  thaw_cmd : (result : List ℕ) → Client

abbrev pub maybe_number : Option ℕ → Json
maybe_number none = null
maybe_number (some n) = number n

-- The request that `main` sends for a command.
unfoldable pub client_object : Client → Object
client_object status_cmd = (cmd_word, text status_word) ∷ []
client_object (set_cmd e f h) =
    (cmd_word, text set_word)
    ∷ (error_word, maybe_number e)
    ∷ (lie_word, maybe_number f)
    ∷ (hang_word, maybe_number h)
    ∷ []
client_object (crash_cmd mode) = (cmd_word, text crash_word) ∷ (mode_word, text mode) ∷ []
client_object (thaw_cmd result) = (cmd_word, text thaw_word) ∷ (result_word, text result) ∷ []

-- `request`, once there is a response: whether it succeeds.
unfoldable pub request : Response → Bool
unfolding is_ok
request r = is_ok r

-- What a command means.
abbrev pub Means : Client → Result CtlError Command → Type 0
Means status_cmd r = r ≡ ok show_status
Means (set_cmd e f h) r = r ≡ ok (set_policy e f h)
Means (crash_cmd mode) r = r ≡ crash_with (read_mode (some mode))
Means (thaw_cmd result) r = r ≡ thaw_for (read_result (some result))

as_u64-maybe_number : (n : Option ℕ) → as_u64 (maybe_number n) ≡ n
as_u64-maybe_number none = refl
as_u64-maybe_number (some n) = refl

-- Each command of the command line arrives at the server as it is meant: a status, a set with the
-- numbers that were given and no others, a crash or a thaw with the mode or the result given.
pub read_command-client : (c : Client) → Means c (read_command (some (client_object c)))
unfolding read_command read_cmd field client_object
read_command-client status_cmd = refl
read_command-client (set_cmd e f h) =
    rw (as_u64-maybe_number e, as_u64-maybe_number f, as_u64-maybe_number h) refl
read_command-client (crash_cmd mode) = refl
read_command-client (thaw_cmd result) = refl
