-- ===== src/Shell/Receiving.antt =====
-- The commands of src-tauri/src/lib.rs that start and cancel transfers, over `receive`,
-- `receive_selected` and the start of `spawn_receive` of core/src/receive.rs.
pub mod Below
mod Tests
use dropwire.Prelude.{ℕ, Option, none, some, List, [], ◌∷◌, ◌++◌, ◌⊎◌, inl, inr, Text, code_points}
use dropwire.Progress.{TransferId, Progress}
use dropwire.Paths.{join_path}
use dropwire.Endpoint.{CoreError, io, invalid_ticket, unreachable, not_found, other}
use dropwire.Transfers.{Engine, enter, cancel}
use dropwire.Receive.{Effect, recorded, asked, emitted, status_set, exported, Remote, spawn_receive}

-- What the calls take from outside: the parser of tickets, with the hash of one that parses, and of
-- transfer ids, with their printer; the id that is new; the text of an i/o error; and the
-- downloads folder of the user.
pub record Surroundings : Type 0 where
  pub parse_ticket : Text → Option Text
  pub parse_id : Text → Option TransferId
  pub show_id : TransferId → Text
  pub new_id : TransferId
  pub io_error : Text
  pub download_dir : Option Text

-- The folder that the user picked, or Downloads/Dropwire.
pub dest_or_default : Option Text → Option Text → Text
dest_or_default download_dir (some d) = d
dest_or_default none none = join_path (code_points ".") (code_points "Dropwire")
dest_or_default (some downloads) none = join_path downloads (code_points "Dropwire")

module _ (s : Surroundings) where
  open s use {parse_ticket, parse_id, show_id, new_id, io_error, download_dir}

  -- `CoreError`'s message.
  to_string : CoreError → Text
  to_string io = code_points "i/o error: " ++ io_error
  to_string (invalid_ticket message) = code_points "invalid ticket: " ++ message
  to_string (unreachable message) = code_points "can't reach the sender: " ++ message
  to_string (not_found message) = code_points "transfer not found: " ++ message
  to_string (other message) = message

  default_dest_dir : Text
  unfolding dest_or_default
  default_dest_dir = dest_or_default download_dir none

  -- What a call returns, what its task does, and the engine at the return.
  abbrev pub Begun : Type 0 → Type 0
  Begun E = (E ⊎ TransferId) × List Effect × Engine

  with_hash : Text → Text → Option (List ℕ) → Remote → Option Text → Engine → Begun CoreError
  with_hash ticket dest selected r none g = (inl (invalid_ticket ticket), [], g)
  with_hash ticket dest selected r (some hash) g = (
    inr new_id,
    spawn_receive new_id dest selected (record r { ticket = ticket; hash = hash }),
    enter new_id g,
  )

  -- `Core::spawn_receive`, with what its task meets.
  begin_receive : Text → Text → Option (List ℕ) → Remote → Engine → Begun CoreError
  unfolding with_hash
  begin_receive ticket dest selected r g = with_hash ticket dest selected r (parse_ticket ticket) g

  pub receive : Text → Text → Remote → Engine → Begun CoreError
  unfolding begin_receive
  receive ticket dest r g = begin_receive ticket dest none r g

  pub receive_selected : Text → Text → List ℕ → Remote → Engine → Begun CoreError
  unfolding begin_receive
  receive_selected ticket dest selected r g = begin_receive ticket dest (some selected) r g

  -- What a command returns.
  abbrev pub Answer : Type 0
  Answer = (Text ⊎ Text) × List Effect × Engine

  answer : Begun CoreError → Answer
  unfolding to_string
  answer (inl e, es, g) = (inl (to_string e), es, g)
  answer (inr id, es, g) = (inr (show_id id), es, g)

  pub start_receive : Text → Option Text → Remote → Engine → Answer
  unfolding answer receive
  start_receive ticket dest r g = answer (receive ticket (dest_or_default download_dir dest) r g)

  pub start_receive_selected : Text → Option Text → List ℕ → Remote → Engine → Answer
  unfolding answer receive_selected
  start_receive_selected ticket dest selected r g =
      answer (receive_selected ticket (dest_or_default download_dir dest) selected r g)

  with_id : Option TransferId → Engine → Option Text × Engine
  with_id none g = (some (code_points "invalid transfer id"), g)
  with_id (some id) g = (none, cancel id g)

  -- The error of the command, if any.
  cancel_transfer : Text → Engine → Option Text × Engine
  unfolding with_id
  cancel_transfer id g = with_id (parse_id id) g
