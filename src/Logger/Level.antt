-- ===== src/Logger/Level.antt =====
-- Levels with their names and letters, channels, and the line that a message becomes. `print_int` is
-- a parameter: what the standard library's streams write for an int.
use siamese.Prelude.{ℕ, List, [], ◌∷◌, ◌++◌, Bool, leb, if◌then◌else◌}
use Prim.Native.Char.{code}
use Prim.Native.String.{String}

-- The codes of a text in ASCII.
abbrev pub codes : String → List ℕ
codes String.[] = []
codes (String.◌∷◌ c s) = code c ∷ codes s

-- The enumeration Level, less its Count.
pub data Level : Type 0 where
  trace : Level
  debug : Level
  info : Level
  warning : Level
  error : Level
  silent : Level
  off : Level

-- The number that stands for a level.
abbrev pub level_number : Level → ℕ
level_number trace = 0
level_number debug = 1
level_number info = 2
level_number warning = 3
level_number error = 4
level_number silent = 5
level_number off = 6

unfoldable pub level_to_string : Level → List ℕ
level_to_string trace = codes "Trace"
level_to_string debug = codes "Debug"
level_to_string info = codes "Info"
level_to_string warning = codes "Warning"
level_to_string error = codes "Error"
level_to_string silent = codes "Silent"
level_to_string off = codes "Off"

unfoldable pub level_to_char : Level → ℕ
level_to_char trace = b'T'
level_to_char debug = b'D'
level_to_char info = b'I'
level_to_char warning = b'W'
level_to_char error = b'E'
level_to_char silent = b'S'
level_to_char off = b'O'

pub record QueuedMessage : Type 0 where
  pub log_level : Level
  pub channel_name : List ℕ
  pub message : List ℕ

-- What OutputWorker::Log writes for a message.
unfoldable pub log_line : QueuedMessage → List ℕ
log_line m =
    b'{'
    ∷ level_to_char m.log_level
    ∷ b'-'
    ∷ (m.channel_name ++ (codes "} " ++ (m.message ++ 10 ∷ [])))

-- The message that tells of an overrun, and the last one.
unfoldable pub overrun_message : (ℕ → List ℕ) → ℕ → QueuedMessage
overrun_message print_int overrun = record {
  log_level = error;
  channel_name = codes "Logger";
  message = codes "Queue overrun. Lost " ++ (print_int overrun ++ codes " log messages");
}

unfoldable pub terminating_message : QueuedMessage
terminating_message = record {
  log_level = info;
  channel_name = codes "Logger";
  message = codes "Terminating";
}

pub record Channel : Type 0 where
  pub channel_name : List ℕ
  pub channel_min_level : Level
  pub prefix : List ℕ

unfoldable pub should_log : Channel → Level → Bool
should_log c level = leb (level_number c.channel_min_level) (level_number level)

-- An argument of a log call: a bool, or what a stream writes for it.
pub data Arg : Type 0 where
  text : List ℕ → Arg
  boolean : Bool → Arg

unfoldable pub log_stringize : Arg → List ℕ
log_stringize (text t) = t
log_stringize (boolean b) = if b then codes "true" else codes "false"

unfoldable pub write_log_buffer : List Arg → List ℕ
write_log_buffer [] = []
write_log_buffer (arg ∷ args) = log_stringize arg ++ write_log_buffer args

-- writeLogLine up to its call of OutputWorker::Write: the message that it passes on.
unfoldable pub write_log_line : Channel → Level → List Arg → QueuedMessage
write_log_line c level args = record {
  log_level = level;
  channel_name = c.channel_name;
  message = write_log_buffer (text c.prefix ∷ args);
}

-- Channel::Log: the messages that it passes on.
unfoldable pub channel_log : Channel → Level → List Arg → List QueuedMessage
channel_log c level args = if should_log c level then write_log_line c level args ∷ [] else []

unfoldable pub log_error : Channel → List Arg → List QueuedMessage
log_error c args = channel_log c error args

unfoldable pub log_warning : Channel → List Arg → List QueuedMessage
log_warning c args = channel_log c warning args

unfoldable pub log_info : Channel → List Arg → List QueuedMessage
log_info c args = channel_log c info args

unfoldable pub log_debug : Channel → List Arg → List QueuedMessage
log_debug c args = channel_log c debug args
