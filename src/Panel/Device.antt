-- ===== src/Panel/Device.antt =====
-- The state of the card as the control panel shows it: panel/src/device.rs. What Plug and Play and the registry
-- answer is an argument: texts as the UTF-16 units that were read, values as their bytes. Of a text on
-- the window its form and arguments are kept; the length of a stream is its count of transfers.
pub mod Counters
use ak1_driver.Prelude.{
  ℕ, zero, suc, ◌+◌, Bool, true, false, List, [], ◌∷◌, Option, none, some, map, length, as_chunks,
  get_or, leb, ◌-◌, ◌&&◌, ◌>>=◌, ◌==◌, if◌then◌else◌,
}
use ak1_driver.Prelude.Text.{Text, codes, starts_with, eq_ignore_case}
use ak1_driver.Kernel.Handlers.{bytes_word}
use ak1_driver.Host.Duplex.Search.{split_from}

abbrev pub instance_prefix : Text
instance_prefix = codes "USB\\VID_17CC&PID_0815\\"

abbrev pub kernel_service : Text
kernel_service = codes "ak1acx"

pub data Connection : Type 0 where
  missing : Connection
  working : (service : Text) → Connection
  problem : (code : ℕ) → Connection

pub record Status : Type 0 where
  pub connection : Connection
  pub driver_version : Option Text
  pub firmware : Option ℕ
  pub last_stream : Option (List ℕ)

-- The answers; a value of the hardware key is `none` if it cannot be read.
pub record Answers : Type 0 where
  pub listed : Bool
  pub ids : Option (List ℕ)
  pub located : Bool
  pub node_status : Option (Bool × ℕ)
  pub service : Option (List ℕ)
  pub version : Option (List ℕ)
  pub key : Bool
  pub firmware_value : Option (List ℕ)
  pub stream_value : Option (List ℕ)

-- `to_ascii_uppercase` of a character.
unfoldable pub upper : ℕ → ℕ
upper c = if leb 97 c && leb c 122 then c - 32 else c

unfoldable pub find_instance : List Text → Option Text
unfolding upper starts_with
find_instance [] = none
find_instance (id ∷ ids) =
    if starts_with (map upper id) instance_prefix then some id else find_instance ids

-- Whether the card's device node is found.
unfoldable pub present_node : Answers → Bool
unfolding find_instance split_from
present_node answers = elim answers.ids [
  | none ↦ false
  | some ids ↦ elim (find_instance (split_from [] ids)) [
    | none ↦ false
    | some id ↦ answers.listed && answers.located
  ]
]

-- Up to the first 0.
unfoldable pub string_property : Option (List ℕ) → Option Text
unfolding split_from
string_property none = none
string_property (some units) = some (get_or (split_from [] units) 0 [])

unfoldable pub read_value : (size : ℕ) → Option (List ℕ) → Option (List ℕ)
read_value size none = none
read_value size (some bytes) = if length bytes == size then some bytes else none

abbrev or_empty : Option Text → Text
or_empty none = []
or_empty (some text) = text

unfoldable pub connection_of : Answers → Connection
unfolding string_property
connection_of answers = elim answers.node_status [
  | none ↦ working (or_empty (string_property answers.service))
  | some (has_problem, code) ↦
      if has_problem then problem code else working (or_empty (string_property answers.service))
]

abbrev if_key : {A : Type 0} → Bool → Option A → Option A
if_key key value = if key then value else none

unfoldable pub words : List ℕ → List ℕ
words bytes = map bytes_word (as_chunks 4 bytes)

unfoldable pub query : Answers → Status
unfolding present_node connection_of string_property read_value words
query answers =
    if present_node answers
    then record {
      connection = connection_of answers;
      driver_version = string_property answers.version;
      firmware =
          if_key answers.key (read_value 4 answers.firmware_value) >>= λ b. some (bytes_word b);
      last_stream = if_key answers.key (read_value 36 answers.stream_value) >>= λ b. some (words b);
    }
    else record { connection = missing; driver_version = none; firmware = none; last_stream = none }

pub data Summary : Type 0 where
  not_connected : Summary
  connected_and_working : Summary
  other_driver : (service : Text) → Summary
  stopped : (code : ℕ) → Summary

unfoldable pub summary : Status → Summary
unfolding eq_ignore_case
summary status = elim status.connection [
  | missing ↦ not_connected
  | working service ↦
      if eq_ignore_case service kernel_service then connected_and_working else other_driver service
  | problem code ↦ stopped code
]

-- The driver's version, with that of the firmware if it is known.
unfoldable pub versions : Status → Text × Option ℕ
versions status = elim status.driver_version [
  | none ↦ (codes "unknown", status.firmware)
  | some version ↦ (version, status.firmware)
]

pub data LastStream : Type 0 where
  no_stream : LastStream
  streamed : (transfers lost_packets check_errors overruns : ℕ) → LastStream

unfoldable pub last_stream : Status → LastStream
last_stream status = elim status.last_stream [
  | none ↦ no_stream
  | some counters ↦
      streamed (get_or counters 0 0) (get_or counters 8 0) (get_or counters 3 0)
        (get_or counters 7 0)
]
