-- ===== src/Manager.antt =====
-- server/dev_manager.h and server/dev_manager.cpp: the devices of the configuration file and the
-- names of the connections, and the requests on them. What the program takes from other libraries
-- is the argument `libs`; the drivers are the argument `drivers`.
pub mod Url
pub mod Actions
pub mod Conf
pub mod Names
pub mod Run
pub mod Soundness
pub mod Addressing
pub mod Reload
pub mod Failure
pub mod Configured
pub mod Entries
pub mod Serving
pub mod Safety
pub mod Kept
pub mod Listing
pub mod Naming
pub mod Access
pub mod Threads
pub mod Requests
use device.Base.{ℕ, Option, List, Bytes}
use device.Map.{Map}
use device.Device.{Device}

-- What one call of read_words returns or throws.
pub data Words : Type 0 where
  words : List Bytes → Words
  failed : Bytes → Words

-- One call of read_words on the configuration file, with the number of the line where it stopped.
-- After the last one the file has ended.
pub record ConfLine : Type 0 where
  pub line : ℕ
  pub text : Words

-- The parts of other libraries that the manager calls.
pub record Libs (Opt World : Type 0) : Type 0 where
  -- type_to_str and << of an unsigned number
  pub show : ℕ → Bytes
  -- Opt is a map of text to text; `opt_entries` is what a loop over it visits.
  pub opt_empty : Opt
  pub opt_put : Bytes → Bytes → Opt → Opt
  pub opt_entries : Opt → List (Bytes × Bytes)
  -- std::ifstream and read_words; `none` if the file cannot be opened
  pub read_file : Bytes → World → Option (List ConfLine) × World
  -- gettimeofday: seconds and microseconds
  pub gettimeofday : World → (ℕ × ℕ) × World

pub record Manager (Opt Drv : Type 0) : Type 0 where
  pub devices : Map Bytes (Device Opt Drv)
  pub devfile : Bytes
  pub conn_names : Map ℕ Bytes
