-- ===== src/Manager/Entries.antt =====
-- DevManager::read_conf of server/dev_manager.cpp: the configuration files that it accepts, as
-- entries, and the devices that it makes of them.

pub mod Accepted
pub mod Reading
use device.Base.{
  ℕ, ◌≡◌, ◌≢◌, ◌↔◌, arith, refl, newline, false, Option, none, some, List, [], ◌∷◌, All, Bytes, beq,
  if◌then◌else◌, length,
}
use device.Device.{Device, new_device}
use device.Manager.{Libs, ConfLine, words}
use device.Manager.Conf.{strcspn}
use device.Map.{Map, bytes_key, insert}

-- A device of the file: its name, its driver, and the options, each a name and a value.
pub record Entry : Type 0 where
  pub name : Bytes
  pub driver : Bytes
  pub options : List (Bytes × Bytes)

unfoldable pub option_words : List (Bytes × Bytes) → List Bytes
option_words [] = []
option_words ((k, v) ∷ os) = (b'-' ∷ k) ∷ v ∷ option_words os

-- The words of its line.
abbrev pub entry_words : Entry → List Bytes
entry_words e = e.name ∷ e.driver ∷ option_words e.options

-- Neither a blank, a newline, a tab, a slash, a backslash, nor the zero byte.
pub record IsAllowed (c : ℕ) : Type 0 where
  pub no_blank : c ≢ b' '
  pub no_newline : c ≢ newline
  pub no_tab : c ≢ 9
  pub no_slash : c ≢ b'/'
  pub no_backslash : c ≢ b'\\'
  pub no_zero : c ≢ 0

-- strcspn comes to the end of a text exactly if each of its bytes is allowed.
pub strcspn-IsAllowed : (s : Bytes) → (strcspn s ≡ length s) ↔ All IsAllowed s
unfolding strcspn
strcspn-IsAllowed s = (there s, back s)
  where
    there : (s : Bytes) → strcspn s ≡ length s → All IsAllowed s
    there [] h = tt
    there (c ∷ s) h = (
      record {
        no_blank = λ e. ground arith;
        no_newline = λ e. ground arith;
        no_tab = λ e. ground arith;
        no_slash = λ e. ground arith;
        no_backslash = λ e. ground arith;
        no_zero = λ e. ground arith;
      },
      there s (ground arith),
    )

    back : (s : Bytes) → All IsAllowed s → strcspn s ≡ length s
    back [] a = refl
    back (c ∷ s) (a, rest) = ground (
      arith,
      back s rest,
      a.no_blank,
      a.no_newline,
      a.no_tab,
      a.no_slash,
      a.no_backslash,
      a.no_zero,
    )

-- The name is not empty and its bytes are allowed; each option has a name.
pub record IsEntry (e : Entry) : Type 0 where
  pub nonempty : e.name ≢ []
  pub valid : All IsAllowed e.name
  pub named : All (λ o. o.0 ≢ []) e.options

-- The lines are those of the entries, up to the first line without words, behind which anything may
-- stand.
unfoldable pub AreLines : List Entry → List ConfLine → Type 0
AreLines [] [] = Unit
AreLines [] (l ∷ ls) = l.text ≡ words []
AreLines (e ∷ es) [] = ⊥
AreLines (e ∷ es) (l ∷ ls) = (l.text ≡ words (entry_words e)) × AreLines es ls

-- No entry has the name.
abbrev pub Without : Bytes → List Entry → Type 0
Without n = All (λ e. beq e.name n ≡ false)

unfoldable pub Differ : List Entry → Type 0
Differ [] = Unit
Differ (e ∷ es) = Without e.name es × Differ es

pub record AreEntries (es : List Entry) (ls : List ConfLine) : Type 0 where
  pub lines : AreLines es ls
  pub each : All IsEntry es
  pub differ : Differ es

-- The file can be opened, and its lines are those of some entries.
abbrev pub HasEntries : Option (List ConfLine) → Type 0
HasEntries none = ⊥
HasEntries (some ls) = (es : List Entry) × AreEntries es ls

module _ {Opt World : Type 0} (libs : Libs Opt World) where
  unfoldable pub options_put : List (Bytes × Bytes) → Opt → Opt
  options_put [] o = o
  options_put ((k, v) ∷ os) o = options_put os (libs.opt_put k v o)

module _ {Opt Drv World : Type 0} (libs : Libs Opt World) where
  -- The device of an entry, which nobody uses.
  unfoldable pub entry_device : Entry → Device Opt Drv
  entry_device e = new_device e.name e.driver (options_put libs e.options libs.opt_empty)

  -- The device of that name.
  unfoldable pub find_entry : Bytes → List Entry → Option (Device Opt Drv)
  find_entry n [] = none
  find_entry n (e ∷ es) = if beq e.name n then some (entry_device e) else find_entry n es

  unfoldable pub insert_all : List Entry → Map Bytes (Device Opt Drv) → Map Bytes (Device Opt Drv)
  insert_all [] ds = ds
  insert_all (e ∷ es) ds = insert_all es (insert e.name (entry_device e) ds)
