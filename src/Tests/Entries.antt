-- ===== src/Tests/Entries.antt =====
-- server/dev_manager.cpp: the theorems on configuration files, on the one of the other tests.
use device.Base.{ℕ, ◌≡◌, ◌↔◌, refl, some, List, [], ◌∷◌, text, ok, beq}
use device.Manager.{Manager}
use device.Manager.Conf.{read_conf, strcspn}
use device.Manager.Entries.{
  strcspn-IsAllowed, Entry, option_words, AreLines, Differ, AreEntries, HasEntries, find_entry,
}
use device.Manager.Entries.Accepted.{read_conf_accepts}
use device.Manager.Entries.Reading.{read_conf-entries}
use device.Map.{lookup, bytes_key}
use device.Tests.Sample.{Opt, libs, conf}

abbrev entries : List Entry
entries =
    record { name = text "gen"; driver = text "spp"; options = (text "prog", text "graphene") ∷ [] }
    ∷ record { name = text "psu"; driver = text "serial_hm310t"; options = [] }
    ∷ []

are_entries : AreEntries entries conf
unfolding AreLines Differ option_words strcspn beq text
are_entries = record {
  lines = (refl, (refl, refl));
  each = (
    record {
      nonempty = λ e. cc;
      valid = (strcspn-IsAllowed (text "gen")).0 refl;
      named = (λ e. cc, tt);
    },
    (
      record { nonempty = λ e. cc; valid = (strcspn-IsAllowed (text "psu")).0 refl; named = tt },
      tt,
    ),
  );
  differ = ((refl, tt), (tt, tt));
}

abbrev empty : Manager Opt ℕ
empty = record { devices = []; devfile = text "devices.cfg"; conn_names = [] }

read_conf_accepts_example : ((read_conf libs (empty, 0)).0 ≡ ok tt) ↔ HasEntries (some conf)
read_conf_accepts_example = read_conf_accepts libs empty 0

read_conf-entries_example :
    (read_conf libs (empty, 0)
      ≡ (ok tt, (record empty { devices = (read_conf libs (empty, 0)).1.0.devices }, 0)))
    × (lookup (text "gen") (read_conf libs (empty, 0)).1.0.devices
        ≡ find_entry libs (text "gen") entries)
read_conf-entries_example =
    read_conf-entries libs empty 0 0 conf entries refl are_entries (text "gen")
