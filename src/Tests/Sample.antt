-- ===== src/Tests/Sample.antt =====
-- The data of the tests: a driver that echoes, numbers that print as one byte, and a configuration of
-- two devices.
use device.Base.{ℕ, ◌+◌, refl, arith, some, List, [], ◌∷◌, Bytes, text, true, ok}
use device.Device.{Drivers, Device}
use device.Device.Safety.{NoCrash}
use device.Device.Invariant.{IsSound, Bounded}
use device.Manager.{Libs, ConfLine, words}
use device.Manager.Names.Distinct.{Injective}

abbrev pub Opt : Type 0
Opt = List (Bytes × Bytes)

-- It counts the devices that were opened, and each driver its own requests.
abbrev pub echo : Drivers Opt ℕ ℕ
echo = record {
  create = λ n o w. (ok 0, w + 1);
  ask = λ h m w. (ok m, (h + 1, w));
  destroy = λ h w. w;
}

pub echo_safe : NoCrash echo
echo_safe = record { create = λ n o w e. cc; ask = λ h m w e. cc }

abbrev pub conf : List ConfLine
conf =
    record {
      line = 1;
      text = words (text "gen" ∷ text "spp" ∷ text "-prog" ∷ text "graphene" ∷ []);
    }
    ∷ record { line = 2; text = words (text "psu" ∷ text "serial_hm310t" ∷ []) }
    ∷ record { line = 3; text = words [] }
    ∷ []

abbrev pub libs : Libs Opt ℕ
libs = record {
  show = λ n. n ∷ [];
  opt_empty = [];
  opt_put = λ k v o. (k, v) ∷ o;
  opt_entries = λ o. o;
  read_file = λ f w. (some conf, w);
  gettimeofday = λ w. ((w, 0), w + 1);
}

pub libs-Injective : Injective libs
libs-Injective a b e = cc

-- Connection 1 has the lock.
abbrev pub held : Device Opt ℕ
held = record {
  drv = some 0;
  users = (1, tt) ∷ [];
  locked = true;
  dev_name = text "gen";
  drv_name = text "spp";
  drv_args = [];
  log_bufs = (1, []) ∷ (2, []) ∷ [];
  max_log_size = 1024;
}

pub held-IsSound : IsSound held
held-IsSound = record {
  exclusive = λ e. refl;
  is_open = λ e. absurd (cc);
  bounded = unfold Bounded in (omega arith, (omega arith, tt));
}
