-- ===== src/Tests/Crowds.antt =====
-- server/dev_manager.cpp: the theorems on requests on several devices, reloads and closed
-- connections, with a map of two devices of which connection 1 has locked one.
use device.Base.{
  ℕ, ◌≡◌, refl, arith, some, List, [], ◌∷◌, ◌++◌, text, true, ok, crash, beq, blt, Bytes,
}
use device.Device.{Device, new_device, copy_device}
use device.Manager.Conf.{read_lines, read_device, read_pairs, strcspn, add_device, copy_all}
use device.Manager.Access.Traces.{keeps_lock}
use device.Manager.Actions.{asks, uses, unlocks}
use device.Manager.Requests.{
  out, Store, Event, requests, leaves, reads, goes, stepped, interleave, step, first_step,
  with_device, placed, is_out,
}
use device.Manager.Requests.Dangling.{interleave_finds}
use device.Manager.Requests.Held.{IsHeldIn, keeps, side}
use device.Manager.Requests.Locking.{interleave-IsHeldIn}
use device.Manager.Requests.Sweeps.{sweep_replaced}
use device.Manager.Threads.{entering, done, begin, move}
use device.Manager.Threads.Exclusive.Moves.{HeldBy}
use device.Map.{Map, has, insert, lookup, number_key, bytes_key}
use device.Tests.Sample.{Opt, libs, echo, held, conf}

abbrev shop : Store Opt ℕ ℕ
shop = record {
  devices = (text "gen", held) ∷ (text "psu", new_device (text "psu") (text "test") []) ∷ [];
  devfile = text "devices.cfg";
  holders = [];
  reloads = 0;
  world = 0;
  pos = λ c. out (ok []);
}

-- Connections 2 and 3 try the two devices, and 3 is closed.
abbrev tries : List Event
tries =
    requests 2 uses [] (text "gen") []
    ∷ requests 3 uses [] (text "psu") []
    ∷ goes 3
    ∷ goes 2
    ∷ goes 2
    ∷ requests 1 asks [] (text "gen") (text "ping")
    ∷ requests 2 unlocks [] (text "gen") []
    ∷ goes 3
    ∷ goes 3
    ∷ leaves 3
    ∷ []

interleave-IsHeldIn_example : IsHeldIn libs echo 1 (text "gen") (interleave libs echo tries shop)
unfolding HeldBy side keeps keeps_lock lookup beq text
interleave-IsHeldIn_example =
    interleave-IsHeldIn libs echo 1 (text "gen") tries shop
      (record { held = (held, refl, (refl, refl)); sides = λ j. refl })
      (refl, (refl, (refl, (refl, (refl, (refl, (refl, (refl, (refl, (refl, tt))))))))))

-- Connection 2 is in a call on the device psu.
abbrev visit : List Event
visit = requests 2 uses [] (text "psu") [] ∷ []

interleave_finds_example :
    (has 2 (interleave libs echo visit shop).holders ≡ true)
    × ((d : Device Opt ℕ) × (lookup (text "psu") (interleave libs echo visit shop).devices ≡ some d)
        × (interleave libs echo (visit ++ goes 2 ∷ []) shop
            ≡ stepped libs echo 2
                (text "psu")
                (move libs echo 2 (entering done) (d, (interleave libs echo visit shop).world))
                (interleave libs echo visit shop)))
unfolding interleave step first_step with_device stepped begin placed is_out lookup beq text
interleave_finds_example =
    interleave_finds libs echo visit shop 2 (text "psu") (entering done) (λ j. refl) refl

-- The devices of the configuration, as read_conf reads them.
abbrev configured : Map Bytes (Device Opt ℕ)
configured =
    (
      text "gen",
      copy_device (new_device (text "gen") (text "spp") ((text "prog", text "graphene") ∷ [])),
    )
    ∷ (text "psu", copy_device (new_device (text "psu") (text "serial_hm310t") []))
    ∷ []

-- Connection 2 is closed while connection 3 reloads the configuration.
sweep_replaced_example :
    ((interleave libs echo (leaves 2 ∷ reads 3 ∷ goes 3 ∷ []) shop).devices ≡ copy_all configured)
    × ((interleave libs echo (leaves 2 ∷ reads 3 ∷ goes 3 ∷ []) shop).pos 3 ≡ out (ok []))
    × ((interleave libs echo (leaves 2 ∷ reads 3 ∷ goes 3 ∷ goes 2 ∷ []) shop).pos 2 ≡ out crash)
unfolding read_lines read_device read_pairs strcspn add_device has insert is_out beq text blt
sweep_replaced_example =
    sweep_replaced libs echo 2 3 (text "gen") held
      ((text "psu", new_device (text "psu") (text "test") []) ∷ []) configured conf 0 shop
      (ground arith) refl refl refl refl refl refl
