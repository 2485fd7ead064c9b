-- ===== src/Driver/Hm310t/New.antt =====
-- server/drv_serial_hm310t.h: the constructor of the power supply, and its read. Driver_serial with the
-- options of Driver/Presets is an argument.
use device.Base.{◌≡◌, refl, ℕ, Bytes, text, Result, ok, err, crash, Exec, continue, ◌>>◌}
use device.Driver.Hm310t.{Supply, Values, func3, on_port, set_decimals, read_dpt}
use device.Driver.Modbus.{Port, modbus_func3}

module _ {World : Type 0} (port : Port World) (vals : Values) (errpref idn : Bytes) where
  built : Result (Unit {0}) × (Supply × World) → Result Supply × World
  built (ok a, (d, w)) = (ok d, w)
  built (err e, (d, w)) = (err e, w)
  built (crash, (d, w)) = (crash, w)

  -- `fresh` is what the precisions hold before read_dpt, `open_serial` is
  -- Driver_serial(add_opts(opts)).
  unfoldable pub new_hm310t : Supply → Exec World (Unit {0}) → Exec World Supply
  unfolding built
  new_hm310t fresh open_serial = do
    open_serial
    λ w. built (read_dpt port vals errpref idn (fresh, w))

  -- read() always throws.
  unfoldable pub read : Exec World Bytes
  read w = (err (text "serial_hm310t driver: read() is not supported, use ask()"), w)

  read_dpt-built :
      (fresh fresh' : Supply) (w : World)
      → built (read_dpt port vals errpref idn (fresh, w))
        ≡ built (read_dpt port vals errpref idn (fresh', w))
  unfolding built read_dpt func3 set_decimals on_port
  read_dpt-built fresh fresh' w = go (modbus_func3 port errpref 0x05 w)
    where
      decimals_of : Supply → Result ℕ × World → Result Supply × World
      decimals_of d (r, w') = built (continue (r, (d, w')) (set_decimals port vals errpref idn))

      go : (r : Result ℕ × World) → decimals_of fresh r ≡ decimals_of fresh' r
      go (ok v, w') = refl
      go (err e, w') = refl
      go (crash, w') = refl

  opened-built :
      (fresh fresh' : Supply) (r : Result (Unit {0}) × World)
      → continue r (λ a w. built (read_dpt port vals errpref idn (fresh, w)))
        ≡ continue r (λ a w. built (read_dpt port vals errpref idn (fresh', w)))
  opened-built fresh fresh' (ok a, w) = read_dpt-built fresh fresh' w
  opened-built fresh fresh' (err e, w) = refl
  opened-built fresh fresh' (crash, w) = refl

  -- The precisions that a new device has do not depend on what was in its fields before.
  fresh_overwritten :
      (fresh fresh' : Supply) (open_serial : Exec World (Unit {0})) (w : World)
      → new_hm310t fresh open_serial w ≡ new_hm310t fresh' open_serial w
  unfolding new_hm310t
  fresh_overwritten fresh fresh' open_serial w = opened-built fresh fresh' (open_serial w)
