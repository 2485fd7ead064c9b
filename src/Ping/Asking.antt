-- ===== src/Ping/Asking.antt =====
-- server/device_ping.cpp: what the program makes of its parameters.
use device.Base.{◌≡◌, ◌≢◌, false, List, [], ◌∷◌, Bytes, text, beq, ok}
use device.Device.{Drivers}
use device.Map.{number_key}
use device.Ping.{PingLibs}

-- The words for some options, each a name, a text, and what the text is without its quotes.
unfoldable pub pair_words : List (Bytes × (Bytes × Bytes)) → List Bytes
pair_words [] = []
pair_words ((name, (v, u)) ∷ ps) = (b'-' ∷ name) ∷ v ∷ pair_words ps

module _ {Opt Drv World : Type 0} (libs : PingLibs Opt World)
    (drivers : Drivers Opt Drv World) where
  unfoldable pub pairs_put : List (Bytes × (Bytes × Bytes)) → Opt → Opt
  pairs_put [] o = o
  pairs_put ((name, (v, u)) ∷ ps) o = pairs_put ps (libs.opt_put name u o)

  -- An option has a name, which is not a dash, and the quotes of its text match.
  abbrev pub IsPair : Bytes × (Bytes × Bytes) → Type 0
  IsPair (name, (v, u)) =
      (name ≢ []) × (beq (b'-' ∷ name) (text "--") ≡ false) × (libs.unquote_words v ≡ ok u)
