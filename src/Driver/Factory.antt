-- ===== src/Driver/Factory.antt =====
-- server/drv.h and server/drv.cpp: Driver::create. The constructors of the drivers and their `ask`
-- are an argument, so that the manager's `Drivers` is what this makes of them.
use device.Base.{
  ◌≢◌, Bool, ◌&&◌, Option, none, some, ◌++◌, if◌then◌else◌, inl, inr, Option-cases, Bytes, text,
  beq, Result, err, crash,
}
use device.Device.{Drivers}
use device.Device.Safety.{NoCrash}

-- The classes of drivers.
pub data Kind : Type 0 where
  test spp usbtmc serial serial_asm340 serial_l300 serial_vs_ld serial_tenma_ps serial_et : Kind
  serial_simple net net_gpib_prologix serial_hm310t serial_jds6600 gpib vxi : Kind

-- Whether USE_GPIB and USE_VXI are defined.
pub record Build : Type 0 where
  pub use_gpib : Bool
  pub use_vxi : Bool

unfoldable pub kind_of : Build → Bytes → Option Kind
kind_of build name =
    if beq name (text "test")
    then some test
    else if beq name (text "spp")
    then some spp
    else if beq name (text "usbtmc")
    then some usbtmc
    else if beq name (text "serial")
    then some serial
    else if beq name (text "serial_asm340")
    then some serial_asm340
    else if beq name (text "serial_l300")
    then some serial_l300
    else if beq name (text "serial_vs_ld")
    then some serial_vs_ld
    else if beq name (text "serial_tenma_ps")
    then some serial_tenma_ps
    else if beq name (text "serial_et")
    then some serial_et
    else if beq name (text "serial_simple")
    then some serial_simple
    else if beq name (text "net")
    then some net
    else if beq name (text "net_gpib_prologix")
    then some net_gpib_prologix
    else if beq name (text "serial_hm310t")
    then some serial_hm310t
    else if beq name (text "serial_jds6600")
    then some serial_jds6600
    else if build.use_gpib && beq name (text "gpib")
    then some gpib
    else if build.use_vxi && beq name (text "vxi")
    then some vxi
    else none

-- The constructors, and the method ask of the objects.
pub record Classes (Opt Drv World : Type 0) : Type 0 where
  pub construct : Kind → Opt → World → Result Drv × World
  pub ask : Drv → Bytes → World → Result Bytes × (Drv × World)
  pub destroy : Drv → World → World

module _ {Opt Drv World : Type 0} (build : Build) (classes : Classes Opt Drv World) where
  unfoldable pub create : Bytes → Opt → World → Result Drv × World
  create name args w = elim (kind_of build name) [
    | none ↦ (err (text "unknown driver: " ++ name), w)
    | some k ↦ classes.construct k args w
  ]

  abbrev pub factory : Drivers Opt Drv World
  factory = record { create = create; ask = classes.ask; destroy = classes.destroy }

  -- The factory adds no undefined behaviour to that of the classes, whatever names the configuration
  -- gives.
  pub factory-NoCrash :
      ((k : Kind) (args : Opt) (w : World) → (classes.construct k args w).0 ≢ crash)
      → ((h : Drv) (msg : Bytes) (w : World) → (classes.ask h msg w).0 ≢ crash)
      → NoCrash factory
  unfolding create
  factory-NoCrash constructs asks = record { create = created; ask = asks }
    where
      created : (name : Bytes) (args : Opt) (w : World) → (create name args w).0 ≢ crash
      created name args w = elim (Option-cases (kind_of build name)) [
        | inl e ↦ rw (e, create) (λ x. cc)
        | inr (k, e) ↦ rw (e, create) (constructs k args w)
      ]
