-- ===== src/Driver/Objects.antt =====
-- server/drv.h and server/drv.cpp: the objects behind a pointer to Driver, for the classes whose
-- objects name what they have open outside, or have it inside: the test driver, a program, a
-- socket, a handle of the GPIB library. The other classes are an argument.
use device.Base.{ℕ, Option, none, some, Bytes, Result, ok, err, crash}
use device.Driver.Factory
use device.Driver.Factory.{Kind, Classes}
use device.Driver.Gpib
use device.Driver.Gpib.{Ib, Gpib}
use device.Driver.Gpib.Open.{GpibOptions, new_gpib}
use device.Driver.Net
use device.Driver.Net.{Sockets, Net, NetOptions, new_net}
use device.Driver.Net.Prologix
use device.Driver.Net.Prologix.{Prologix, new_prologix}
use device.Driver.Spp
use device.Driver.Spp.{Pipe, Spp}
use device.Driver.Spp.Open.{Opened, new_spp}
use device.Driver.Test
use device.Driver.Test.{TestDriver, new_test}

pub data Object (Other : Type 0) : Type 0 where
  test_object : TestDriver → Object Other
  spp_object : Spp → Pipe → Object Other
  net_object : Net → Object Other
  prologix_object : Prologix → Object Other
  gpib_object : Gpib → Object Other
  other_object : Other → Object Other

-- What the constructors take: the options of the device as each class gets them, and the calls outside.
pub record Parts (Opt F Int Addr Other World : Type 0) : Type 0 where
  pub net_options : Opt → NetOptions F
  pub gpib_options : Opt → GpibOptions F Int
  pub sockets : Sockets Addr World
  pub ib : Ib Int World
  -- the version and the timeouts of an SPP program, and its start
  pub read_int : Bytes → Result (Option ℕ)
  pub open_default : F
  pub read_default : F
  pub close_default : F
  pub start : Bytes → World → Result Pipe × World
  pub others : Classes Opt Other World

module _ {Opt F Int Addr Other World : Type 0} (parts : Parts Opt F Int Addr Other World) where
  wrapped : {D : Type 0} → (D → Object Other) → Result D × World → Result (Object Other) × World
  wrapped wrap (ok d, w) = (ok (wrap d), w)
  wrapped wrap (err e, w) = (err e, w)
  wrapped wrap (crash, w) = (crash, w)

  wrapped_spp : Opened × World → Result (Object Other) × World
  wrapped_spp ((ok d, some p), w) = (ok (spp_object d p), w)
  -- new_spp builds no driver without its program
  wrapped_spp ((ok d, none), w) = (crash, w)
  wrapped_spp ((err e, p), w) = (err e, w)
  wrapped_spp ((crash, p), w) = (crash, w)

  -- new Driver_...(args)
  unfoldable pub construct : Kind → Opt → World → Result (Object Other) × World
  unfolding wrapped wrapped_spp
  construct Factory.test args w = (ok (test_object new_test), w)
  construct Factory.spp args w = wrapped_spp (
      new_spp parts.read_int (parts.net_options args).opts parts.open_default parts.read_default
        parts.close_default parts.start w)
  construct Factory.net args w =
      wrapped net_object (new_net (parts.net_options args) parts.sockets w)
  construct Factory.net_gpib_prologix args w =
      wrapped prologix_object (new_prologix (parts.net_options args) parts.sockets w)
  construct Factory.gpib args w =
      wrapped gpib_object (new_gpib (parts.gpib_options args) parts.ib w)
  construct k args w = wrapped other_object (parts.others.construct k args w)

  -- The method ask of the class of the object.
  unfoldable pub ask_object : Object Other → Bytes → World → Result Bytes × (Object Other × World)
  ask_object (test_object d) msg w = let (r, d') = Test.ask msg d in (r, (test_object d', w))
  ask_object (spp_object d p) msg w = let (r, p') = Spp.ask d msg p in (r, (spp_object d p', w))
  ask_object (net_object d) msg w =
      let (r, w') = Net.ask parts.sockets d msg w in (r, (net_object d, w'))
  ask_object (prologix_object d) msg w =
      let (r, w') = Prologix.ask parts.sockets d msg w in (r, (prologix_object d, w'))
  ask_object (gpib_object d) msg w =
      let (r, w') = Gpib.ask parts.ib d msg w in (r, (gpib_object d, w'))
  ask_object (other_object d) msg w =
      let (r, (d', w')) = parts.others.ask d msg w in (r, (other_object d', w'))

  -- The destructor of its class. The program of Driver_spp ends with its pipe.
  unfoldable pub destroy_object : Object Other → World → World
  destroy_object (test_object d) w = w
  destroy_object (spp_object d p) w = w
  destroy_object (net_object d) w = Net.delete_net parts.sockets d w
  destroy_object (prologix_object d) w = Net.delete_net parts.sockets d.base w
  destroy_object (gpib_object d) w = Gpib.delete_gpib parts.ib d w
  destroy_object (other_object d) w = parts.others.destroy d w

  abbrev pub objects : Classes Opt (Object Other) World
  objects = record { construct = construct; ask = ask_object; destroy = destroy_object }
