-- ===== src/Tests/Buses.antt =====
-- server/drv_usbtmc.cpp, server/drv_net.cpp and server/drv_net_gpib_prologix.h: the theorems on a
-- device that gives its answer in two pieces, on three addresses of which the last takes
-- connections, and on a GPIB device (server/drv_gpib.cpp), and the options of server/drv_vxi.cpp.
use device.Base.{
  inr, beq_iff, subst, ◌≡◌, List, beq, ap, ℕ, ◌+◌, ◌≡◌, refl, true, false, none, [], ◌∷◌, ◌++◌,
  Bytes, text, newline, ok, err, if◌then◌else◌, ◌==◌,
}
use device.Driver.Gpib.{Ib, EosBits}
use device.Driver.Gpib.Closed.{Settled, new_gpib-Settled}
use device.Driver.Gpib.Handles.{HandleLaws}
use device.Driver.Gpib.Open.{GpibOptions, new_gpib}
use device.Driver.Net.{Sockets, NetOptions, ready}
use device.Driver.Setup.{Options}
use device.Driver.Usbtmc.{Usb, Usbtmc}
use device.Driver.Utils.{always}
use device.Driver.Vxi.{VxiCalls, VxiDoubles, new_vxi}
use device.Driver.Vxi.Refused.{known, new_vxi_refused}

-- The first piece is "ab", with more to come, and all others are "c" and a newline.
abbrev usb : Usb ℕ
usb = record {
  open_device = λ dev w. (ok tt, w);
  read = λ w. (ok (if w == 0 then text "ab" else text "c" ++ newline ∷ []), w + 1);
  write = λ msg w. (ok tt, w);
  clear = λ w. (ok tt, w);
  auto_abort = λ w. (true, w);
  read_stb = λ w. (ok (if w == 1 then 16 else 0), w);
  sleep = λ w. w;
  close_device = λ w. w;
}

abbrev meter : Usbtmc
meter = record {
  errpref = text "usbtmc: ";
  idn = [];
  add = newline ∷ [];
  trim = newline ∷ [];
  auto_abort = true;
  read_cond = always;
  delays = false;
}

-- Address 0 has no socket, address 1 refuses the connection, address 2 takes it.
abbrev net : Sockets ℕ ℕ
net = record {
  getaddrinfo = λ addr port w. (ok (0 ∷ 1 ∷ 2 ∷ []), w);
  socket = λ a w. if a == 0 then (err (text "family"), w) else (ok w, w + 1);
  connect = λ fd a w. if a == 1 then (err (text "refused"), w) else (ok tt, w);
  pselect = λ fd w. (ready, w);
  recv = λ fd n w. (ok [], w);
  send = λ fd msg w. (ok tt, w);
  close_socket = λ fd w. w;
  sleep = λ w. w;
}

abbrev plain : Options (Unit {0})
plain = record {
  check_unknown = λ names. ok tt;
  exists = λ name. false;
  get = λ name v. v;
  get_bool = λ name v. ok v;
  get_int = λ name. ok none;
  get_double = λ name v. ok v;
}

abbrev set : NetOptions (Unit {0})
set = record {
  opts = plain;
  positive = λ x. false;
  zero = tt;
  five = tt;
  get_size = λ name n. ok n;
}

-- Devices get handle 7, and the open handles are the state.
abbrev without_first : List ℕ → List ℕ
without_first [] = []
without_first (h ∷ hs) = hs

abbrev ib : Ib ℕ (List ℕ)
ib = record {
  ibdev = λ b a t w. ((7, none), 7 ∷ w);
  ibclr = λ dh w. (none, w);
  ibtmo = λ dh t w. (none, w);
  ibeot = λ dh v w. (none, w);
  ibeos = λ dh v w. (none, w);
  ibsad = λ dh v w. (none, w);
  ibrd = λ dh n w. ((text "1.5", none), w);
  ibwrt = λ dh msg w. (none, w);
  ibonl = λ dh w. without_first w;
  sleep = λ w. w;
}

abbrev no_flags : EosBits
no_flags = record { bin = λ i. false; xeos = λ i. false; reos = λ i. false }

-- Address 5, all else as it is by default.
abbrev gpib_set : GpibOptions (Unit {0}) ℕ
gpib_set = record {
  opts = plain;
  get_int = λ name v. ok (if beq name (text "addr") then 5 else v);
  get_size = λ name n. ok n;
  minus_one = 99;
  no = 0;
  negative = λ n. n == 99;
  show = λ n. text "n";
  low_byte = λ n i. false;
  zero = tt;
  positive = λ x. false;
  eos_bits = no_flags;
}

ib_laws : HandleLaws ib (λ w. w)
ib_laws = record {
  ibdev-opened = λ b a t w e. cc;
  ibdev-failed = λ b a t w e. cc;
  ibclr-kept = λ dh w. refl;
  ibtmo-kept = λ dh t w. refl;
  ibeot-kept = λ dh v w. refl;
  ibeos-kept = λ dh v w. refl;
  ibsad-kept = λ dh v w. refl;
  ibrd-kept = λ dh n w. refl;
  ibwrt-kept = λ dh msg w. refl;
  sleep-kept = λ w. refl;
  ibonl-closed = λ dh hs w h. ap without_first h;
}

new_gpib-Settled_example :
    Settled ib (λ w. w) (text "volt?" ∷ text "*rst" ∷ []) (3 ∷ []) (new_gpib gpib_set ib (3 ∷ []))
new_gpib-Settled_example =
    new_gpib-Settled ib (λ w. w) ib_laws gpib_set (text "volt?" ∷ text "*rst" ∷ []) (3 ∷ [])

-- A device with an address and a name, and the option errpref.
abbrev vxi_set : Options (Unit {0})
vxi_set = record {
  check_unknown = λ names. if known (text "errpref") names then ok tt else err (text "unknown");
  exists = λ name. beq name (text "errpref");
  get = λ name v. text "x";
  get_bool = λ name v. ok v;
  get_int = λ name. ok none;
  get_double = λ name v. ok v;
}

abbrev vxi_calls : VxiCalls (Unit {0}) ℕ
vxi_calls = record {
  connect = λ addr name t w. (ok tt, w + 1);
  set_io_timeout = λ t w. (ok tt, w);
  set_lock_timeout = λ t w. (ok tt, w);
  clear = λ w. (ok tt, w);
  read = λ w. (ok [], w);
  write = λ msg w. (ok tt, w);
  sleep = λ w. w;
}

abbrev vxi_doubles : VxiDoubles (Unit {0})
vxi_doubles = record { zero = tt; two = tt; ten = tt; positive = λ x. false }

vxi_set-checks :
    (name : Bytes) (names : List Bytes)
    → vxi_set.exists name ≡ true
    → known name names ≡ false
    → (e : Bytes) × (vxi_set.check_unknown names ≡ err e)
vxi_set-checks name names h k =
    let k' : known (text "errpref") names ≡ false =
      subst (λ n. known n names ≡ false) ((beq_iff name (text "errpref")).0 h) k in
    rw k' (text "unknown", refl)

new_vxi_refused_example : (e : Bytes) × (new_vxi vxi_set vxi_doubles vxi_calls 7 ≡ (err e, 7))
unfolding beq text
new_vxi_refused_example = new_vxi_refused vxi_set vxi_doubles vxi_calls 7 vxi_set-checks (inr refl)
