-- ===== src/Tests/Programs.antt =====
-- server/http_server.cpp to server/drv_spp.cpp: the theorem on requests for a program, with one
-- that greets, answers three messages and has something left to say; and the test driver behind the
-- factory.
use device.Base.{
  ℕ, true, false, none, some, List, [], ◌∷◌, ◌++◌, ◌≡◌, refl, arith, Bytes, text, newline, ok, beq,
  if◌then◌else◌, ◌==◌, ◌+◌,
}
use device.Device
use device.Device.{
  Device, new_device, use_if_needed, use_device, ask_logged, ask_driver, asked, log_answer,
}
use device.Driver.Factory.{Build, factory, create, kind_of}
use device.Driver.Gpib.{Ib}
use device.Driver.Gpib.Open.{GpibOptions}
use device.Driver.Net.{Sockets, NetOptions, ready}
use device.Driver.Objects.{Object, test_object, Parts, construct, ask_object, objects}
use device.Driver.Setup.{Options}
use device.Driver.Spp.{Got, line}
use device.Driver.Spp.Reading.{IsMark, answer, protect}
use device.Driver.Test
use device.Driver.Test.{new_test}
use device.Map.{insert, has, lookup, bytes_key}
use device.Server.{Server}
use device.Server.Programs.{
  messages, Exchange, Said, messages, answers, fails, says, will_print, fed, with_objects,
  serve_asks,
}
use device.Server.Programs.Session.{Serves, spp_served}
use device.Tests.Sample.{Opt, libs}

abbrev opts : Options (Unit {0})
opts = record {
  check_unknown = λ names. ok tt;
  exists = λ name. beq name (text "prog");
  get = λ name v. if beq name (text "prog") then text "graphene" else v;
  get_bool = λ name v. ok v;
  get_int = λ name. ok none;
  get_double = λ name v. ok v;
}

abbrev set : NetOptions (Unit {0})
set = record { opts = opts; positive = λ x. false; zero = tt; five = tt; get_size = λ name n. ok n }

abbrev gpib_set : GpibOptions (Unit {0}) ℕ
gpib_set = record {
  opts = opts;
  get_int = λ name v. ok v;
  get_size = λ name n. ok n;
  minus_one = 99;
  no = 0;
  negative = λ n. n == 99;
  show = λ n. text "n";
  low_byte = λ n i. false;
  zero = tt;
  positive = λ x. false;
  eos_bits = record { bin = λ i. false; xeos = λ i. false; reos = λ i. false };
}

abbrev net : Sockets ℕ ℕ
net = record {
  getaddrinfo = λ addr port w. (ok [], w);
  socket = λ a w. (ok w, w + 1);
  connect = λ fd a w. (ok tt, w);
  pselect = λ fd w. (ready, w);
  recv = λ fd n w. (ok [], w);
  send = λ fd msg w. (ok tt, w);
  close_socket = λ fd w. w;
  sleep = λ w. w;
}

abbrev ib : Ib ℕ ℕ
ib = record {
  ibdev = λ b a t w. ((7, none), w);
  ibclr = λ dh w. (none, w);
  ibtmo = λ dh t w. (none, w);
  ibeot = λ dh v w. (none, w);
  ibeos = λ dh v w. (none, w);
  ibsad = λ dh v w. (none, w);
  ibrd = λ dh n w. ((text "1.5", none), w);
  ibwrt = λ dh msg w. (none, w);
  ibonl = λ dh w. w;
  sleep = λ w. w;
}

-- The second message fails. The last answer has an empty line and a line that begins with the
-- special character.
abbrev first : Said
first = answers (text "1.5" ∷ [])

abbrev later : List Exchange
later =
    (text "bad", fails (text "a" ∷ []) (text "no such command"))
    ∷ (text "list", answers ([] ∷ text "a" ∷ text "#b" ∷ []))
    ∷ []

abbrev greeting : List Bytes
greeting = text "Graphene" ∷ []

abbrev left : List Got
left = line (text "x") ∷ []

abbrev output : List Got
output =
    line (b'#' ∷ b'S' ∷ b'P' ∷ b'P' ∷ b'2' ∷ [])
    ∷ answer b'#' greeting (says b'#' first (will_print b'#' later left))

abbrev pub parts : Parts Opt (Unit {0}) ℕ ℕ ℕ ℕ
parts = record {
  net_options = λ o. set;
  gpib_options = λ o. gpib_set;
  sockets = net;
  ib = ib;
  read_int = λ s. ok (some 2);
  open_default = tt;
  read_default = tt;
  close_default = tt;
  start = λ prog w. (ok (record { output = output; input = [] }), w + 1);
  others = record {
    construct = λ k o w. (ok 0, w);
    ask = λ d msg w. (ok msg, (d, w));
    destroy = λ d w. w;
  };
}

abbrev pub build : Build
build = record { use_gpib = true; use_vxi = false }

abbrev pub server : Server Opt (Object ℕ) ℕ
server = record {
  manager = record {
    devices = (text "db", new_device (text "db") (text "spp") []) ∷ [];
    devfile = text "devices.cfg";
    conn_names = (1, []) ∷ [];
  };
  world = 3;
  cmax = 2;
}

mark : IsMark b'#'
mark = record { not_error = omega arith; not_fatal = omega arith; not_ok = omega arith }

spp_served_example :
    Serves libs build parts 1
      (text "db")
      []
      (text "graphene")
      b'#'
      left
      (text "get" ++ newline ∷ (text "bad" ++ newline ∷ (text "list" ++ newline ∷ [])))
      ((text "get", first) ∷ later)
      (serve_asks libs
        (with_objects libs build parts 1 (text "db") [])
        1
        (text "db")
        (messages ((text "get", first) ∷ later))
        server)
unfolding text beq says protect will_print messages lookup fed
spp_served_example =
    spp_served libs build parts 1 (text "db") [] b'#' b'2' 2 [] greeting (text "get") first later
      left server 4 (λ e. cc) (omega arith) refl
      (record {
        accepted = record {
          known = refl;
          has_prog = λ e. cc;
          no_idn = refl;
          opening = tt;
          reading = tt;
          closing = tt;
          open_number = refl;
          read_number = refl;
          close_number = refl;
        };
        mark = mark;
        version = refl;
        known = refl;
        output = refl;
      })

-- The test driver repeats the message.
echoed :
    Device.ask
      (factory build (objects parts))
      1
      (text "hi")
      (new_device (text "t") (text "test") [], 3)
    ≡ (
      ok (text "hi"),
      (
        record (new_device (text "t") (text "test") []) {
          drv = some (test_object (record { m = text "hi" }));
          users = (1, tt) ∷ [];
        },
        3,
      ),
    )
unfolding Device.ask Device.opened new_device use_if_needed use_device ask_logged ask_driver asked
    create kind_of construct ask_object has insert beq text new_test Test.ask Test.write Test.read
echoed = refl
