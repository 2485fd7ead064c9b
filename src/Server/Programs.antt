-- ===== src/Server/Programs.antt =====
-- server/http_server.cpp, dev_manager.cpp, device.cpp and drv_spp.cpp together: requests for a
-- device of the driver spp, from the URL to the program and back.
pub mod Session
pub mod Chain
use device.Base.{
  ℕ, true, false, ◌≡◌, ◌≢◌, refl, none, some, List, [], ◌∷◌, ◌++◌, Bytes, text, beq, newline,
  Result, ok, err, continue, ◌==◌, ==_iff,
}
use device.Device
use device.Device.{
  Drivers, Device, new_device, ask_logged, ask_driver, asked, use_if_needed, use_device,
}
use device.Driver.Factory.{Build, kind_of, create, factory}
use device.Driver.Objects.{Object, spp_object, Parts, construct, ask_object, objects}
use device.Driver.Spp
use device.Driver.Spp.{Got, line, Spp}
use device.Driver.Spp.Open.{IsAccepted, supported, new_spp-started}
use device.Driver.Spp.Reading.{
  IsMark, answer, lines_text, drop_empty, failure, read_spp-answer, read_spp-failure,
}
use device.Manager.{Libs}
use device.Manager.Actions.{asks, call_device, put_back}
use device.Manager.Addressing.{run_addressed}
use device.Manager.Url.{NoSlash, slash}
use device.Map.{bytes_key, number_key, has, lookup, insert}
use device.Server.{Server, Reply, respond, process_request}
use device.Server.Responses.{get_call}

unfoldable pub ask_url : Bytes → Bytes → Bytes
ask_url name msg = slash ∷ (text "ask" ++ slash ∷ (name ++ slash ∷ msg))

-- What a program says to a message: lines and OK, or lines and an error.
pub data Said : Type 0 where
  answers : List Bytes → Said
  fails : List Bytes → Bytes → Said

unfoldable pub says : ℕ → Said → List Got → List Got
says ch (answers ls) rest = answer ch ls rest
says ch (fails ls e) rest = failure ch ls e rest

unfoldable pub outcome : Said → Result Bytes
outcome (answers ls) = ok (lines_text (drop_empty ls))
outcome (fails ls e) = err e

unfoldable pub reply : Said → Reply
reply (answers ls) = respond 200 (lines_text (drop_empty ls)) none
reply (fails ls e) = respond 400 e (some e)

abbrev pub Exchange : Type 0
Exchange = Bytes × Said

-- What the program prints, and what it is given.
unfoldable pub will_print : ℕ → List Exchange → List Got → List Got
will_print ch [] rest = rest
will_print ch ((msg, x) ∷ xs) rest = says ch x (will_print ch xs rest)

unfoldable pub fed : Bytes → List Exchange → Bytes
fed input [] = input
fed input ((msg, x) ∷ xs) = fed (input ++ (msg ++ newline ∷ [])) xs

unfoldable pub messages : List Exchange → List Bytes
messages [] = []
messages ((msg, x) ∷ xs) = msg ∷ messages xs

unfoldable pub spp_replies : List Exchange → List (Result Reply)
spp_replies [] = []
spp_replies ((msg, x) ∷ xs) = ok (reply x) ∷ spp_replies xs

module _ {Opt Drv World : Type 0} (libs : Libs Opt World) (drivers : Drivers Opt Drv World)
    (conn : ℕ) (name : Bytes) where
  -- The second calls of GET requests ask for the device, in their order on one connection.
  unfoldable pub serve_asks :
      List Bytes → Server Opt Drv World → List (Result Reply) × Server Opt Drv World
  serve_asks [] s = ([], s)
  serve_asks (msg ∷ msgs) s =
      let (r, b, t) = process_request libs drivers conn (get_call true 0 (ask_url name msg)) s in
      let (rs, u) = serve_asks msgs t in (r ∷ rs, u)

  pub get_served :
      (msg : Bytes) (x : Said) (d d' : Device Opt Drv) (s : Server Opt Drv World) (w' : World)
      → name ≢ []
      → NoSlash name
      → lookup name s.manager.devices ≡ some d
      → Device.ask drivers conn msg (d, s.world) ≡ (outcome x, (d', w'))
      → process_request libs drivers conn (get_call true 0 (ask_url name msg)) s ≡ (
        ok (reply x),
        false,
        record {
          manager = record s.manager { devices = insert name d' s.manager.devices };
          world = w';
          cmax = s.cmax;
        },
      )
  unfolding process_request get_call ask_url call_device put_back beq text outcome reply
  get_served msg (answers ls) d d' s w' ne plain found asked =
      rw (run_addressed libs drivers asks name msg conn s.manager s.world ne plain, found, asked)
        refl
  get_served msg (fails ls e) d d' s w' ne plain found asked =
      rw (run_addressed libs drivers asks name msg conn s.manager s.world ne plain, found, asked)
        refl

module _ {Opt F Int Addr Other World : Type 0} (libs : Libs Opt World) (build : Build)
    (parts : Parts Opt F Int Addr Other World) (conn : ℕ) (name : Bytes) (args : Opt) where
  abbrev pub with_objects : Drivers Opt (Object Other) World
  with_objects = factory build (objects parts)

  -- The device when the program runs, and the connection uses it.
  unfoldable pub running : Spp → List Got → Bytes → Device Opt (Object Other)
  running p out input = record (new_device name (text "spp") args) {
    drv = some (spp_object p (record { output = out; input = input }));
    users = (conn, tt) ∷ [];
  }

  spp_asked :
      (prog msg : Bytes) (ch : ℕ) (x : Said) (out : List Got) (input : Bytes)
      → IsMark ch
      → Spp.ask
          (record { prog = prog; ch = ch; idn = [] })
          msg
          (record { output = says ch x out; input = input })
        ≡ (outcome x, record { output = out; input = input ++ (msg ++ newline ∷ []) })
  unfolding Spp.ask Spp.write says outcome
  spp_asked prog msg ch (answers ls) out input mark =
      read_spp-answer (record { prog = prog; ch = ch; idn = [] }) ls out
        (input ++ (msg ++ newline ∷ [])) mark
  spp_asked prog msg ch (fails ls e) out input mark =
      read_spp-failure (record { prog = prog; ch = ch; idn = [] }) ls e out
        (input ++ (msg ++ newline ∷ [])) mark

  pub running_asked :
      (prog msg : Bytes) (ch : ℕ) (x : Said) (out : List Got) (input : Bytes) (w : World)
      → IsMark ch
      → Device.ask with_objects conn msg
          (running (record { prog = prog; ch = ch; idn = [] }) (says ch x out) input, w)
        ≡ (
          outcome x,
          (
            running
                (record { prog = prog; ch = ch; idn = [] })
                out
                (input ++ (msg ++ newline ∷ [])),
            w,
          ),
        )
  unfolding Device.ask running new_device use_if_needed ask_logged ask_driver asked ask_object has
  running_asked prog msg ch x out input w mark =
      rw ((==_iff conn conn).1 refl, ask_driver, spp_asked prog msg ch x out input mark) refl

  -- What the program prints from its start on, and options that it starts with.
  pub record Starts (ch c ver : ℕ) (cs : Bytes) (greeting : List Bytes) (out : List Got)
      (w w' : World) : Type 0 where
    pub accepted :
        IsAccepted parts.read_int
          (parts.net_options args).opts
          parts.open_default
          parts.read_default
          parts.close_default
          parts.start
    pub mark : IsMark ch
    pub version : parts.read_int (c ∷ cs) ≡ ok (some ver)
    pub known : supported parts.read_int (some ver) ≡ true
    pub output : parts.start ((parts.net_options args).opts.get (text "prog") []) w ≡ (
      ok (record {
        output = line (ch ∷ b'S' ∷ b'P' ∷ b'P' ∷ c ∷ cs) ∷ answer ch greeting out;
        input = [];
      }),
      w',
    )

  module _ (ch c ver : ℕ) (cs : Bytes) (greeting : List Bytes) (w w' : World) where
    abbrev pub spp_program : Spp
    spp_program = record {
      prog = (parts.net_options args).opts.get (text "prog") [];
      ch = ch;
      idn = [];
    }

    created :
        (out : List Got)
        → Starts ch c ver cs greeting out w w'
        → create build (objects parts) (text "spp") args w
          ≡ (ok (spp_object spp_program (record { output = out; input = [] })), w')
    unfolding create kind_of construct beq text
    created out h =
        rw
          (new_spp-started parts.read_int (parts.net_options args).opts parts.open_default
            parts.read_default parts.close_default parts.start ch c ver cs greeting out w w'
            h.accepted h.mark h.version h.known h.output)
          refl

    -- The first request: the factory starts the program, and the connection uses the device.
    pub start_asked :
        (msg : Bytes) (x : Said) (out : List Got)
        → Starts ch c ver cs greeting (says ch x out) w w'
        → Device.ask with_objects conn msg (new_device name (text "spp") args, w)
          ≡ (outcome x, (running spp_program out (msg ++ newline ∷ []), w'))
    unfolding Device.ask Device.opened running new_device use_if_needed use_device ask_logged
        ask_driver asked ask_object has insert
    start_asked msg x out h =
        rw (created (says ch x out) h, spp_asked spp_program.prog msg ch x out [] h.mark) refl
