-- ===== src/Server/Programs/Session.antt =====
-- server/http_server.cpp to server/drv_spp.cpp: several requests for a device of the driver spp.
use device.Base.{
  Bool, true, false, sym, subst, ℕ, ◌≡◌, ◌≢◌, refl, ap, ◌∙◌, some, List, [], ◌∷◌, Bytes, text,
  beq_iff, newline, Result, ok, ◌++◌, if◌then◌else◌,
}
use device.Device.{new_device}
use device.Driver.Factory.{Build}
use device.Driver.Objects.{Object, Parts}
use device.Driver.Spp.{Got}
use device.Driver.Spp.Reading.{IsMark}
use device.Manager.{Libs}
use device.Manager.Url.{NoSlash}
use device.Map.{Map, bytes_key, lookup, insert, lookup-insert}
use device.Server.{Server, Reply, process_request}
use device.Server.Responses.{get_call}
use device.Server.Programs.{
  ask_url, Exchange, Said, says, reply, messages, will_print, fed, spp_replies, serve_asks,
  get_served, with_objects, running, running_asked, Starts, start_asked,
}

lookup-inserted :
    {V : Type 0} (n : Bytes) (v : V) (m : Map Bytes V) → lookup n (insert n v m) ≡ some v
lookup-inserted n v m =
    lookup-insert n n v m ∙ ap (λ b. if b then some v else lookup n m) ((beq_iff n n).1 refl)

module _ {Opt F Int Addr Other World : Type 0} (libs : Libs Opt World) (build : Build)
    (parts : Parts Opt F Int Addr Other World) (conn : ℕ) (name : Bytes) (args : Opt) where
  -- The replies are those to the exchanges, and the program, which has been given the messages, is
  -- about to print the rest.
  abbrev pub Serves :
      Bytes
      → ℕ
      → List Got
      → Bytes
      → List Exchange
      → List (Result Reply) × Server Opt (Object Other) World
      → Type 0
  Serves prog ch rest input xs (rs, t) =
      (rs ≡ spp_replies xs)
      × (lookup name t.manager.devices
          ≡ some (
              running libs build parts conn name args (record { prog = prog; ch = ch; idn = [] })
                rest input))

  -- The first request, and what is said of the others.
  first_and_rest :
      (prog : Bytes) (ch : ℕ) (rest : List Got) (input msg : Bytes) (x : Said) (xs : List Exchange)
      (s t : Server Opt (Object Other) World)
      → process_request libs
          (with_objects libs build parts conn name args)
          conn
          (get_call true 0 (ask_url name msg))
          s
        ≡ (ok (reply x), false, t)
      → Serves prog ch rest input xs
          (serve_asks libs (with_objects libs build parts conn name args) conn name (messages xs) t)
      → Serves prog ch rest input ((msg, x) ∷ xs) (
          serve_asks libs
            (with_objects libs build parts conn name args)
            conn
            name
            (messages ((msg, x) ∷ xs))
            s)
  unfolding serve_asks messages spp_replies
  first_and_rest prog ch rest input msg x xs s t e (rs, u) =
      let others =
        serve_asks libs (with_objects libs build parts conn name args) conn name (messages xs) in
      subst
        (λ (p : Result Reply × Bool × Server Opt (Object Other) World).
          Serves prog ch rest input ((msg, x) ∷ xs) (p.0 ∷ (others p.2).0, (others p.2).1))
        (sym e) (ap (λ rs. ok (reply x) ∷ rs) rs, u)

  serve_running :
      (prog : Bytes) (ch : ℕ) (xs : List Exchange) (rest : List Got) (input : Bytes)
      (s : Server Opt (Object Other) World)
      → IsMark ch
      → name ≢ []
      → NoSlash name
      → lookup name s.manager.devices
        ≡ some (
            running libs build parts conn name args
              (record { prog = prog; ch = ch; idn = [] })
              (will_print ch xs rest)
              input)
      → Serves prog ch rest
          (fed input xs)
          xs
          (serve_asks libs (with_objects libs build parts conn name args) conn name (messages xs) s)
  unfolding serve_asks messages will_print fed spp_replies
  serve_running prog ch [] rest input s mark ne plain found = (refl, found)
  serve_running prog ch ((msg, x) ∷ xs) rest input s mark ne plain found =
      first_and_rest prog ch rest _ msg x xs s _
        (get_served libs (with_objects libs build parts conn name args) conn name msg x _ _ s
          s.world ne plain found
          (running_asked libs build parts conn name args prog msg ch x (will_print ch xs rest) input
            s.world mark))
        (serve_running prog ch xs rest (input ++ (msg ++ newline ∷ [])) _ mark ne plain
          (lookup-inserted name _ s.manager.devices))

  -- A device as the configuration made it, of the driver spp with no option idn, whose program starts,
  -- says what it is, with a special character other than E, F and O, and answers each message by the
  -- protocol, with lines or with an error: the first request starts the program, each request is answered 200 with the lines of its own answer, less the empty ones at its
  -- beginning, or 400 with the text of its own error, and the program is given the messages, one to a
  -- line, in their order, with nothing left unread.
  pub spp_served :
      (ch c ver : ℕ) (cs : Bytes) (greeting : List Bytes) (msg : Bytes) (x : Said)
      (xs : List Exchange) (rest : List Got) (s : Server Opt (Object Other) World) (w' : World)
      → name ≢ []
      → NoSlash name
      → lookup name s.manager.devices ≡ some (new_device name (text "spp") args)
      → Starts libs build parts conn name args ch c ver cs greeting
          (says ch x (will_print ch xs rest))
          s.world
          w'
      → Serves
          ((parts.net_options args).opts.get (text "prog") [])
          ch
          rest
          (fed [] ((msg, x) ∷ xs))
          ((msg, x) ∷ xs)
          (serve_asks libs
            (with_objects libs build parts conn name args)
            conn
            name
            (messages ((msg, x) ∷ xs))
            s)
  unfolding fed
  spp_served ch c ver cs greeting msg x xs rest s w' ne plain found h =
      first_and_rest ((parts.net_options args).opts.get (text "prog") []) ch rest _ msg x xs s _
        (get_served libs (with_objects libs build parts conn name args) conn name msg x _ _ s w' ne
          plain found
          (start_asked libs build parts conn name args ch c ver cs greeting s.world w' msg x
            (will_print ch xs rest) h))
        (serve_running ((parts.net_options args).opts.get (text "prog") []) ch xs rest
          (msg ++ newline ∷ []) _ h.mark ne plain (lookup-inserted name _ s.manager.devices))
