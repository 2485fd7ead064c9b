-- ===== src/Driver/Net.antt =====
-- server/drv_net.h and server/drv_net.cpp: a device behind a socket. The calls of the sockets
-- library, the options and doubles are arguments.
pub mod Opening
pub mod Prologix
use device.Base.{
  ℕ, Bool, not, ◌&&◌, Option, none, some, List, [], ◌∷◌, ◌++◌, ◌==◌, length, if◌then◌else◌, Bytes,
  text, newline, Result, ok, err, crash, Exec, continue, ◌>>=◌, ◌>>◌,
}
use device.Driver.Setup.{Options}
use device.Driver.Spp.{same_ignoring_case}
use device.Driver.Utils.{trim_str, ReadCond, check_read_cond, str_to_read_cond}

-- pselect: data, an error, or the end of the waiting.
pub data Wait : Type 0 where
  ready : Wait
  timed_out : Wait
  failed : Bytes → Wait

-- `err` has the text of errno. A socket that was made is not closed by a connect that fails.
pub record Sockets (Addr World : Type 0) : Type 0 where
  pub getaddrinfo : Bytes → Bytes → World → Result (List Addr) × World
  pub socket : Addr → World → Result ℕ × World
  pub connect : ℕ → Addr → World → Result (Unit {0}) × World
  -- on the descriptor of the socket; recv takes the size of the buffer behind it
  pub pselect : ℕ → World → Wait × World
  pub recv : ℕ → ℕ → World → Result Bytes × World
  pub send : ℕ → Bytes → World → Result (Unit {0}) × World
  -- ::close
  pub close_socket : ℕ → World → World
  -- usleep of the delay
  pub sleep : World → World

pub record Net : Type 0 where
  pub sockfd : ℕ
  pub errpref : Bytes
  pub idn : Bytes
  pub add : Bytes
  pub trim : Bytes
  pub bufsize : ℕ
  -- timeout>0 and delay>0
  pub times_out : Bool
  pub delays : Bool
  pub read_cond : ReadCond

module _ {Addr World : Type 0} (net : Sockets Addr World) (d : Net) where
  waited : Wait × World → Result (Unit {0}) × World
  waited (ready, w) = (ok tt, w)
  waited (timed_out, w) = (err (d.errpref ++ text "read timeout"), w)
  waited (failed e, w) = (err (d.errpref ++ (text "select error: " ++ e)), w)

  wait_for_data : Exec World (Unit {0})
  unfolding waited
  wait_for_data w = let s = waited (net.pselect d.sockfd w) in if d.times_out then s else (ok tt, w)

  recv_text : Result Bytes × World → Result Bytes × World
  recv_text (ok buf, w) = (ok (trim_str buf d.trim).1, w)
  recv_text (err e, w) = (err (d.errpref ++ (text "read error: " ++ e)), w)
  recv_text (crash, w) = (crash, w)

  -- Driver_net::read: one call of recv
  unfoldable pub read : Exec World Bytes
  unfolding wait_for_data recv_text
  read = do wait_for_data; λ w. recv_text (net.recv d.sockfd d.bufsize w)

  sent : Result (Unit {0}) × World → Result (Unit {0}) × World
  sent (ok a, w) = (ok tt, (if d.delays then net.sleep w else w))
  sent (err e, w) = (err (d.errpref ++ (text "write error: " ++ e)), w)
  sent (crash, w) = (crash, w)

  -- Driver_net::write
  unfoldable pub write : Bytes → Exec World (Unit {0})
  unfolding sent
  write msg w = sent (net.send d.sockfd (msg ++ d.add) w)

  -- if (!check_read_cond(msg, read_cond)) return std::string(); return read();
  answer : Bytes → Exec World Bytes
  unfolding read
  answer msg w = let s = read w in if check_read_cond msg d.read_cond then s else (ok [], w)

  -- Driver_net::ask
  unfoldable pub ask : Bytes → Exec World Bytes
  unfolding write answer
  ask msg =
      if not (length d.idn == 0) && same_ignoring_case msg (text "*idn?")
      then (λ w. (ok d.idn, w))
      else (do write msg; answer msg)

  -- ~Driver_net
  unfoldable pub delete_net : World → World
  delete_net w = net.close_socket d.sockfd w

-- Whether a number is positive, and the literals 0.0 and 5.0; an int of an option, with a default.
pub record NetOptions (F : Type 0) : Type 0 where
  pub opts : Options F
  pub positive : F → Bool
  pub zero : F
  pub five : F
  pub get_size : Bytes → ℕ → Result ℕ

-- What the constructor lets through.
abbrev pub net_options : List Bytes
net_options =
    text "addr"
    ∷ text "port"
    ∷ text "timeout"
    ∷ text "bufsize"
    ∷ text "delay"
    ∷ text "open_delay"
    ∷ text "errpref"
    ∷ text "idn"
    ∷ text "read_cond"
    ∷ text "add_str"
    ∷ text "trim_str"
    ∷ []

module _ {F Addr World : Type 0} (set : NetOptions F) (net : Sockets Addr World) where
  -- One result of getaddrinfo; `next` are the ones behind it.
  unfoldable pub connected :
      ℕ → Result (Unit {0}) × World → (Bytes → World → Result ℕ × World) → Result ℕ × World
  connected fd (ok x, w) next = (ok fd, w)
  connected fd (err e, w) next = next e w
  connected fd (crash, w) next = (crash, w)

  unfoldable pub with_socket :
      Addr → Result ℕ × World → (Bytes → World → Result ℕ × World) → Result ℕ × World
  unfolding connected
  with_socket addr (ok fd, w) next = connected fd (net.connect fd addr w) next
  with_socket addr (err e, w) next = next e w
  with_socket addr (crash, w) next = (crash, w)

  -- The loop over the results of getaddrinfo; `e` is the last errno, without a value at the beginning.
  unfoldable pub connect_first : Bytes → Option Bytes → List Addr → Exec World ℕ
  unfolding with_socket
  connect_first errpref none [] w = (crash, w)
  connect_first errpref (some e) [] w = (err (errpref ++ (text "can't connect: " ++ e)), w)
  connect_first errpref e (addr ∷ addrs) w =
      with_socket addr (net.socket addr w) (λ e'. connect_first errpref (some e') addrs)

  resolved : Bytes → Result (List Addr) × World → Result (List Addr) × World
  resolved errpref (ok addrs, w) = (ok addrs, w)
  resolved errpref (err e, w) = (err (errpref ++ (text "getaddrinfo: " ++ e)), w)
  resolved errpref (crash, w) = (crash, w)

  given : {A : Type 0} → Result A → Exec World A
  given r w = (r, w)

  opened_late : Exec World (Unit {0})
  unfolding given
  opened_late = do
    open_delay ← given (set.opts.get_double (text "open_delay") set.zero)
    λ w. (ok tt, (if set.positive open_delay then net.sleep w else w))

  -- The fields behind the connection.
  net_fields : Bytes → ℕ → Exec World Net
  unfolding given
  net_fields errpref fd = do
    bufsize ← given (set.get_size (text "bufsize") 4096)
    timeout ← given (set.opts.get_double (text "timeout") set.five)
    delay ← given (set.opts.get_double (text "delay") set.zero)
    read_cond ← given (str_to_read_cond (set.opts.get (text "read_cond") (text "qmark1w")))
    given (
        ok (record {
          sockfd = fd;
          errpref = errpref;
          idn = set.opts.get (text "idn") [];
          add = set.opts.get (text "add_str") (newline ∷ []);
          trim = set.opts.get (text "trim_str") (newline ∷ []);
          bufsize = bufsize;
          times_out = set.positive timeout;
          delays = set.positive delay;
          read_cond = read_cond;
        }))

  -- From getaddrinfo on, with the complete prefix of error messages.
  unfoldable pub open_net : Bytes → Bytes → Bytes → Exec World Net
  unfolding resolved opened_late connect_first net_fields
  open_net errpref addr port = do
    addrs ← (λ w. resolved errpref (net.getaddrinfo addr port w))
    opened_late
    fd ← connect_first errpref none addrs
    net_fields errpref fd

  -- Driver_net(opts)
  unfoldable pub new_net : Exec World Net
  unfolding given open_net
  new_net = do
    given (set.opts.check_unknown net_options)
    let errpref = set.opts.get (text "errpref") (text "Driver_net: ")
    let addr = set.opts.get (text "addr") []
    let port = set.opts.get (text "port") (text "5025")
    if length addr == 0
        then (λ w. (err (errpref ++ text "Parameter -addr is empty or missing"), w))
        else open_net (errpref ++ (addr ++ b':' ∷ (port ++ text ": "))) addr port
