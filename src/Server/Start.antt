-- ===== src/Server/Start.antt =====
-- server/http_server.cpp: the start and the end of the HTTP library, and the GET arguments of a
-- request. The library is an argument, as are the options and the reading of addresses.
use device.Base.{
  ℕ, ◌%◌, ◌^◌, Bool, true, Option, none, some, List, [], ◌∷◌, ◌++◌, if◌then◌else◌, Bytes, text, beq,
  Result, ok, err, crash, Exec,
}

-- struct sockaddr_in: the address and the port, whose byte order is that of the network.
pub record SockAddr : Type 0 where
  pub sin_port : ℕ
  pub s_addr : ℕ

-- MHD_OptionItem; the callback for connections is ConnFunc.
pub data OptionItem : Type 0 where
  notify_connection : OptionItem
  sock_addr : SockAddr → OptionItem
  connection_limit : ℕ → OptionItem
  option_end : OptionItem

-- MHD_USE_THREAD_PER_CONNECTION and MHD_USE_ITC
pub record ServerFlags : Type 0 where
  pub use_thread_per_connection : Bool
  pub use_itc : Bool

pub record Mhd (World : Type 0) : Type 0 where
  -- the handle, `none` for NULL; the port is an uint16_t
  pub mhd_start_daemon : ServerFlags → ℕ → List OptionItem → World → Option ℕ × World
  pub mhd_stop_daemon : ℕ → World → World
  pub str_to_type_ip4 : Bytes → Result ℕ
  -- << of an int
  pub show_int : ℕ → Bytes

-- AppendToOpt over the arguments of a request: opts.put(key, value)
unfoldable pub append_to_opt :
    {Opt : Type 0} → (Bytes → Bytes → Opt → Opt) → List (Bytes × Bytes) → Opt → Opt
append_to_opt put [] o = o
append_to_opt put ((key, value) ∷ args) o = append_to_opt put args (put key value o)

-- The port is an int, as a word of 32 bits.
unfoldable pub htons : ℕ → ℕ
htons port = port % 2 ^ 16

module _ {World : Type 0} (mhd : Mhd World) where
  -- listen only one address
  unfoldable pub addr_items : Bytes → ℕ → Result (List OptionItem)
  unfolding htons
  addr_items addr port =
      let r = filled (mhd.str_to_type_ip4 addr) in if beq addr (text "*") then ok [] else r
    where
      filled : Result ℕ → Result (List OptionItem)
      filled (ok a) = ok (sock_addr (record { sin_port = htons port; s_addr = a }) ∷ [])
      filled (err e) = err e
      filled crash = crash

  unfoldable pub server_items : List OptionItem → Bool → List OptionItem
  server_items addrs test =
      notify_connection
      ∷ (addrs ++ ((if test then connection_limit 1 ∷ [] else []) ++ option_end ∷ []))

  unfoldable pub started : Bytes → ℕ → Option ℕ × World → Result ℕ × World
  started addr port (some d, w) = (ok d, w)
  started addr port (none, w) =
      (err (text "Can't start http server at " ++ (addr ++ (text ":" ++ mhd.show_int port))), w)

  -- HTTP_Server(addr, port, test, dm)
  unfoldable pub new_http_server : Bytes → ℕ → Bool → Exec World ℕ
  unfolding addr_items server_items started htons
  new_http_server addr port test w = with_items (addr_items addr port)
    where
      flags : ServerFlags
      flags = record { use_thread_per_connection = true; use_itc = test }

      with_items : Result (List OptionItem) → Result ℕ × World
      with_items (ok addrs) =
          started addr port (mhd.mhd_start_daemon flags (htons port) (server_items addrs test) w)
      with_items (err e) = (err e, w)
      with_items crash = (crash, w)

  -- ~HTTP_Server
  unfoldable pub delete_http_server : ℕ → World → World
  delete_http_server d w = mhd.mhd_stop_daemon d w
