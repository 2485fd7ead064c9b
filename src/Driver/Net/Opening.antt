-- ===== src/Driver/Net/Opening.antt =====
-- Driver_net::Driver_net in server/drv_net.cpp: which of the addresses it connects to.
use device.Base.{
  ℕ, ◌≡◌, refl, sym, ap, ◌∙◌, append-nil, Option, none, some, List, [], ◌∷◌, ◌++◌, Bytes, text, ok,
  err,
}
use device.Driver.Net.{Sockets, NetOptions, connected, with_socket, connect_first}

module _ {F Addr World : Type 0} (set : NetOptions F) (net : Sockets Addr World) where
  -- The address is refused, by socket or by connect, with this error.
  pub data Refused (a : Addr) (w : World) (e : Bytes) : World → Type 0 where
    no_socket : {w' : World} → net.socket a w ≡ (err e, w') → Refused a w e w'
    no_connect :
        {fd : ℕ} {w' w'' : World}
        → net.socket a w ≡ (ok fd, w')
        → net.connect fd a w' ≡ (err e, w'')
        → Refused a w e w''

  -- All of them are, one after the other; the last error is kept.
  pub data AllRefused : List Addr → Option Bytes → World → Option Bytes → World → Type 0 where
    none_left : {e : Option Bytes} {w : World} → AllRefused [] e w e w
    one_more :
        {a : Addr} {as' : List Addr} {e e'' : Option Bytes} {e' : Bytes} {w w' w'' : World}
        → Refused a w e' w'
        → AllRefused as' (some e') w' e'' w''
        → AllRefused (a ∷ as') e w e'' w''

  connect_first-refused :
      (errpref : Bytes) (addrs rest : List Addr) (e e' : Option Bytes) (w w' : World)
      → AllRefused addrs e w e' w'
      → connect_first set net errpref e (addrs ++ rest) w ≡ connect_first set net errpref e' rest w'
  unfolding connect_first with_socket connected
  connect_first-refused errpref addrs rest e e' w w' none_left = refl
  connect_first-refused errpref addrs rest none e' w w' (one_more (no_socket s) r) =
      rw s (connect_first-refused errpref _ rest _ e' _ w' r)
  connect_first-refused errpref addrs rest (some x) e' w w' (one_more (no_socket s) r) =
      rw s (connect_first-refused errpref _ rest _ e' _ w' r)
  connect_first-refused errpref addrs rest none e' w w' (one_more (no_connect s c) r) =
      rw (s, c) (connect_first-refused errpref _ rest _ e' _ w' r)
  connect_first-refused errpref addrs rest (some x) e' w w' (one_more (no_connect s c) r) =
      rw (s, c) (connect_first-refused errpref _ rest _ e' _ w' r)

  -- If all of some addresses refuse, the constructor goes on to the next, which gets the connection
  -- if it takes it, and those behind it are not tried; without a next one the error is that of the
  -- last.
  pub connect_first_lem :
      (errpref : Bytes) (addrs rest : List Addr) (a : Addr) (fd : ℕ) (w w' w'' t : World)
      (last : Bytes)
      → AllRefused addrs none w (some last) w'
      → net.socket a w' ≡ (ok fd, w'')
      → net.connect fd a w'' ≡ (ok tt, t)
      → (connect_first set net errpref none (addrs ++ a ∷ rest) w ≡ (ok fd, t))
        × (connect_first set net errpref none addrs w
            ≡ (err (errpref ++ (text "can't connect: " ++ last)), w'))
  unfolding connect_first with_socket connected
  connect_first_lem errpref addrs rest a fd w w' w'' t last r s c = (
    connect_first-refused errpref addrs (a ∷ rest) none (some last) w w' r ∙ rw (s, c) refl,
    ap (λ l. connect_first set net errpref none l w) (sym (append-nil addrs))
        ∙ connect_first-refused errpref addrs [] none (some last) w w' r,
  )
