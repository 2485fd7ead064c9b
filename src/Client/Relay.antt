-- ===== src/Client/Relay.antt =====
-- A whole session of use_dev of server/device_c.cpp, as the driver Driver_spp of server/drv_spp.cpp
-- takes it when the client is its program.
use device.Base.{
  ℕ, ◌≡◌, refl, ◌∙◌, ap, arith, Bool, some, Option, List, [], ◌∷◌, ◌++◌, append_assoc, map, length,
  All, Bytes, text, newline, Result, ok, err, crash, continue,
}
use device.Client.{
  Session, Curl, put_text, guarded, send, ask_server, get, set_up, dev_session, use_dev,
}
use device.Client.Reading.{
  NoNewline, IsReadable, lines_of, lines_of-append, NoNewline-append, hash-IsMark, reads,
  reads-replies, client, hash,
}
use device.Client.Session.{Escapes, replies, replies_text, each_line-replies, get-safe}
use device.Driver.Spp.{line}
use device.Driver.Spp.Reading.{protect}
use device.Driver.Spp.Open.{handshake, handshake_lem}
use device.Manager.{Words}

-- What use_dev prints before it asks the server.
unfoldable pub header_text : Bytes → Bytes → Bytes
header_text server dev =
    ((text "#SPP001" ++ newline ∷ []) ++ (text "Server: " ++ (server ++ newline ∷ [])))
    ++ (text "Device: " ++ (dev ++ newline ∷ []))

module _ {World : Type 0} (curl : Curl World) (server : Bytes) (join_words : List Bytes → Bytes)
    (dev name : Bytes) (lock : Bool) where
  -- The replies of the server to the lines of the input.
  abbrev pub server_replies : List Words → World → List (Result Bytes)
  server_replies input w =
      replies (λ pars. get curl server (text "ask") dev (join_words pars)) input w

  dev_session-output :
      (escapes : Escapes curl) (input : List Words) (out : Bytes) (w w' : World)
      → set_up curl server dev lock name (out, w) ≡ (ok tt, (out, w'))
      → ((dev_session curl server join_words dev lock name input (out, w)).0 ≡ ok tt)
        × ((dev_session curl server join_words dev lock name input (out, w)).1.0
            ≡ (out ++ (text "#OK" ++ newline ∷ [])) ++ replies_text (server_replies input w'))
  unfolding dev_session put_text
  dev_session-output escapes input out w w' h =
      rw h (each_line-replies _ (λ pars x. get-safe curl server escapes _ _ _ x) input _ w')

  guarded_ok :
      (body rest : Session World → Result (Unit {0}) × Session World) (s : Session World)
      → (body s).0 ≡ ok tt
      → guarded body rest s ≡ rest (body s).1
  unfolding guarded
  guarded_ok body rest s h = rw h refl

  send-output : (act arg : Bytes) (s : Session World) → (send curl server act arg s).1.0 ≡ s.0
  unfolding send ask_server
  send-output act arg (out, w) = go (get curl server act arg [] w)
    where
      go :
          (r : Result Bytes × World)
          → (continue {S = Session World} (r.0, (out, r.1)) (λ _ t. (ok tt, t))).1.0 ≡ out
      go (ok v, x) = refl
      go (err e, x) = refl
      go (crash, x) = refl

  pub use_dev-output :
      (escapes : Escapes curl) (input : List Words) (w w' : World)
      → set_up curl server dev lock name (header_text server dev, w)
        ≡ (ok tt, (header_text server dev, w'))
      → (use_dev curl server join_words dev lock name input ([], w)).1.0
        ≡ (header_text server dev ++ (text "#OK" ++ newline ∷ []))
          ++ replies_text (server_replies input w')
  unfolding use_dev put_text header_text
  use_dev-output escapes input w w' h =
      let s : Session World = (header_text server dev, w) in
      let d = dev_session-output escapes input (header_text server dev) w w' h in
      ap (λ (r : Result (Unit {0}) × Session World). r.1.0)
        (guarded_ok (dev_session curl server join_words dev lock name input)
          (send curl server (text "release_all") []) s d.0)
      ∙ send-output (text "release_all") []
          (dev_session curl server join_words dev lock name input s).1
      ∙ d.1

  pub header_lines :
      (rest : Bytes)
      → NoNewline server
      → NoNewline dev
      → lines_of ((header_text server dev ++ (text "#OK" ++ newline ∷ [])) ++ rest)
        ≡ text "#SPP001"
          ∷ (text "Server: " ++ server)
          ∷ (text "Device: " ++ dev)
          ∷ text "#OK"
          ∷ lines_of rest
  unfolding header_text text
  header_lines rest s d =
      let after_dev : Bytes = text "#OK" ++ newline ∷ rest in
      let after_server : Bytes = (text "Device: " ++ dev) ++ newline ∷ after_dev in
      let e : (header_text server dev ++ (text "#OK" ++ newline ∷ [])) ++ rest
          ≡ text "#SPP001" ++ newline ∷ ((text "Server: " ++ server) ++ newline ∷ after_server) =
        simp append_assoc in
      ap lines_of e
      ∙ lines_of-append (text "#SPP001") ((text "Server: " ++ server) ++ newline ∷ after_server)
          (omega arith)
      ∙ ap (λ t. text "#SPP001" ∷ t)
          (lines_of-append (text "Server: " ++ server) after_server
              (NoNewline-append (text "Server: ") server (omega arith) s)
            ∙ ap (λ t. (text "Server: " ++ server) ∷ t)
                (lines_of-append (text "Device: " ++ dev) after_dev
                    (NoNewline-append (text "Device: ") dev (omega arith) d)
                  ∙ ap (λ t. (text "Device: " ++ dev) ∷ t)
                      (lines_of-append (text "#OK") rest (omega arith))))

  -- A session of use_dev whose device and lock were granted is, to the driver of SPP programs, a
  -- program that starts and answers each line of the input with what the server replied to it, an
  -- answer or an error, in this order, if each reply can be read back: a line of an answer does not
  -- begin with #, the first line of several is not empty, and an error is one line that is not
  -- empty. Nor has the address of the server or the name of the device a newline.
  pub use_dev-relayed :
      (escapes : Escapes curl) (read_int : Bytes → Result (Option ℕ)) (errpref prog idn : Bytes)
      (input : List Words) (w w' : World)
      → read_int (text "001") ≡ ok (some 1)
      → NoNewline server
      → NoNewline dev
      → set_up curl server dev lock name (header_text server dev, w)
        ≡ (ok tt, (header_text server dev, w'))
      → All IsReadable (server_replies input w')
      → let out = (use_dev curl server join_words dev lock name input ([], w)).1.0 in
        let pipe =
          handshake read_int errpref prog idn
            (record { output = map line (lines_of out); input = [] }) in
        (pipe.0 ≡ ok (client prog idn))
        × (reads (length (server_replies input w')) (client prog idn) pipe.1
            ≡ server_replies input w')
  unfolding text protect
  use_dev-relayed escapes read_int errpref prog idn input w w' version s d h readable =
      let shook =
        handshake_lem read_int errpref prog idn [] hash b'0' 1 (text "01")
          ((text "Server: " ++ server) ∷ (text "Device: " ++ dev) ∷ [])
          (map line (lines_of (replies_text (server_replies input w')))) hash-IsMark version refl in
      rw
        (
          use_dev-output escapes input w w' h,
          header_lines (replies_text (server_replies input w')) s d,
        )
        (
          ap (λ r. r.0) shook,
          ap (λ r. reads (length (server_replies input w')) (client prog idn) r.1) shook
              ∙ reads-replies prog idn [] (server_replies input w') readable,
        )
