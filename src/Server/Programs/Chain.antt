-- ===== src/Server/Programs/Chain.antt =====
-- server/http_server.cpp to server/drv_spp.cpp with server/device_c.cpp: a server whose device is a
-- device of another server, through the client as its program.
use device.Base.{
  ℕ, Bool, ◌≡◌, ◌≢◌, refl, sym, ap, ◌∙◌, arith, none, some, List, [], ◌∷◌, ◌++◌, map, length, All,
  Bytes, text, newline, Result, ok, err, crash,
}
use device.Client.{Curl, use_dev, set_up}
use device.Client.Reading.{
  NoNewline, IsReadable, lines_of, hash, hash-IsMark, ok_lines, error_lines, drop_empty-first,
}
use device.Client.Relay.{header_text, server_replies, use_dev-output, header_lines}
use device.Client.Session.{Escapes, reply_text, replies_text}
use device.Device.{new_device}
use device.Driver.Factory.{Build}
use device.Driver.Objects.{Object, Parts}
use device.Driver.Spp.{line}
use device.Driver.Spp.Open.{IsAccepted}
use device.Driver.Spp.Reading.{protect, answer}
use device.Manager.{Libs, Words}
use device.Manager.Url.{NoSlash}
use device.Map.{bytes_key, lookup}
use device.Server.{Server, Reply, respond}
use device.Server.Programs.{
  Exchange, Said, answers, fails, says, reply, messages, will_print, spp_replies, serve_asks,
  with_objects, Starts,
}
use device.Server.Programs.Session.{spp_served}

-- What the client says for a reply that can be read back.
said : (r : Result Bytes) → IsReadable r → Said
unfolding IsReadable
said (ok v) (l, ls, e, p, h) = answers (l ∷ ls)
said (err e) h = fails [] e
said crash h = absurd h

-- What the other server replied, as this one replies.
abbrev pub relayed : Result Bytes → Result Reply
relayed (ok v) = ok (respond 200 v none)
relayed (err e) = ok (respond 400 e (some e))
relayed crash = crash

reply-said : (r : Result Bytes) (h : IsReadable r) → ok (reply (said r h)) ≡ relayed r
unfolding IsReadable said reply
reply-said (ok v) (l, ls, e, p, h) =
    ap (λ t. ok (respond 200 t none)) (drop_empty-first l ls h ∙ sym e)
reply-said (err e) h = refl
reply-said crash h = absurd h

says-said :
    (r : Result Bytes) (h : IsReadable r) (rest : Bytes)
    → says hash (said r h) (map line (lines_of rest)) ≡ map line (lines_of (reply_text r ++ rest))
unfolding IsReadable said says text
says-said (ok v) (l, ls, e, p, h) rest =
    sym (ok_lines l ls rest p) ∙ ap (λ t. map line (lines_of (reply_text (ok t) ++ rest))) (sym e)
says-said (err []) (ne, h) rest = absurd (ne refl)
says-said (err (c ∷ e)) (ne, h) rest = ap (map line) (sym (error_lines c e rest h))
says-said crash h rest = absurd h

exchanges : List Bytes → (rs : List (Result Bytes)) → All IsReadable rs → List Exchange
exchanges [] rs h = []
exchanges (m ∷ ms) [] h = []
exchanges (m ∷ ms) (r ∷ rs) (h, hs) = (m, said r h) ∷ exchanges ms rs hs

messages-exchanges :
    (ms : List Bytes) (rs : List (Result Bytes)) (h : All IsReadable rs)
    → length ms ≡ length rs
    → messages (exchanges ms rs h) ≡ ms
unfolding messages exchanges
messages-exchanges [] rs h e = refl
messages-exchanges (m ∷ ms) [] h e = absurd (ground arith)
messages-exchanges (m ∷ ms) (r ∷ rs) (h, hs) e =
    ap (λ t. m ∷ t) (messages-exchanges ms rs hs (ground arith))

spp_replies-exchanges :
    (ms : List Bytes) (rs : List (Result Bytes)) (h : All IsReadable rs)
    → length ms ≡ length rs
    → spp_replies (exchanges ms rs h) ≡ map relayed rs
unfolding spp_replies exchanges
spp_replies-exchanges [] [] h e = refl
spp_replies-exchanges [] (r ∷ rs) h e = absurd (ground arith)
spp_replies-exchanges (m ∷ ms) [] h e = absurd (ground arith)
spp_replies-exchanges (m ∷ ms) (r ∷ rs) (h, hs) e =
    rw (reply-said r h) (ap (λ t. relayed r ∷ t) (spp_replies-exchanges ms rs hs (ground arith)))

will_print-exchanges :
    (ms : List Bytes) (rs : List (Result Bytes)) (h : All IsReadable rs)
    → length ms ≡ length rs
    → will_print hash (exchanges ms rs h) [] ≡ map line (lines_of (replies_text rs))
unfolding will_print exchanges replies_text lines_of
will_print-exchanges [] [] h e = refl
will_print-exchanges [] (r ∷ rs) h e = absurd (ground arith)
will_print-exchanges (m ∷ ms) [] h e = absurd (ground arith)
will_print-exchanges (m ∷ ms) (r ∷ rs) (h, hs) e =
    ap (says hash (said r h)) (will_print-exchanges ms rs hs (ground arith))
    ∙ says-said r h (replies_text rs)

-- What the driver writes to the program for these messages.
unfoldable pub written : List Bytes → Bytes
written [] = []
written (m ∷ ms) = m ++ newline ∷ written ms

module _ {Opt F Int Addr Other World Far : Type 0} (libs : Libs Opt World) (build : Build)
    (parts : Parts Opt F Int Addr Other World) (conn : ℕ) (name : Bytes) (args : Opt)
    (curl : Curl Far) (server : Bytes) (join_words : List Bytes → Bytes) (dev conn_name : Bytes)
    (lock : Bool) where
  abbrev far_replies : List Words → Far → List (Result Bytes)
  far_replies = server_replies curl server join_words dev conn_name lock

  abbrev pub ServesReplies :
      List Bytes → List (Result Bytes) → Server Opt (Object Other) World → Type 0
  ServesReplies msgs rs s =
      (serve_asks libs (with_objects libs build parts conn name args) conn name msgs s).0
      ≡ map relayed rs

  -- A program that prints what the client prints, and replies that can be read back.
  served_replies :
      (msgs : List Bytes) (rs : List (Result Bytes)) (s : Server Opt (Object Other) World)
      (w' : World) (readable : All IsReadable rs)
      → name ≢ []
      → NoSlash name
      → lookup name s.manager.devices ≡ some (new_device name (text "spp") args)
      → Starts libs build parts conn name args hash b'0' 1
          (text "01")
          ((text "Server: " ++ server) ∷ (text "Device: " ++ dev) ∷ [])
          (will_print hash (exchanges msgs rs readable) [])
          s.world
          w'
      → length msgs ≡ length rs
      → ServesReplies msgs rs s
  unfolding exchanges serve_asks will_print
  served_replies [] [] s w' h ne plain found st e = refl
  served_replies [] (r ∷ rs) s w' h ne plain found st e = absurd (ground arith)
  served_replies (m ∷ ms) [] s w' h ne plain found st e = absurd (ground arith)
  served_replies (m ∷ ms) (r ∷ rs) s w' (h, hs) ne plain found st e =
      ap
        (λ (l : List Bytes).
          (serve_asks libs (with_objects libs build parts conn name args) conn name l s).0)
        (sym (messages-exchanges (m ∷ ms) (r ∷ rs) (h, hs) e))
      ∙ (spp_served libs build parts conn name args hash b'0' 1 (text "01")
          ((text "Server: " ++ server) ∷ (text "Device: " ++ dev) ∷ []) m (said r h)
          (exchanges ms rs hs) [] s w' ne plain found st).0
      ∙ spp_replies-exchanges (m ∷ ms) (r ∷ rs) (h, hs) e

  client_prints :
      (escapes : Escapes curl) (msgs : List Bytes) (input : List Words) (far far' : Far)
      (readable : All IsReadable (far_replies input far'))
      → NoNewline server
      → NoNewline dev
      → set_up curl server dev lock conn_name (header_text server dev, far)
        ≡ (ok tt, (header_text server dev, far'))
      → length msgs ≡ length (far_replies input far')
      → map line (lines_of (use_dev curl server join_words dev lock conn_name input ([], far)).1.0)
        ≡ line (hash ∷ b'S' ∷ b'P' ∷ b'P' ∷ b'0' ∷ text "01")
          ∷ answer hash
              ((text "Server: " ++ server) ∷ (text "Device: " ++ dev) ∷ [])
              (will_print hash (exchanges msgs (far_replies input far') readable) [])
  unfolding text protect
  client_prints escapes msgs input far far' readable ns nd h e =
      let told = replies_text (far_replies input far') in
      ap (λ t. map line (lines_of t))
        (use_dev-output curl server join_words dev conn_name lock escapes input far far' h)
      ∙ ap (map line) (header_lines curl server join_words dev conn_name lock told ns nd)
      ∙ ap
          (λ t.
            line (text "#SPP001")
            ∷ line (text "Server: " ++ server)
            ∷ line (text "Device: " ++ dev)
            ∷ line (text "#OK")
            ∷ t)
          (sym (will_print-exchanges msgs (far_replies input far') readable e))

  chained_input :
      (escapes : Escapes curl) (msgs : List Bytes) (input : List Words) (far far' : Far)
      (s : Server Opt (Object Other) World) (w' : World)
      → name ≢ []
      → NoSlash name
      → lookup name s.manager.devices ≡ some (new_device name (text "spp") args)
      → IsAccepted parts.read_int
          (parts.net_options args).opts
          parts.open_default
          parts.read_default
          parts.close_default
          parts.start
      → parts.read_int (text "001") ≡ ok (some 1)
      → NoNewline server
      → NoNewline dev
      → set_up curl server dev lock conn_name (header_text server dev, far)
        ≡ (ok tt, (header_text server dev, far'))
      → parts.start ((parts.net_options args).opts.get (text "prog") []) s.world ≡ (
        ok (record {
          output =
              map line
                (lines_of (use_dev curl server join_words dev lock conn_name input ([], far)).1.0);
          input = [];
        }),
        w',
      )
      → All IsReadable (far_replies input far')
      → length msgs ≡ length (far_replies input far')
      → ServesReplies msgs (far_replies input far') s
  unfolding text
  chained_input escapes msgs input far far' s w' ne plain found acc version ns nd h out readable e =
      served_replies msgs (far_replies input far') s w' readable ne plain found
        (record {
          accepted = acc;
          mark = hash-IsMark;
          version = version;
          known = refl;
          output =
              out
              ∙ ap (λ o. (ok (record { output = o; input = [] }), w'))
                  (client_prints escapes msgs input far far' readable ns nd h e);
        })
        e

  -- A device of the driver spp, as the configuration made it, whose program is the client for a
  -- device of another server, and reads the lines that the driver writes: each message and a newline.
  -- Where that server granted the device and the lock, and the client makes as many requests of the
  -- lines as there are messages, each request is answered as the other server replied to the line, 200
  -- with its answer or 400 with its error, in their order. The driver has no text of its own for
  -- *idn?. Each reply can be read back: a line of an answer does not begin with #, the first line of
  -- several is not empty, and an error is one line that is not empty. Nor has the address of the
  -- other server or the name of its device a newline; curl_easy_escape gives a text each time.
  pub chained :
      (escapes : Escapes curl) (read_all : Bytes → List Words) (msgs : List Bytes) (far far' : Far)
      (s : Server Opt (Object Other) World) (w' : World)
      → name ≢ []
      → NoSlash name
      → lookup name s.manager.devices ≡ some (new_device name (text "spp") args)
      → IsAccepted parts.read_int
          (parts.net_options args).opts
          parts.open_default
          parts.read_default
          parts.close_default
          parts.start
      → parts.read_int (text "001") ≡ ok (some 1)
      → NoNewline server
      → NoNewline dev
      → set_up curl server dev lock conn_name (header_text server dev, far)
        ≡ (ok tt, (header_text server dev, far'))
      → parts.start ((parts.net_options args).opts.get (text "prog") []) s.world ≡ (
        ok (record {
          output = map line (
              lines_of
                (use_dev curl server join_words dev lock conn_name
                  (read_all (written msgs))
                  ([], far)).1.0);
          input = [];
        }),
        w',
      )
      → All IsReadable (far_replies (read_all (written msgs)) far')
      → length msgs ≡ length (far_replies (read_all (written msgs)) far')
      → ServesReplies msgs (far_replies (read_all (written msgs)) far') s
  chained escapes read_all msgs = chained_input escapes msgs (read_all (written msgs))
