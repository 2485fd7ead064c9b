-- ===== src/Server/Responses.antt =====
-- server/http_server.cpp: ProcessRequest over the two calls that the HTTP library makes for one
-- request.
use device.Base.{
  ℕ, ◌≢◌, arith, ◌≡◌, refl, Bool, true, false, beq, text, Bytes, Result, ok, err, crash, none, some,
}
use device.Device.{Drivers}
use device.Manager.{Libs}
use device.Manager.Run.{run}
use device.Server.{Server, Call, Reply, yes, respond, process_request, replied, response}

-- What answers a command that ended in this way.
unfoldable pub Answers : Result Bytes → Result Reply → Type 0
Answers (ok msg) a = a ≡ ok (respond 200 msg none)
Answers (err e) a = a ≡ ok (respond 400 e (some e))
Answers crash a = a ≡ crash

unfoldable pub get_call : Bool → ℕ → Bytes → Call
get_call seen size url = record {
  method = text "GET";
  seen = seen;
  upload_data_size = size;
  url = url;
}

module _ {Opt Drv World : Type 0} (libs : Libs Opt World) (drivers : Drivers Opt Drv World) where
  -- A GET request is run once, in its second call: the first call changes nothing but the mark, and
  -- the second, where it comes without data, leaves the state of the command and answers 200 with
  -- its value, or 400 with its error as the body and as the header.
  pub get_once :
      (cnum size : ℕ) (url : Bytes) (s : Server Opt Drv World)
      → (process_request libs drivers cnum (get_call false size url) s ≡ (ok yes, true, s))
        × Answers
            (run libs drivers url cnum (s.manager, s.world)).0
            (process_request libs drivers cnum (get_call true 0 url) s).0
        × ((process_request libs drivers cnum (get_call true 0 url) s).2.manager
            ≡ (run libs drivers url cnum (s.manager, s.world)).1.0)
        × ((process_request libs drivers cnum (get_call true 0 url) s).2.world
            ≡ (run libs drivers url cnum (s.manager, s.world)).1.1)
  unfolding process_request replied response get_call Answers beq text
  get_once cnum size url s =
      (refl, answered (run libs drivers url cnum (s.manager, s.world)).0, refl, refl)
    where
      answered : (r : Result Bytes) → Answers r (response libs drivers r)
      answered (ok m) = refl
      answered (err e) = refl
      answered crash = refl

  response-caught : (r : Result Bytes) (e : Bytes) → response libs drivers r ≢ err e
  unfolding response
  response-caught (ok m) e = λ x. cc
  response-caught (err m) e = λ x. cc
  response-caught crash e = λ x. cc

  -- ProcessRequest catches what the manager throws.
  pub process_request-caught :
      (cnum : ℕ) (call : Call) (s : Server Opt Drv World) (e : Bytes)
      → (process_request libs drivers cnum call s).0 ≢ err e
  unfolding process_request replied
  process_request-caught cnum call s e =
      ground (arith, response-caught (run libs drivers call.url cnum (s.manager, s.world)).0 e)
