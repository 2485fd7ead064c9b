-- ===== src/Server/Listing.antt =====
-- server/http_server.cpp and server/dev_manager.cpp: the list of the devices after any history of
-- the server.
use device.Base.{
  ℕ, ◌≡◌, refl, sym, subst, ◌∙◌, ap, false, true, none, ◌⊎◌, inl, inr, List, [], ◌∷◌, All, Bytes,
  text, beq, ok,
}
use device.Client.Reading.{NoNewline, lines_of, lines_of-append}
use device.Device.{Drivers}
use device.Manager.{Libs}
use device.Manager.Entries.{IsAllowed}
use device.Manager.Listing.{
  IsName, AreNames, name_text, AreListed, AreListed-IsKept, call_device-AreListed, run_listed,
  no_names,
}
use device.Manager.Run.{run}
use device.Map.{bytes_key, has}
use device.Map.Names.{keys, occurs, has-keys}
use device.Server.{Server, process_request, replied, response, respond, new_server, Reach}
use device.Server.Kept.{new_server_stays, Reach_stays}
use device.Server.Responses.{get_call}

valid-NoNewline : (n : Bytes) → All IsAllowed n → NoNewline n
valid-NoNewline [] h = tt
valid-NoNewline (c ∷ n) (h, hs) = (h.no_newline, valid-NoNewline n hs)

lines_of-name_text : (ns : List Bytes) → All IsName ns → lines_of (name_text ns) ≡ ns
unfolding name_text
lines_of-name_text [] a = unfold lines_of in refl
lines_of-name_text (n ∷ ns) a =
    lines_of-append n (name_text ns) (valid-NoNewline n a.0.valid)
    ∙ ap (λ l. n ∷ l) (lines_of-name_text ns a.1)

-- The two requests for the list.
unfoldable pub AsksList : Bytes → Type 0
AsksList url = (url ≡ text "/list") ⊎ (url ≡ text "/devices")

module _ {Opt Drv World : Type 0} (libs : Libs Opt World) (drivers : Drivers Opt Drv World) where
  -- A request that gives a text and changes nothing is answered so.
  answered :
      (cnum : ℕ) (url : Bytes) (s : Server Opt Drv World) {body : Bytes}
      → run libs drivers url cnum (s.manager, s.world) ≡ (ok body, (s.manager, s.world))
      → process_request libs drivers cnum (get_call true 0 url) s
        ≡ (ok (respond 200 body none), false, s)
  unfolding process_request replied response get_call beq text
  answered cnum url s e = ap (replied libs drivers s.cmax) e

  list_request :
      (cnum : ℕ) (url : Bytes) (s : Server Opt Drv World)
      → AsksList url
      → process_request libs drivers cnum (get_call true 0 url) s
        ≡ (ok (respond 200 (name_text (keys s.manager.devices)) none), false, s)
  unfolding AsksList
  list_request cnum url s h =
      let (e, f) = run_listed libs drivers cnum s.manager s.world in
      elim h [
        | inl p ↦ answered cnum url s (ap (λ u. run libs drivers u cnum (s.manager, s.world)) p ∙ e)
        | inr p ↦ answered cnum url s (ap (λ u. run libs drivers u cnum (s.manager, s.world)) p ∙ f)
      ]

  listed :
      (devfile : Bytes) (w : World) {t : Server Opt Drv World}
      → Reach libs drivers (new_server libs drivers devfile w) t
      → AreNames (keys t.manager.devices)
  unfolding AreListed
  listed devfile w r =
      Reach_stays libs drivers AreListed (AreListed-IsKept libs)
        (call_device-AreListed libs drivers)
        (new_server_stays libs drivers AreListed (AreListed-IsKept libs)
          (call_device-AreListed libs drivers) devfile w (unfold keys in no_names))
        r

  -- After any history of the server, a request for the list of devices is answered 200 and changes
  -- nothing. The lines of the answer are the names that have a device, each once, in the order of
  -- the bytes; each is a name that the configuration allows.
  pub history_listed :
      (devfile : Bytes) (w : World) {t : Server Opt Drv World} (cnum : ℕ) (url : Bytes)
      → Reach libs drivers (new_server libs drivers devfile w) t
      → AsksList url
      → (body : Bytes) × (process_request libs drivers cnum (get_call true 0 url) t
          ≡ (ok (respond 200 body none), false, t))
        × AreNames (lines_of body)
        × ((n : Bytes) → has n t.manager.devices ≡ occurs n (lines_of body))
  history_listed devfile w {t} cnum url r h =
      let v = listed devfile w r in
      let e = lines_of-name_text (keys t.manager.devices) v.each in
      (
        name_text (keys t.manager.devices),
        list_request cnum url t h,
        subst AreNames (sym e) v,
        λ n. has-keys n t.manager.devices ∙ ap (occurs n) (sym e),
      )
