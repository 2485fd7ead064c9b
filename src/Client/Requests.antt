-- ===== src/Client/Requests.antt =====
-- server/device_c.cpp with server/http_server.cpp and server/dev_manager.cpp: what a request of the
-- client does on the server. libcurl and the HTTP library between them are arguments; of the latter
-- the path comes unescaped, and a text with a zero byte is cut there.
use device.Base.{
  ℕ, Option, none, some, ◌≡◌, ◌≢◌, true, [], ◌∷◌, ◌++◌, All, Bytes, Result, ok, err, crash,
}
use device.Client.{Transfer, broken, finished, Curl, url_part, url_path}
use device.Client.Paths.{NotDots, IsPlainPath, Ends}
use device.Device.{Drivers}
use device.Manager.{Libs, Manager}
use device.Manager.Url.{NoSlash, slash}
use device.Map.{bytes_key}
use device.Server.{Server, Reply, respond, process_request}
use device.Server.Responses.{get_call}

abbrev pub NoZero : Bytes → Type 0
NoZero = All (λ c. c ≢ 0)

-- What libcurl sees of a reply, where `dropped` is its error for a connection that is cut.
abbrev pub transfer_of : Bytes → Result Reply → Transfer
transfer_of dropped (ok (respond code body e)) = finished code body
transfer_of dropped _ = broken dropped

-- How the outcome of a request reaches the client: an answer or an error as it is.
abbrev pub told :
    {Opt Drv World : Type 0}
    → Bytes
    → ℕ
    → Result Bytes × (Manager Opt Drv × World)
    → Result Bytes × Server Opt Drv World
told dropped cmax (ok v, (m, w)) = (ok v, record { manager = m; world = w; cmax = cmax })
told dropped cmax (err e, (m, w)) = (err e, record { manager = m; world = w; cmax = cmax })
told dropped cmax (crash, (m, w)) = (err dropped, record { manager = m; world = w; cmax = cmax })

module _ {Opt Drv World : Type 0} (libs : Libs Opt World) (drivers : Drivers Opt Drv World)
    (curl : Curl (Server Opt Drv World)) (server : Bytes) (conn : ℕ) (dropped : Bytes) where
  -- The text is escaped: without a slash, and as it was where the escapes are taken out. A text is not
  -- made one of the dots . and .. that libcurl removes.
  pub record IsForm (unescape : Bytes → Bytes) (s e : Bytes) : Type 0 where
    pub no_slash : NoSlash e
    pub no_dots : NotDots s → NotDots e
    pub back : (t : Bytes) → unescape (e ++ t) ≡ s ++ unescape t

  abbrev pub IsEscaped : (Bytes → Bytes) → Bytes → Option Bytes → Type 0
  IsEscaped unescape s none = ⊥
  IsEscaped unescape s (some e) = IsForm unescape s e

  -- libcurl and the HTTP library hand each URL on the server whose path has no dot segments to
  -- process_request, on the connection `conn`, its path unescaped. Escaping does not fail.
  pub record IsServed (unescape : Bytes → Bytes) : Type 0 where
    pub perform :
        (path : Bytes) (s : Server Opt Drv World)
        → IsPlainPath path
        → curl.curl_easy_perform (server ++ path) s ≡ (
            let (r, b, t) = process_request libs drivers conn (get_call true 0 (unescape path)) s in
            (transfer_of dropped r, t))
    pub ended : unescape [] ≡ []
    pub slashes : (t : Bytes) → unescape (slash ∷ t) ≡ slash ∷ unescape t
    pub escaped : (s : Bytes) → NoZero s → IsEscaped unescape s (curl.curl_easy_escape s)

  module _ (unescape : Bytes → Bytes) (served : IsServed unescape) where
    -- The part for an argument, as the server sees it.
    abbrev seen : Bytes → Bytes
    seen [] = []
    seen (c ∷ s) = slash ∷ c ∷ s

    -- An argument as part of the path.
    record IsPart (s e : Bytes) : Type 0 where
      given : url_part curl s ≡ some e
      ends : (t : Bytes) → Ends t → Ends (e ++ t)
      seen_back : (t : Bytes) → unescape (e ++ t) ≡ seen s ++ unescape t

    -- The path of a request: without dot segments, and with its parts as they were where the escapes
    -- are taken out.
    record IsPath (act dev cmd p : Bytes) : Type 0 where
      given : url_path curl act dev cmd ≡ some p
      plain : IsPlainPath p
      seen_path : unescape p ≡ slash ∷ (act ++ (seen dev ++ seen cmd))
