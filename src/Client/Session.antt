-- ===== src/Client/Session.antt =====
-- The loops of use_dev and use_srv of server/device_c.cpp: what they print, as the replies to the
-- commands that they read.
use device.Base.{
  Option, none, some, ◌≡◌, ◌≢◌, refl, sym, ◌∙◌, arith, false, List, [], ◌∷◌, ◌++◌, append_assoc,
  append-nil, length, ◌==◌, if◌then◌else◌, Bytes, text, newline, Result, ok, err, crash, Exec,
  continue,
}
use device.Client.{
  Session, Curl, Transfer, broken, finished, put_text, report, caught, ask_server, answer_command,
  each_line, received, performed, url_part, url_path, joined, get, srv_command,
}
use device.Manager.{Words, words, failed}

-- The reply to each line of the input, up to an empty one.
unfoldable pub replies :
    {World : Type 0} → (List Bytes → Exec World Bytes) → List Words → World → List (Result Bytes)
replies command [] w = []
replies command (failed e ∷ input) w = err e ∷ replies command input w
replies command (words [] ∷ input) w = []
replies command (words (p ∷ pars) ∷ input) w =
    let (r, w') = command (p ∷ pars) w in r ∷ replies command input w'

-- What is printed for a reply: nothing for an error without a text.
unfoldable pub reply_text : Result Bytes → Bytes
reply_text (ok v) = v ++ newline ∷ (text "#OK" ++ newline ∷ [])
reply_text (err []) = []
reply_text (err (c ∷ e)) = text "#Error: " ++ ((c ∷ e) ++ newline ∷ [])
reply_text crash = []

unfoldable pub replies_text : List (Result Bytes) → Bytes
unfolding reply_text
replies_text [] = []
replies_text (r ∷ rs) = reply_text r ++ replies_text rs

shown :
    (e : Bytes)
    → (if length e == 0 then [] else text "#Error: " ++ (e ++ newline ∷ [])) ≡ reply_text (err e)
unfolding reply_text
shown [] = refl
shown (c ∷ e) = let k : (length (c ∷ e) == 0) ≡ false = ground arith in rw k refl

module _ {World : Type 0} where
  printed :
      (v out : Bytes) (w : World)
      → caught (
          continue
            (put_text (v ++ newline ∷ []) (out, w))
            (λ _. put_text (text "#OK" ++ newline ∷ [])))
        ≡ (ok tt, (out ++ reply_text (ok v), w))
  unfolding caught put_text reply_text
  printed v out w = simp append_assoc

  thrown :
      (e out : Bytes) (w : World)
      → caught (err e, (out, w)) ≡ (ok tt, (out ++ reply_text (err e), w))
  unfolding caught report put_text
  thrown e out w = rw (shown e) refl

  answer_command-reply :
      (m : Exec World Bytes) (out : Bytes) (w : World)
      → (m w).0 ≢ crash
      → caught (answer_command m (out, w)) ≡ (ok tt, (out ++ reply_text (m w).0, (m w).1))
  unfolding answer_command ask_server
  answer_command-reply m out w safe = go (m w) safe
    where
      go :
          (r : Result Bytes × World)
          → r.0 ≢ crash
          → caught (
              continue {S = Session World}
                (r.0, (out, r.1))
                (λ ret s.
                  continue
                    (put_text (ret ++ newline ∷ []) s)
                    (λ _. put_text (text "#OK" ++ newline ∷ []))))
            ≡ (ok tt, (out ++ reply_text r.0, r.1))
      go (ok v, x) h = printed v out x
      go (err e, x) h = thrown e out x
      go (crash, x) h = absurd (h refl)

  -- The loop prints the replies to its lines, one behind the other, and does not throw.
  pub each_line-replies :
      (command : List Bytes → Exec World Bytes)
      → ((pars : List Bytes) (w : World) → (command pars w).0 ≢ crash)
      → (input : List Words) (out : Bytes) (w : World)
      → ((each_line command input (out, w)).0 ≡ ok tt)
        × ((each_line command input (out, w)).1.0 ≡ out ++ replies_text (replies command input w))
  unfolding each_line replies replies_text
  each_line-replies command safe [] out w = (refl, sym (append-nil out))
  each_line-replies command safe (failed e ∷ input) out w = rw (shown e) (
      let (a, b) = each_line-replies command safe input (out ++ reply_text (err e)) w in
      (a, b ∙ append_assoc out _ _))
  each_line-replies command safe (words [] ∷ input) out w = (refl, sym (append-nil out))
  each_line-replies command safe (words (p ∷ pars) ∷ input) out w =
      rw (answer_command-reply (command (p ∷ pars)) out w (safe (p ∷ pars) w)) (
        let (a, b) =
          each_line-replies command safe input (out ++ reply_text (command (p ∷ pars) w).0)
            (command (p ∷ pars) w).1 in
        (a, b ∙ append_assoc out _ _))

-- curl_easy_escape always gives a text.
abbrev pub Escapes : {World : Type 0} → Curl World → Type 0
Escapes curl = (s : Bytes) → curl.curl_easy_escape s ≢ none

module _ {World : Type 0} (curl : Curl World) (server : Bytes) (escapes : Escapes curl) where
  url_part-Escapes : (s : Bytes) → url_part curl s ≢ none
  unfolding url_part
  url_part-Escapes [] = λ e. cc
  url_part-Escapes (c ∷ s) = ground (arith, escapes (c ∷ s))

  url_path-Escapes : (act dev cmd : Bytes) → url_path curl act dev cmd ≢ none
  unfolding url_path joined
  url_path-Escapes act dev cmd =
      ground (arith, escapes act, url_part-Escapes dev, url_part-Escapes cmd)

  -- Then no request of the client crashes.
  pub get-safe : (act dev cmd : Bytes) (w : World) → (get curl server act dev cmd w).0 ≢ crash
  unfolding get performed received
  get-safe act dev cmd w = go (url_path curl act dev cmd) (url_path-Escapes act dev cmd)
    where
      got : (t : Transfer × World) → (received t).0 ≢ crash
      got (broken e, x) h = cc
      got (finished code body, x) h = ground arith

      go : (p : Option Bytes) → p ≢ none → (performed curl server p w).0 ≢ crash
      go none n = absurd (n refl)
      go (some p) n = got (curl.curl_easy_perform (server ++ p) w)

  pub srv_command-safe :
      (pars : List Bytes) (w : World) → (srv_command curl server pars w).0 ≢ crash
  unfolding srv_command
  srv_command-safe [] w = get-safe [] [] [] w
  srv_command-safe (a ∷ []) w = get-safe a [] [] w
  srv_command-safe (a ∷ b ∷ []) w = get-safe a b [] w
  srv_command-safe (a ∷ b ∷ c ∷ []) w = get-safe a b c w
  srv_command-safe (a ∷ b ∷ c ∷ d ∷ ps) w = λ h. cc
