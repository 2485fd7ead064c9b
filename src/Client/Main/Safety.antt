-- ===== src/Client/Main/Safety.antt =====
-- server/device_c.cpp: no parameter is read past the end of the vector.
use device.Base.{
  ℕ, zero, suc, ◌≡◌, ◌≢◌, ◌<◌, refl, arith, true, false, ◌||◌, inl, inr, Bool-cases, List, [], ◌∷◌,
  ◌++◌, length, ltb, ◌==◌, Bytes, text, newline, ok, err, crash, Exec, throw, ◌>>=◌, ◌>>◌,
}
use device.Client.{Curl, Session, put_text, ask_server, send, show_answer, get, use_srv, monitor}
use device.Client.Main.{
  at, check_par_count, Settings, ask_action, plain_action, ping_action, run_client_action,
  ClientAction, client_action, asks, uses_dev, uses_srv, lists, monitors, prints_line, closes,
  infos, pings, gets_srv, unknown, Outside, outside, given, server_url, act_on, with_options, main,
}
use device.Driver.Setup.{Options}
use device.Manager.{Words}
use device.Client.Session.{Escapes}
use device.Client.Safety.{
  continue-IsSafe, then-IsSafe, if-IsSafe, put_text-IsSafe, fetch, send-IsSafe, show_answer-IsSafe,
  monitor-IsSafe, use_srv-IsSafe, use_dev-IsSafe, IsSafe,
}

at_found : (pars : List Bytes) (n : ℕ) → n < length pars → (p : Bytes) × (at pars n ≡ ok p)
unfolding at
at_found [] n h = absurd (omega arith)
at_found (p ∷ pars) zero h = (p, refl)
at_found (p ∷ pars) (suc n) h = at_found pars n (omega arith)

module _ {S : Type 0} (par : Bytes) (pars : List Bytes) (n : ℕ) (s : S) (ne : n ≢ 0) where
  check_par_count-same : length (par ∷ pars) ≡ n → check_par_count (par ∷ pars) n s ≡ (ok tt, s)
  unfolding check_par_count
  check_par_count-same e =
      let a : ltb n 1 ≡ false = ground arith in
      let b : ltb n (length (par ∷ pars)) ≡ false = ground arith in
      let c : ltb (length (par ∷ pars)) n ≡ false = ground arith in rw (a, b, c) refl

  -- Another number of parameters is refused with an error.
  check_par_count-other :
      length (par ∷ pars) ≢ n → (e : Bytes) × (check_par_count (par ∷ pars) n s ≡ (err e, s))
  unfolding check_par_count at
  check_par_count-other e =
      let a : ltb n 1 ≡ false = ground arith in
      elim (Bool-cases (ltb n (length (par ∷ pars)))) [
        | inl b ↦ let (p, h) = at_found (par ∷ pars) n (ground arith) in rw (a, b, h) (_, refl)
        | inr b ↦
            let c : ltb (length (par ∷ pars)) n ≡ true = ground arith in rw (a, b, c) (_, refl)
      ]

module _ {World : Type 0} where
  -- What follows is run for the right number of parameters only.
  counted :
      (par : Bytes) (pars : List Bytes) (n : ℕ) (f : Exec (Session World) (Unit {0}))
      → n ≢ 0
      → (length (par ∷ pars) ≡ n → IsSafe f)
      → IsSafe (do check_par_count (par ∷ pars) n; f)
  counted par pars n f ne k s = elim (Bool-cases (length (par ∷ pars) == n)) [
    | inl e ↦ rw (check_par_count-same par pars n s ne (ground arith)) (k (ground arith) s)
    | inr e ↦ rw ((check_par_count-other par pars n s ne (ground arith)).1) (λ x. cc)
  ]

  -- `f` gets the one parameter behind the action.
  with_device :
      (par : Bytes) (pars : List Bytes) (f : Bytes → Exec (Session World) (Unit {0}))
      → ((dev : Bytes) → IsSafe (f dev))
      → IsSafe (do check_par_count (par ∷ pars) 2; dev ← (λ s. (at (par ∷ pars) 1, s)); f dev)
  with_device par pars f k =
      counted par pars 2 (do dev ← (λ s. (at (par ∷ pars) 1, s)); f dev) (omega arith)
        (λ e s. let (p, h) = at_found (par ∷ pars) 1 (omega arith) in rw h (k p s))

module _ {World : Type 0} (curl : Curl World) (join_words : List Bytes → Bytes) (set : Settings)
    (escapes : Escapes curl) where
  ask_action-IsSafe : (pars : List Bytes) → IsSafe (ask_action curl join_words set pars)
  unfolding ask_action
  ask_action-IsSafe [] s = λ x. cc
  ask_action-IsSafe (a ∷ []) s = λ x. cc
  ask_action-IsSafe (a ∷ b ∷ []) s = λ x. cc
  ask_action-IsSafe (a ∷ b ∷ c ∷ ps) s =
      continue-IsSafe (ask_server (get curl set.srv a b (join_words (c ∷ ps))) s) _
        (fetch curl set.srv escapes a b (join_words (c ∷ ps)) s)
        (λ ret.
          then-IsSafe (put_text (ret ++ newline ∷ [])) (send curl set.srv (text "release") b)
            (put_text-IsSafe (ret ++ newline ∷ []))
            (send-IsSafe curl set.srv escapes (text "release") b))

  plain-IsSafe :
      (act par : Bytes) (pars : List Bytes) (end : Bytes)
      → IsSafe (plain_action curl join_words set act (par ∷ pars) end)
  unfolding plain_action
  plain-IsSafe act par pars end = counted par pars 1 _ (omega arith) (λ e.
      then-IsSafe (show_answer curl set.srv act [] []) (put_text end)
        (show_answer-IsSafe curl set.srv escapes act [] []) (put_text-IsSafe end))

  ping-IsSafe :
      (par : Bytes) (pars : List Bytes) → IsSafe (ping_action curl join_words set (par ∷ pars))
  unfolding ping_action
  ping-IsSafe par pars = counted par pars 1 _ (omega arith) (λ e s.
      continue-IsSafe (ask_server (get curl set.srv (text "ping") [] []) s) _
        (fetch curl set.srv escapes (text "ping") [] [] s) (λ ret t. ground arith))

  run_client_action-IsSafe :
      (a : ClientAction) (rounds : ℕ) (input : List Words) (action : Bytes) (pars : List Bytes)
      → IsSafe (run_client_action curl join_words set a rounds input action (action ∷ pars))
  unfolding run_client_action
  run_client_action-IsSafe asks rounds input action pars = ask_action-IsSafe (action ∷ pars)
  run_client_action-IsSafe uses_dev rounds input action pars =
      with_device action pars _
        (λ dev. use_dev-IsSafe curl set.srv escapes join_words dev set.lock set.name input)
  run_client_action-IsSafe uses_srv rounds input action pars =
      counted action pars 1 (use_srv curl set.srv input) (omega arith)
        (λ e. use_srv-IsSafe curl set.srv escapes input)
  run_client_action-IsSafe lists rounds input action pars = plain-IsSafe action action pars []
  run_client_action-IsSafe monitors rounds input action pars =
      with_device action pars (monitor curl set.srv rounds)
        (monitor-IsSafe curl set.srv escapes rounds)
  run_client_action-IsSafe prints_line rounds input action pars =
      plain-IsSafe action action pars (newline ∷ [])
  run_client_action-IsSafe closes rounds input action pars =
      with_device action pars (send curl set.srv action) (send-IsSafe curl set.srv escapes action)
  run_client_action-IsSafe infos rounds input action pars =
      with_device action pars (λ dev. show_answer curl set.srv action dev [])
        (λ dev. show_answer-IsSafe curl set.srv escapes action dev [])
  run_client_action-IsSafe pings rounds input action pars = ping-IsSafe action pars
  run_client_action-IsSafe gets_srv rounds input action pars =
      counted action pars 1 (put_text (set.srv ++ newline ∷ [])) (omega arith)
        (λ e. put_text-IsSafe (set.srv ++ newline ∷ []))
  run_client_action-IsSafe unknown rounds input action pars = λ s x. cc

module _ {F World : Type 0} (curl : Curl World) (join_words : List Bytes → Bytes)
    (out : Outside F World) (escapes : Escapes curl) where
  outside-IsSafe :
      {A : Type 0} (m : Exec World A) → IsSafe m → IsSafe (outside curl join_words out m)
  unfolding outside
  outside-IsSafe m h (printed, w) = h w

  server_url-IsSafe :
      (opts : Options F) (port : Bytes)
      → IsSafe (out.create_tunnel opts)
      → IsSafe (server_url curl join_words out opts port)
  unfolding server_url
  server_url-IsSafe opts port h =
      if-IsSafe (opts.exists (text "via")) _ _ (outside-IsSafe (out.create_tunnel opts) h)
        (λ s x. cc)

  act_on-IsSafe :
      (rounds : ℕ) (input : List Words) (set : Settings) (pars : List Bytes)
      → IsSafe (act_on curl join_words out rounds input set pars)
  unfolding act_on
  act_on-IsSafe rounds input set [] s = λ x. cc
  act_on-IsSafe rounds input set (action ∷ pars) s =
      run_client_action-IsSafe curl join_words set escapes (client_action action) rounds input
        action pars s

  -- Whatever the parameters are, whatever the transfers of libcurl give, and for any number of rounds of
  -- monitor, the client does not run into undefined behaviour: no parameter is read past the end of
  -- the vector, and no null pointer is added to a URL, as curl_easy_escape is taken to give a text
  -- each time. Reading the options and opening the tunnel do not crash.
  pub main-IsSafe :
      (rounds : ℕ) (input : List Words) (pars : List Bytes)
      → IsSafe out.with_conf
      → ((opts : Options F) (name : Bytes) (n : ℕ) → out.int_text opts name n ≢ crash)
      → ((opts : Options F) → IsSafe (out.create_tunnel opts))
      → IsSafe (main curl join_words out rounds input pars)
  unfolding main with_options given
  main-IsSafe rounds input pars conf int tunnel =
      if-IsSafe (out.opts.exists (text "help") || out.opts.exists (text "pod")) (throw []) _
        (λ s x. cc)
        (λ s.
          continue-IsSafe (outside curl join_words out out.with_conf s) _
            (outside-IsSafe out.with_conf conf s)
            (λ opts t.
              continue-IsSafe (given curl join_words out (out.int_text opts (text "port") 8082) t) _
                (int opts (text "port") 8082)
                (λ port u.
                  continue-IsSafe (server_url curl join_words out opts port u) _
                    (server_url-IsSafe opts port (tunnel opts) u)
                    (λ srv. act_on-IsSafe rounds input _ pars))))
