-- ===== src/Device/Log.antt =====
-- server/device.cpp: the log buffers.
use mathlib.Core.List.{flatten}
use device.Base.{
  ℕ, suc, ◌+◌, ◌-◌, ◌≡◌, ◌≢◌, refl, sym, ap, ◌∙◌, true, false, none, some, List, [], ◌∷◌, ◌++◌, map,
  append-nil, append_assoc, arith, ltb, ◌==◌, length, drop, length-append, length-drop, drop-append,
  drop-drop, Bytes, newline, text, Result, ok, err, crash, inl, inr, Bool-cases,
}
use device.Map.{Map, number_key, has, lookup, lookup-insert, eqb_refl}
use device.Device.{
  Drivers, Device, LogBuf, pop_excess, push_all, drain, log_start, log_get, log_message,
  use_if_needed, ask_driver, asked, log_answer, ask_logged, ask,
}

-- The newest `max` lines of a queue.
unfoldable pub latest : ℕ → LogBuf → LogBuf
latest max q = drop (length q - max) q

pop_excess-latest : (max : ℕ) (q : LogBuf) → pop_excess max q ≡ latest max q
unfolding pop_excess latest
pop_excess-latest max [] = let e : 0 - max ≡ 0 = omega arith in rw e
pop_excess-latest max (l ∷ q) = elim (Bool-cases (ltb max (suc (length q)))) [
  | inl over ↦
      let e : suc (length q) - max ≡ suc (length q - max) = ground arith in
      rw (over, e) (pop_excess-latest max q)
  | inr fits ↦ let e : suc (length q) - max ≡ 0 = ground arith in rw (fits, e)
]

-- Adding a line to the newest ones and limiting again is limiting once.
latest-append :
    (max : ℕ) (q : LogBuf) (l : Bytes)
    → latest max (latest max q ++ l ∷ []) ≡ latest max (q ++ l ∷ [])
unfolding latest
latest-append max q l =
    let k : ℕ = length q - max in
    let whole : k + (length (drop k q ++ l ∷ []) - max) ≡ length (q ++ l ∷ []) - max =
      omega (arith, length-append (drop k q) (l ∷ []), length-append q (l ∷ []), length-drop k q) in
    ap (drop (length (drop k q ++ l ∷ []) - max)) (sym (drop-append k q (l ∷ []) (omega arith)))
    ∙ drop-drop k (length (drop k q ++ l ∷ []) - max) (q ++ l ∷ [])
    ∙ ap (λ n. drop n (q ++ l ∷ [])) whole

drain-flatten : (ret : Bytes) (q : LogBuf) → drain ret q ≡ ret ++ flatten q
unfolding drain flatten
drain-flatten ret [] = sym (append-nil ret)
drain-flatten ret (l ∷ q) = rw (drain-flatten (ret ++ l) q, append_assoc)

lookup-push_all :
    (max : ℕ) (line : Bytes) (c : ℕ) (bufs : Map ℕ LogBuf)
    → lookup c (push_all max line bufs)
      ≡ elim (lookup c bufs) [ none ↦ none | some q ↦ some (pop_excess max (q ++ line ∷ [])) ]
unfolding lookup push_all
lookup-push_all max line c [] = refl
lookup-push_all max line c ((j, q) ∷ bufs) = ground (arith, lookup-push_all max line c bufs)

-- One line of the log: its prefix and its message.
abbrev pub Line : Type 0
Line = Bytes × Bytes

abbrev pub line_text : Line → Bytes
line_text (pref, msg) = pref ++ msg ++ newline ∷ []

latest_nil : (max : ℕ) → latest max [] ≡ []
unfolding latest
latest_nil max = let e : 0 - max ≡ 0 = omega arith in rw e

lookup_nonempty :
    (c : ℕ) (bufs : Map ℕ LogBuf) (q : LogBuf) → lookup c bufs ≡ some q → (length bufs == 0) ≡ false
unfolding lookup
lookup_nonempty c [] q h = cc
lookup_nonempty c (b ∷ bufs) q h = ground arith

module _ {Opt Drv : Type 0} where
  abbrev pub log_lines : List Line → Device Opt Drv → Device Opt Drv
  log_lines [] d = d
  log_lines ((pref, msg) ∷ ls) d = log_lines ls (log_message pref msg d)

  log_message-latest :
      (pref msg : Bytes) (c : ℕ) (q : LogBuf) (d : Device Opt Drv)
      → lookup c d.log_bufs ≡ some (latest d.max_log_size q)
      → (lookup c (log_message pref msg d).log_bufs
          ≡ some (latest d.max_log_size (q ++ line_text (pref, msg) ∷ [])))
        × ((log_message pref msg d).max_log_size ≡ d.max_log_size)
  unfolding log_message
  log_message-latest pref msg c q d h =
      let l = pref ++ msg ++ newline ∷ [] in
      let keep = latest d.max_log_size q in
      rw (lookup_nonempty c d.log_bufs keep h, lookup-push_all d.max_log_size l c d.log_bufs, h)
        (
          ap some (
              pop_excess-latest d.max_log_size (keep ++ l ∷ []) ∙ latest-append d.max_log_size q l),
          refl,
        )

  log_lines-latest :
      (ls : List Line) (max c : ℕ) (q : LogBuf) (d : Device Opt Drv)
      → d.max_log_size ≡ max
      → lookup c d.log_bufs ≡ some (latest max q)
      → lookup c (log_lines ls d).log_bufs ≡ some (latest max (q ++ map line_text ls))
  log_lines-latest [] max c q d e h = rw append-nil h
  log_lines-latest ((pref, msg) ∷ ls) max c q d e h =
      let h' = h ∙ ap (λ m. some (latest m q)) (sym e) in
      let (kept, same) = log_message-latest pref msg c q d h' in
      rw (← append_assoc q (line_text (pref, msg) ∷ []) (map line_text ls)) (
        log_lines-latest ls max c (q ++ line_text (pref, msg) ∷ []) (log_message pref msg d)
          (same ∙ e) (kept ∙ ap (λ m. some (latest m (q ++ line_text (pref, msg) ∷ []))) e))

  log_get_lem :
      (c : ℕ) (q : LogBuf) (d : Device Opt Drv)
      → lookup c d.log_bufs ≡ some q
      → ((log_get c d).0 ≡ ok (flatten q)) × (lookup c (log_get c d).1.log_bufs ≡ some [])
  unfolding log_get
  log_get_lem c q d h =
      rw (h, log_get) (ap ok (drain-flatten [] q), rw (lookup-insert c c [] d.log_bufs, eqb_refl c))

  lookup-log_start : (c : ℕ) (d : Device Opt Drv) → lookup c (log_start c d).log_bufs ≡ some []
  unfolding log_start
  lookup-log_start c d = rw (lookup-insert c c [] d.log_bufs, eqb_refl c)

  -- Whatever was logged before, a connection that starts its log and then reads it after the lines
  -- `ls` gets the text of the newest `max_log_size` of them, the oldest first, and its buffer is
  -- empty again.
  pub log_get-log_start :
      (c : ℕ) (ls : List Line) (d : Device Opt Drv)
      → ((log_get c (log_lines ls (log_start c d))).0
          ≡ ok (flatten (latest d.max_log_size (map line_text ls))))
        × (lookup c (log_get c (log_lines ls (log_start c d))).1.log_bufs ≡ some [])
  log_get-log_start c ls d =
      log_get_lem c (latest d.max_log_size (map line_text ls)) (log_lines ls (log_start c d)) (
        log_lines-latest ls d.max_log_size c [] (log_start c d) (unfold log_start in refl)
          (lookup-log_start c d ∙ ap some (sym (latest_nil d.max_log_size))))

module _ {Opt Drv World : Type 0} (drivers : Drivers Opt Drv World) where
  abbrev pub answer_line : Result Bytes → Line
  answer_line (ok ret) = (text "<< ", ret)
  answer_line (err e) = (text "EE ", e)
  answer_line crash = (text "", [])

  users_asks :
      (conn : ℕ) (msg : Bytes) (d : Device Opt Drv) (w : World)
      → has conn d.users ≡ true
      → ask drivers conn msg (d, w) ≡ ask_logged drivers msg (d, w)
  unfolding ask use_if_needed
  users_asks conn msg d w user = rw user

  drv-log_message : (pref msg : Bytes) (d : Device Opt Drv) → (log_message pref msg d).drv ≡ d.drv
  unfolding log_message
  drv-log_message pref msg d = ground arith

  asked_open :
      (msg : Bytes) (d : Device Opt Drv) (h : Drv) (w : World)
      → d.drv ≡ some h
      → ask_driver drivers msg (d, w) ≡ asked drivers d (drivers.ask h msg w)
  unfolding ask_driver
  asked_open msg d h w e = rw (e, ask_driver)

  -- Both lines of an exchange reach the buffer.
  log_answer-latest :
      (a : Result Bytes × (Drv × World)) (c : ℕ) (q : LogBuf) (d : Device Opt Drv)
      → lookup c d.log_bufs ≡ some (latest d.max_log_size q)
      → a.0 ≢ crash
      → (lookup c (log_answer drivers (asked drivers d a)).1.0.log_bufs
          ≡ some (latest d.max_log_size (q ++ line_text (answer_line a.0) ∷ [])))
        × ((log_answer drivers (asked drivers d a)).0 ≡ a.0)
  unfolding log_answer asked
  log_answer-latest (ok ret, (h, w)) c q d kept safe =
      ((log_message-latest (text "<< ") ret c q (record d { drv = some h }) kept).0, refl)
  log_answer-latest (err e, (h, w)) c q d kept safe =
      ((log_message-latest (text "EE ") e c q (record d { drv = some h }) kept).0, refl)
  log_answer-latest (crash, (h, w)) c q d kept safe = absurd (safe refl)

  -- A connection that uses the device asks while some log is kept: each log buffer gets the message
  -- and then the answer, or the driver's error, as lines, within its limit; and the result is what
  -- the driver answered.
  pub ask-logs :
      (conn c : ℕ) (msg : Bytes) (q : LogBuf) (d : Device Opt Drv) (h : Drv) (w : World)
      → has conn d.users ≡ true
      → d.drv ≡ some h
      → lookup c d.log_bufs ≡ some (latest d.max_log_size q)
      → (drivers.ask h msg w).0 ≢ crash
      → (lookup c (ask drivers conn msg (d, w)).1.0.log_bufs
          ≡ some (
              latest d.max_log_size (
                q
                ++ line_text (text ">> ", msg)
                  ∷ line_text (answer_line (drivers.ask h msg w).0)
                  ∷ [])))
        × ((ask drivers conn msg (d, w)).0 ≡ (drivers.ask h msg w).0)
  unfolding ask_logged
  ask-logs conn c msg q d h w user is_open kept safe =
      let l = line_text (text ">> ", msg) in
      let d' = log_message (text ">> ") msg d in
      let keep = latest d.max_log_size q in
      let (kept', same) = log_message-latest (text ">> ") msg c q d kept in
      let open' = drv-log_message (text ">> ") msg d ∙ is_open in
      let (lines, result) =
        log_answer-latest (drivers.ask h msg w) c (q ++ l ∷ []) d'
          (kept' ∙ ap (λ m. some (latest m (q ++ l ∷ []))) (sym same)) safe in
      let all = append_assoc q (l ∷ []) (line_text (answer_line (drivers.ask h msg w).0) ∷ []) in
      rw
        (
          users_asks conn msg d w user,
          lookup_nonempty c d.log_bufs keep kept,
          asked_open msg d' h w open',
        )
        (
          lines
              ∙ ap
                  (λ m. some (
                    latest m
                      ((q ++ l ∷ []) ++ line_text (answer_line (drivers.ask h msg w).0) ∷ [])))
                  same
              ∙ ap (λ ls. some (latest d.max_log_size ls)) all,
          result,
        )
