-- ===== src/Driver/Gpib/Closed.antt =====
-- server/drv_gpib.cpp: from the constructor of a device to its destructor.
use device.Base.{
  ℕ, ◌≡◌, refl, sym, ◌∙◌, false, Option, none, some, List, [], ◌∷◌, ◌++◌, Bytes, text, Result, ok,
  err, crash, Exec, continue, Bool-cases, inl, inr, ap, not, ◌&&◌, ◌==◌, length,
}
use device.Driver.Gpib
use device.Driver.Gpib.{
  Ib, Gpib, Failed, Timeout, error_text, get_timeout, delete_gpib, read_if_needed, read_result,
  slept,
}
use device.Driver.Gpib.Handles.{
  HandleLaws, Ends, Does, Any, Does-then, checked_call-Ends, configure-Does,
}
use device.Driver.Gpib.Open.{
  GpibOptions, given, configure, or_closed, opened, open_gpib, new_gpib, gpib_options,
}
use device.Driver.Spp.{same_ignoring_case}
use device.Driver.Utils.{check_read_cond}

module _ {Int World : Type 0} (ib : Ib Int World) where
  -- The device gets messages, and nothing is done with the answers.
  unfoldable pub asked : Gpib → List Bytes → World → World
  asked d [] w = w
  asked d (msg ∷ msgs) w = asked d msgs (Gpib.ask ib d msg w).1

  -- What a constructor leaves open: the handle of the device, which is closed with the device,
  -- or nothing if it throws. `hs` are open before.
  unfoldable pub Settled : (World → List ℕ) → List Bytes → List ℕ → Result Gpib × World → Type 0
  unfolding asked
  Settled handles msgs hs (ok d, w) =
      (handles w ≡ d.dh ∷ hs) × (handles (delete_gpib ib d (asked d msgs w)) ≡ hs)
  Settled handles msgs hs (err e, w) = handles w ≡ hs
  Settled handles msgs hs (crash, w) = Unit {0}

module _ {Int World : Type 0} (ib : Ib Int World) (handles : World → List ℕ)
    (laws : HandleLaws ib handles) where
  read_result-Ends :
      (d : Gpib) (r : (Bytes × Option Failed) × World) (w : World)
      → handles r.1 ≡ handles w
      → Ends handles Any w (read_result ib d r)
  unfolding Ends read_result
  read_result-Ends d ((buf, none), v) w h = (tt, h)
  read_result-Ends d ((buf, some e), v) w h = h

  write-Does : (d : Gpib) (msg : Bytes) → Does handles Any (Gpib.write ib d msg)
  unfolding Gpib.write Does Ends slept
  write-Does d msg =
      Does-then handles _ _ _
        (λ w.
          checked_call-Ends handles _ (ib.ibwrt d.dh (msg ++ d.add) w) w
            (laws.ibwrt-kept d.dh (msg ++ d.add) w))
        (λ a w. elim (Bool-cases d.delays) [
          | inl e ↦ rw e (tt, laws.sleep-kept w)
          | inr e ↦ rw e (tt, refl)
        ])

  read_if_needed-Does : (d : Gpib) (msg : Bytes) → Does handles Any (read_if_needed ib d msg)
  unfolding Does Ends read_if_needed Gpib.read
  read_if_needed-Does d msg w = elim (Bool-cases (check_read_cond msg d.read_cond)) [
    | inl e ↦
        rw e (read_result-Ends d (ib.ibrd d.dh d.bufsize w) w (laws.ibrd-kept d.dh d.bufsize w))
    | inr e ↦ rw e (tt, refl)
  ]

  ask-Does : (d : Gpib) (msg : Bytes) → Does handles Any (Gpib.ask ib d msg)
  unfolding Gpib.ask Does Ends
  ask-Does d msg w =
      elim (Bool-cases (not (length d.idn == 0) && same_ignoring_case msg (text "*idn?"))) [
        | inl e ↦ rw e (tt, refl)
        | inr e ↦
            rw e (Does-then handles Any _ _ (write-Does d msg) (λ a. read_if_needed-Does d msg) w)
      ]

  Ends-kept :
      (r : Result Bytes × World) (w : World) → Ends handles Any w r → handles r.1 ≡ handles w
  unfolding Ends
  Ends-kept (ok a, v) w h = h.1
  Ends-kept (err e, v) w h = h
  Ends-kept (crash, v) w h = h

  asked-kept : (d : Gpib) (msgs : List Bytes) (w : World) → handles (asked ib d msgs w) ≡ handles w
  unfolding asked Does
  asked-kept d [] w = refl
  asked-kept d (msg ∷ msgs) w =
      asked-kept d msgs (Gpib.ask ib d msg w).1
      ∙ Ends-kept (Gpib.ask ib d msg w) w (ask-Does d msg w)

  module _ {F : Type 0} (set : GpibOptions F Int) (msgs : List Bytes) where
    or_closed-Settled :
        (dh : ℕ) (hs : List ℕ) (v : World) (r : Result Gpib × World)
        → handles v ≡ dh ∷ hs
        → Ends handles (λ d. d.dh ≡ dh) v r
        → Settled ib handles msgs hs (or_closed set ib dh r)
    unfolding or_closed Ends Settled delete_gpib
    or_closed-Settled dh hs v (ok d, w) k (e, h) =
        let o : handles w ≡ d.dh ∷ hs = h ∙ (k ∙ ap (λ i. i ∷ hs) (sym e)) in
        (o, laws.ibonl-closed d.dh hs (asked ib d msgs w) (asked-kept d msgs w ∙ o))
    or_closed-Settled dh hs v (err e, w) k h = laws.ibonl-closed dh hs w (h ∙ k)
    or_closed-Settled dh hs v (crash, w) k h = tt

    opened-Settled :
        (errpref : Bytes) (timeout : Timeout) (b a : Int) (t : Timeout) (w : World)
        (r : (ℕ × Option Failed) × World)
        → ib.ibdev b a t w ≡ r
        → Settled ib handles msgs (handles w) (opened set ib errpref timeout r)
    unfolding opened Settled Does
    opened-Settled errpref timeout b a t w ((dh, none), v) h =
        or_closed-Settled dh (handles w) v (configure set ib errpref timeout dh v)
          (laws.ibdev-opened b a t w h) (configure-Does set ib handles laws errpref timeout dh v)
    opened-Settled errpref timeout b a t w ((dh, some e), v) h = laws.ibdev-failed b a t w h

    Settled-given :
        {A : Type 0} (r : Result A) (f : A → Exec World Gpib) (w : World)
        → ((a : A) → Settled ib handles msgs (handles w) (f a w))
        → Settled ib handles msgs (handles w) (continue (r, w) f)
    unfolding Settled
    Settled-given (ok a) f w h = h a
    Settled-given (err e) f w h = refl
    Settled-given crash f w h = tt

    open_gpib-Settled :
        (pref : Bytes) (addr : Int) (w : World)
        → Settled ib handles msgs (handles w) (open_gpib set ib pref addr w)
    unfolding open_gpib given
    open_gpib-Settled pref addr w = Settled-given (set.get_int (text "board") set.no) _ w (λ board.
        Settled-given (get_timeout _ _) _ w (λ t. Settled-given (get_timeout _ _) _ w (λ timeout.
          Settled-given (set.opts.get_bool (text "eot") false) _ w (λ eot.
            Settled-given (set.get_int (text "eos") set.minus_one) _ w (λ eos.
              Settled-given (set.opts.get_bool (text "secondary") false) _ w (λ secondary.
                opened-Settled _ timeout board addr t w (ib.ibdev board addr t w) refl))))))

    -- A device is closed again whatever happens: if the constructor throws, the handles of the
    -- library that are open are those from before; if it returns, only the handle of the device is
    -- open besides, also behind any messages that the device is asked, and the destructor closes
    -- it. Of the library is taken which calls open and close handles; a crash is left out.
    pub new_gpib-Settled : (w : World) → Settled ib handles msgs (handles w) (new_gpib set ib w)
    unfolding new_gpib given Settled
    new_gpib-Settled w = Settled-given (set.opts.check_unknown gpib_options) _ w (λ u.
        Settled-given (set.get_int (text "addr") set.minus_one) _ w (λ addr.
          elim (Bool-cases (set.negative addr)) [
            | inl e ↦ rw e refl
            | inr e ↦ rw e (open_gpib-Settled _ addr w)
          ]))
