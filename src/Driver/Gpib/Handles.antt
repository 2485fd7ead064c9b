-- ===== src/Driver/Gpib/Handles.antt =====
-- server/drv_gpib.cpp: the handles of the GPIB library that a device keeps open.
use device.Base.{
  ℕ, ◌≡◌, refl, ◌∙◌, Bool, false, Option, none, some, List, ◌∷◌, Bytes, text, Result, ok, err,
  crash, Exec, continue, ◌>>=◌, Bool-cases, inl, inr,
}
use device.Driver.Gpib.{Ib, Failed, Timeout, checked_call, eos_flags}
use device.Driver.Gpib.Open.{
  GpibOptions, given, if_given, set_eot, set_eos, set_secondary, gpib_fields, configure,
}
use device.Driver.Setup.{Flags}
use device.Driver.Utils.{str_to_read_cond}

-- What the library promises of the handles that are open: ibdev opens one unless it fails, ibonl
-- closes the one it gets, the other calls open and close none.
pub record HandleLaws {Int World : Type 0} (ib : Ib Int World) (handles : World → List ℕ)
    : Type 0 where
  pub ibdev-opened :
      (b a : Int) (t : Timeout) (w : World) {dh : ℕ} {w' : World}
      → ib.ibdev b a t w ≡ ((dh, none), w')
      → handles w' ≡ dh ∷ handles w
  pub ibdev-failed :
      (b a : Int) (t : Timeout) (w : World) {dh : ℕ} {e : Failed} {w' : World}
      → ib.ibdev b a t w ≡ ((dh, some e), w')
      → handles w' ≡ handles w
  pub ibclr-kept : (dh : ℕ) (w : World) → handles (ib.ibclr dh w).1 ≡ handles w
  pub ibtmo-kept : (dh : ℕ) (t : Timeout) (w : World) → handles (ib.ibtmo dh t w).1 ≡ handles w
  pub ibeot-kept : (dh : ℕ) (v : Bool) (w : World) → handles (ib.ibeot dh v w).1 ≡ handles w
  pub ibeos-kept : (dh : ℕ) (v : Flags) (w : World) → handles (ib.ibeos dh v w).1 ≡ handles w
  pub ibsad-kept : (dh : ℕ) (v : Int) (w : World) → handles (ib.ibsad dh v w).1 ≡ handles w
  pub ibrd-kept : (dh n : ℕ) (w : World) → handles (ib.ibrd dh n w).1 ≡ handles w
  pub ibwrt-kept : (dh : ℕ) (msg : Bytes) (w : World) → handles (ib.ibwrt dh msg w).1 ≡ handles w
  pub sleep-kept : (w : World) → handles (ib.sleep w) ≡ handles w
  pub ibonl-closed :
      (dh : ℕ) (hs : List ℕ) (w : World) → handles w ≡ dh ∷ hs → handles (ib.ibonl dh w) ≡ hs

abbrev pub Any : {A : Type 0} → A → Type 0
Any a = Unit {0}

module _ {World : Type 0} (handles : World → List ℕ) where
  -- The open handles are those of `w`, and a result has the property.
  unfoldable pub Ends : {A : Type 0} → (A → Type 0) → World → Result A × World → Type 0
  Ends P w (ok a, w') = P a × (handles w' ≡ handles w)
  Ends P w (err e, w') = handles w' ≡ handles w
  Ends P w (crash, w') = handles w' ≡ handles w

  unfoldable pub Does : {A : Type 0} → (A → Type 0) → Exec World A → Type 0
  unfolding Ends
  Does P m = (w : World) → Ends P w (m w)

  Ends-moved :
      {A : Type 0} (P : A → Type 0) (r : Result A × World) {w w' : World}
      → handles w' ≡ handles w
      → Ends P w' r
      → Ends P w r
  unfolding Ends
  Ends-moved P (ok a, v) h (p, k) = (p, k ∙ h)
  Ends-moved P (err e, v) h k = k ∙ h
  Ends-moved P (crash, v) h k = k ∙ h

  pub Ends-continue :
      {A B : Type 0} (P : B → Type 0) (r : Result A × World) (f : A → Exec World B) (w : World)
      → Ends Any w r
      → ((a : A) → Does P (f a))
      → Ends P w (continue r f)
  unfolding Ends Does
  Ends-continue P (ok a, v) f w (u, h) k = Ends-moved P (f a v) h (k a v)
  Ends-continue P (err e, v) f w h k = h
  Ends-continue P (crash, v) f w h k = h

  -- One step, and what stands behind it.
  pub Does-then :
      {A B : Type 0} (P : B → Type 0) (m : Exec World A) (f : A → Exec World B)
      → Does Any m
      → ((a : A) → Does P (f a))
      → Does P (m >>= f)
  unfolding Does
  Does-then P m f h k w = Ends-continue P (m w) f w (h w) k

  pub Does-given : {A : Type 0} (r : Result A) → Does Any (λ w. (r, w))
  unfolding Does Ends
  Does-given (ok a) w = (tt, refl)
  Does-given (err e) w = refl
  Does-given crash w = refl

  pub checked_call-Ends :
      (what : Bytes) (r : Option Failed × World) (w : World)
      → handles r.1 ≡ handles w
      → Ends Any w (checked_call what r)
  unfolding Ends checked_call
  checked_call-Ends what (none, v) w h = (tt, h)
  checked_call-Ends what (some e, v) w h = h

module _ {F Int World : Type 0} (set : GpibOptions F Int) (ib : Ib Int World)
    (handles : World → List ℕ) (laws : HandleLaws ib handles) where
  if_given-Does :
      (name : Bytes) (m : Exec World (Unit {0}))
      → Does handles Any m
      → Does handles Any (if_given set ib name m)
  unfolding Does Ends if_given
  if_given-Does name m h w = elim (Bool-cases (set.opts.exists name)) [
    | inl e ↦ rw e (h w)
    | inr e ↦ rw e (tt, refl)
  ]

  set_eot-Does : (errpref : Bytes) (dh : ℕ) → Does handles Any (set_eot set ib errpref dh)
  unfolding set_eot given Does
  set_eot-Does errpref dh =
      Does-then handles Any _ _ (Does-given handles (set.opts.get_bool (text "eot") false))
        (λ v w. checked_call-Ends handles _ (ib.ibeot dh v w) w (laws.ibeot-kept dh v w))

  set_eos-Does : (errpref : Bytes) (dh : ℕ) → Does handles Any (set_eos set ib errpref dh)
  unfolding set_eos given Does
  set_eos-Does errpref dh =
      Does-then handles Any _ _ (Does-given handles (set.get_int (text "eos") set.no)) (λ eos.
        Does-then handles Any _ _
          (Does-given handles (eos_flags set.eos_bits _ (set.low_byte eos) _))
          (λ ch w. checked_call-Ends handles _ (ib.ibeos dh ch w) w (laws.ibeos-kept dh ch w)))

  set_secondary-Does :
      (errpref : Bytes) (dh : ℕ) → Does handles Any (set_secondary set ib errpref dh)
  unfolding set_secondary given Does
  set_secondary-Does errpref dh =
      Does-then handles Any _ _ (Does-given handles (set.get_int (text "secondary") set.no))
        (λ v w. checked_call-Ends handles _ (ib.ibsad dh v w) w (laws.ibsad-kept dh v w))

  gpib_fields-Does :
      (errpref : Bytes) (dh : ℕ) → Does handles (λ d. d.dh ≡ dh) (gpib_fields set ib errpref dh)
  unfolding gpib_fields given Does Ends
  gpib_fields-Does errpref dh =
      Does-then handles _ _ _ (Does-given handles (set.get_size (text "bufsize") 4096)) (λ n.
        Does-then handles _ _ _ (Does-given handles (set.opts.get_double (text "delay") set.zero))
          (λ x.
            Does-then handles _ _ _ (Does-given handles (str_to_read_cond _))
              (λ c w. (refl, refl))))

  pub configure-Does :
      (errpref : Bytes) (timeout : Timeout) (dh : ℕ)
      → Does handles (λ d. d.dh ≡ dh) (configure set ib errpref timeout dh)
  unfolding configure Does
  configure-Does errpref timeout dh =
      Does-then handles _ _ _
        (λ w. checked_call-Ends handles _ (ib.ibclr dh w) w (laws.ibclr-kept dh w))
        (λ a.
          Does-then handles _ _ _
            (λ w.
              checked_call-Ends handles _ (ib.ibtmo dh timeout w) w (laws.ibtmo-kept dh timeout w))
            (λ b. Does-then handles _ _ _ (if_given-Does _ _ (set_eot-Does errpref dh)) (λ c.
              Does-then handles _ _ _ (if_given-Does _ _ (set_eos-Does errpref dh)) (λ d.
                Does-then handles _ _ _ (if_given-Does _ _ (set_secondary-Does errpref dh))
                  (λ e. gpib_fields-Does errpref dh)))))
