-- ===== src/Client/Paths.antt =====
-- The path of a URL of the client: libcurl removes the segments . and .. before it sends a path.
use device.Base.{
  ℕ, ◌≡◌, ◌≢◌, refl, subst, sym, arith, List, [], ◌∷◌, ◌++◌, append-nil, All, Bytes, text, ◌==◌,
  if◌then◌else◌,
}
use device.Manager.Url.{NoSlash, slash}

prefixed : ℕ → List Bytes → List Bytes
prefixed c [] = (c ∷ []) ∷ []
prefixed c (l ∷ ls) = (c ∷ l) ∷ ls

-- What stands between the slashes.
unfoldable pub segments : Bytes → List Bytes
unfolding prefixed
segments [] = [] ∷ []
segments (c ∷ s) = let rest = segments s in if c == slash then [] ∷ rest else prefixed c rest

pub record NotDots (s : Bytes) : Type 0 where
  pub not_one : s ≢ text "."
  pub not_two : s ≢ text ".."

-- It has no segment that is removed.
unfoldable pub IsPlainPath : Bytes → Type 0
IsPlainPath p = All NotDots (segments p)

segments-append : (a s : Bytes) → NoSlash a → segments (a ++ slash ∷ s) ≡ a ∷ segments s
unfolding segments prefixed
segments-append [] s h = refl
segments-append (c ∷ a) s h = rw (segments-append a s h.1) (ground (arith, h.0))

segments-alone : (a : Bytes) → NoSlash a → segments a ≡ a ∷ []
unfolding segments prefixed
segments-alone [] h = refl
segments-alone (c ∷ a) h = rw (segments-alone a h.1) (ground (arith, h.0))

-- It may stand behind any segment that is not removed.
unfoldable pub Ends : Bytes → Type 0
Ends t = (a : Bytes) → NoSlash a → NotDots a → IsPlainPath (a ++ t)

pub nothing-Ends : Ends []
unfolding Ends IsPlainPath
nothing-Ends a h n =
    subst (All NotDots) (sym (segments-alone (a ++ []) (subst NoSlash (sym (append-nil a)) h)))
      (subst NotDots (sym (append-nil a)) n, tt)

pub slash-Ends : (u : Bytes) → IsPlainPath u → Ends (slash ∷ u)
unfolding Ends IsPlainPath
slash-Ends u p a h n = subst (All NotDots) (sym (segments-append a u h)) (n, p)

pub Ends-IsPlainPath : (a t : Bytes) → Ends t → NoSlash a → NotDots a → IsPlainPath (a ++ t)
unfolding Ends
Ends-IsPlainPath a t h k n = h a k n

pub slash-IsPlainPath : (u : Bytes) → IsPlainPath u → IsPlainPath (slash ∷ u)
unfolding text
slash-IsPlainPath u p =
    Ends-IsPlainPath [] (slash ∷ u) (slash-Ends u p) tt
      (record { not_one = λ e. absurd (cc); not_two = λ e. absurd (cc) })
