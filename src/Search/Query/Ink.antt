-- ===== src/Search/Query/Ink.antt =====
-- Which texts stay visible: a unit that is no white space survives trimming and joining.
use podlog.Base.{
  ◌≡◌, ◌∙◌, refl, Bool, true, false, not, List, [], ◌∷◌, ◌++◌, arith, Text, any, any-append,
  is_space, is_empty, trim_start, trim_end, trim, join, keep,
}

abbrev pub ink : Text → Bool
ink = any (λ c. not (is_space c))

ink-trim_start : (s : Text) → ink (trim_start s) ≡ ink s
unfolding trim_start
ink-trim_start [] = refl
ink-trim_start (c ∷ s) = ground (arith, ink-trim_start s)

ink-trim_end : (s : Text) → ink (trim_end s) ≡ ink s
unfolding trim_end
ink-trim_end [] = refl
ink-trim_end (c ∷ s) = ground (arith, ink-trim_end s)

pub ink-trim : (s : Text) → ink (trim s) ≡ ink s
unfolding trim
ink-trim s = ink-trim_end (trim_start s) ∙ ink-trim_start s

pub is_empty_of_ink : (s : Text) → ink s ≡ true → is_empty s ≡ false
is_empty_of_ink [] h = ground arith
is_empty_of_ink (c ∷ s) h = refl

pub trim-of_ink : (s : Text) → ink s ≡ true → is_empty (trim s) ≡ false
trim-of_ink s h = is_empty_of_ink (trim s) (ink-trim s ∙ h)

pub ink-join : (sep : Text) (ps : List Text) → any ink ps ≡ true → ink (join sep ps) ≡ true
ink-join sep [] h = h
ink-join sep (p ∷ []) h = ground arith
ink-join sep (p ∷ q ∷ ps) h = ground (
  arith,
  any-append (λ c. not (is_space c)) p (sep ++ join sep (q ∷ ps)),
  any-append (λ c. not (is_space c)) sep (join sep (q ∷ ps)),
  ink-join sep (q ∷ ps),
)

pub any-ink-keep : (ps : List Text) → any ink (keep (λ p. not (is_empty p)) ps) ≡ any ink ps
any-ink-keep [] = refl
any-ink-keep ([] ∷ ps) = any-ink-keep ps
any-ink-keep ((c ∷ p) ∷ ps) = ground (arith, any-ink-keep ps)
