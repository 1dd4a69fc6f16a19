-- ===== src/Search/Page/Keys.antt =====
-- The key of the kept totals tells apart the searches in which no feed's identifier and no
-- speaker's name has a colon.
use podlog.Base.{
  ℕ, ◌≡◌, refl, sym, ap, ◌∙◌, Bool, true, false, Option, none, some, [], ◌∷◌, All, Text, codes,
  text_eq, ◌==◌, arith,
}
use podlog.Base.Digits.{is_digit, IsDigits}
use podlog.Search.Page.{Wanted, bool_text, or_null, colon, cache_key}
use podlog.Search.Page.Numerals.{decimal_inj, decimal-IsDigits}

abbrev pub HasNoColon : Text → Type 0
HasNoColon = All (λ c. (c == 58) ≡ false)

abbrev tail : Text → Text
tail [] = []
tail (c ∷ s) = s

abbrev head : Text → ℕ
head [] = 0
head (c ∷ s) = c

no_colon_within : {A : Type 0} (s t : Text) → HasNoColon (colon s t) → A
no_colon_within [] t (e, h) = cc
no_colon_within (c ∷ s) t (e, h) = no_colon_within s t h

-- The last colon divides a text in one way only.
colon_inj :
    (s t u v : Text) → HasNoColon t → HasNoColon v → colon s t ≡ colon u v → (s ≡ u) × (t ≡ v)
colon_inj [] t [] v ht hv e = (refl, ap tail e)
colon_inj [] t (d ∷ u) v ht hv e = no_colon_within u v (rw (sym (ap tail e)) ht)
colon_inj (c ∷ s) t [] v ht hv e = no_colon_within s t (rw (ap tail e) hv)
colon_inj (c ∷ s) t (d ∷ u) v ht hv e =
    let (same, last) = colon_inj s t u v ht hv (ap tail e) in
    (ap (λ k. k ∷ s) (ap head e) ∙ ap (λ r. d ∷ r) same, last)

bool_text_inj : (a b : Bool) → bool_text a ≡ bool_text b → a ≡ b
bool_text_inj true true e = refl
bool_text_inj false false e = refl
bool_text_inj true false e = ap (text_eq (codes "true")) e
bool_text_inj false true e = ap (text_eq (codes "true")) e

bool_text-HasNoColon : (b : Bool) → HasNoColon (bool_text b)
bool_text-HasNoColon true = (refl, (refl, (refl, (refl, tt))))
bool_text-HasNoColon false = (refl, (refl, (refl, (refl, (refl, tt)))))

-- No colon in the speaker's name, which is not "null".
abbrev pub IsPlainName : Option Text → Type 0
IsPlainName none = Unit
IsPlainName (some t) = HasNoColon t × (text_eq t (codes "null") ≡ false)

or_null-HasNoColon : (o : Option Text) → IsPlainName o → HasNoColon (or_null o)
or_null-HasNoColon none h = (refl, (refl, (refl, (refl, tt))))
or_null-HasNoColon (some t) (h, e) = h

or_null_inj : (o p : Option Text) → IsPlainName o → IsPlainName p → or_null o ≡ or_null p → o ≡ p
or_null_inj none none h k e = refl
or_null_inj none (some t) h (k, d) e = let f = ap (λ s. text_eq s (codes "null")) e in cc
or_null_inj (some t) none (h, d) k e = let f = ap (λ s. text_eq s (codes "null")) e in cc
or_null_inj (some t) (some s) h k e = ap some e

is_digit-no_colon : (c : ℕ) → is_digit c ≡ true → (c == 58) ≡ false
unfolding is_digit
is_digit-no_colon c h = ground arith

IsDigits-HasNoColon : (s : Text) → IsDigits s → HasNoColon s
IsDigits-HasNoColon [] d = tt
IsDigits-HasNoColon (c ∷ s) (e, d) = (is_digit-no_colon c e, IsDigits-HasNoColon s d)

abbrev pub IsPlain : Wanted → Type 0
IsPlain w = HasNoColon w.feed_filter × IsPlainName w.speaker

Wanted_eq :
    (v w : Wanted)
    → v.submitted ≡ w.submitted
    → v.feed_filter ≡ w.feed_filter
    → v.uploads ≡ w.uploads
    → v.speaker ≡ w.speaker
    → v.size ≡ w.size
    → v ≡ w
Wanted_eq v w a b c d e =
    λ i. record { submitted = a i; feed_filter = b i; uploads = c i; speaker = d i; size = e i }

pub cache_key_inj : (v w : Wanted) → IsPlain v → IsPlain w → cache_key v ≡ cache_key w → v ≡ w
unfolding cache_key
cache_key_inj v w (hv, nv) (hw, nw) e =
    let (e1, size) =
      colon_inj _ _ _ _ (IsDigits-HasNoColon _ (decimal-IsDigits v.size))
        (IsDigits-HasNoColon _ (decimal-IsDigits w.size)) e in
    let (e2, speaker) =
      colon_inj _ _ _ _ (or_null-HasNoColon v.speaker nv) (or_null-HasNoColon w.speaker nw) e1 in
    let (e3, uploads) =
      colon_inj _ _ _ _ (bool_text-HasNoColon v.uploads) (bool_text-HasNoColon w.uploads) e2 in
    let (submitted, feeds) = colon_inj _ _ _ _ hv hw e3 in
    Wanted_eq v w submitted feeds (bool_text_inj v.uploads w.uploads uploads)
      (or_null_inj v.speaker w.speaker nv nw speaker) (decimal_inj v.size w.size size)
