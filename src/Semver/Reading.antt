-- ===== src/Semver/Reading.antt =====
-- Versions as they are written are read back.
use podlog.Base.{
  ℕ, ◌≡◌, refl, true, false, some, [], ◌∷◌, ◌++◌, arith, Text, is_empty, is_space, IsVisible,
  IsVisible-append, trim_of_visible,
}
use podlog.Base.Digits.{
  is_digit, value, IsDigits, Stops, digits_front-append, digits_rest-append, IsDigits-IsVisible,
}
use podlog.Semver.{strip_v, after_dot, match_patch, match_minor, match_major, parse_semver}

dot_stops : is_digit b'.' ≡ false
unfolding is_digit
dot_stops = refl

-- A version as it is written, with what follows it.
abbrev pub written : (ds es fs rest : Text) → Text
written ds es fs rest = ds ++ (b'.' ∷ (es ++ (b'.' ∷ (fs ++ rest))))

module _ (ds es fs rest : Text) (d : IsDigits ds) (e : IsDigits es) (f : IsDigits fs)
    (stops : Stops rest) (d' : is_empty ds ≡ false) (e' : is_empty es ≡ false)
    (f' : is_empty fs ≡ false) where
  match_patch-digits :
      (major minor : ℕ)
      → match_patch major minor (fs ++ rest)
        ≡ some (record { major = major; minor = minor; patch = value fs })
  unfolding match_patch
  match_patch-digits major minor = rw (digits_front-append fs rest f stops, f') refl

  match_minor-digits :
      (major : ℕ)
      → match_minor major (es ++ (b'.' ∷ (fs ++ rest)))
        ≡ some (record { major = major; minor = value es; patch = value fs })
  unfolding match_minor after_dot
  match_minor-digits major = rw (digits_rest-append es (b'.' ∷ (fs ++ rest)) e dot_stops) (
      rw (digits_front-append es (b'.' ∷ (fs ++ rest)) e dot_stops, e')
        (match_patch-digits major (value es)))

  match_major-digits :
      match_major (written ds es fs rest)
      ≡ some (record { major = value ds; minor = value es; patch = value fs })
  unfolding match_major after_dot
  match_major-digits =
      rw (digits_rest-append ds (b'.' ∷ (es ++ (b'.' ∷ (fs ++ rest)))) d dot_stops) (
        rw (digits_front-append ds (b'.' ∷ (es ++ (b'.' ∷ (fs ++ rest)))) d dot_stops, d')
          (match_minor-digits (value ds)))

dot_visible : is_space b'.' ≡ false
unfolding is_space
dot_visible = refl

v_visible : is_space b'v' ≡ false
unfolding is_space
v_visible = refl

written-IsVisible :
    (ds es fs rest : Text)
    → IsDigits ds
    → IsDigits es
    → IsDigits fs
    → IsVisible rest
    → IsVisible (written ds es fs rest)
written-IsVisible ds es fs rest d e f r =
    IsVisible-append ds (b'.' ∷ (es ++ (b'.' ∷ (fs ++ rest)))) (IsDigits-IsVisible ds d) (
      dot_visible,
      IsVisible-append es (b'.' ∷ (fs ++ rest)) (IsDigits-IsVisible es e)
          (dot_visible, IsVisible-append fs rest (IsDigits-IsVisible fs f) r),
    )

strip_v-digit : (c : ℕ) (s : Text) → is_digit c ≡ true → strip_v (c ∷ s) ≡ c ∷ s
unfolding strip_v is_digit
strip_v-digit c s h = ground arith

strip_v-written :
    (ds es fs rest : Text)
    → IsDigits ds
    → is_empty ds ≡ false
    → strip_v (written ds es fs rest) ≡ written ds es fs rest
strip_v-written [] es fs rest d h = ground arith
strip_v-written (c ∷ ds) es fs rest (e, d) h = strip_v-digit c (written ds es fs rest) e

strip_v-v : (s : Text) → strip_v (b'v' ∷ s) ≡ s
unfolding strip_v
strip_v-v s = refl

-- Three numbers with dots between them, with or without a `v` in front, and followed by a text
-- without white space that does not go on with a digit, are read back as the three numbers.
pub parse_semver-written :
    (ds es fs rest : Text)
    → IsDigits ds
    → IsDigits es
    → IsDigits fs
    → is_empty ds ≡ false
    → is_empty es ≡ false
    → is_empty fs ≡ false
    → Stops rest
    → IsVisible rest
    → (parse_semver (written ds es fs rest)
        ≡ some (record { major = value ds; minor = value es; patch = value fs }))
      × (parse_semver (b'v' ∷ written ds es fs rest)
          ≡ some (record { major = value ds; minor = value es; patch = value fs }))
unfolding parse_semver
parse_semver-written ds es fs rest d e f d' e' f' stops r = (
  rw (trim_of_visible (written ds es fs rest) visible, strip_v-written ds es fs rest d d') read,
  rw
      (
        trim_of_visible (b'v' ∷ written ds es fs rest) (v_visible, visible),
        strip_v-v (written ds es fs rest),
      )
      read,
)
  where
    visible : IsVisible (written ds es fs rest)
    visible = written-IsVisible ds es fs rest d e f r

    read :
        match_major (written ds es fs rest)
        ≡ some (record { major = value ds; minor = value es; patch = value fs })
    read = match_major-digits ds es fs rest d e f stops d' e' f'
