-- ===== src/Keyboard/Chords.antt =====
-- Which keys are a chord.
use podlog.Base.{
  ℕ, ◌+◌, ◌≡◌, refl, sym, ap, ◌∙◌, Bool, true, false, ◌&&◌, Option, none, some, List, ◌∷◌, Text,
  text_eq, text_eq→eq, ltb, leb, arith, if◌then◌else◌, Bool-cases, inl, inr,
}
use podlog.Base.Assoc.{lookup}
use podlog.Keyboard.{
  KeyEvent, is_editable_target, has_modifier, ChordOptions, Armed, is_plain, is_prefix_key, timed,
  plain_key, on_key_down, armed_behind, go, global_key,
}

abbrev pub is_none : Armed → Bool
is_none none = true
is_none (some due) = false

-- A guard of unsaved changes, if there is one, lets the page be left.
abbrev pub allows : Option Bool → Bool
allows none = true
allows (some answer) = answer

-- The page behind a chord: the map's, where the guard allows it, and otherwise the current one.
abbrev pub page_behind : (guard : Option Bool) (current : Text) (found : Option Text) → Text
page_behind guard current none = current
page_behind guard current (some path) = if allows guard then path else current

go-page_behind :
    (guard : Option Bool) (current : Text) (found : Option Text)
    → go guard current found ≡ page_behind guard current found
go-page_behind guard current none = refl
go-page_behind none current (some path) = refl
go-page_behind (some true) current (some path) = elim (Bool-cases (text_eq current path)) [
  | inl h ↦ rw h refl
  | inr h ↦ rw h refl
]
go-page_behind (some false) current (some path) = elim (Bool-cases (text_eq current path)) [
  | inl h ↦ rw h (sym (text_eq→eq current path h))
  | inr h ↦ rw h refl
]

late : (due t : ℕ) → leb due t ≡ true → ltb t due ≡ false
late due t h = ground arith

soon : (due t : ℕ) → leb due t ≡ false → ltb t due ≡ true
soon due t h = ground arith

chord_plain :
    (began in_time : Bool) (found : Option Text)
    → (if began && in_time then found else none)
      ≡ (if began && in_time && true then found else none)
chord_plain true true found = refl
chord_plain true false found = refl
chord_plain false in_time found = refl

chord_not_plain :
    (began in_time : Bool) (found : Option Text)
    → none ≡ (if began && in_time && false then found else none)
chord_not_plain true true found = refl
chord_not_plain true false found = refl
chord_not_plain false in_time found = refl

module _ (O : ChordOptions) where
  -- The key begins a chord: it is the prefix, and does not end a chord itself.
  abbrev pub begins : KeyEvent → (earlier : List KeyEvent) → Bool
  begins e earlier =
      is_plain O e && is_prefix_key O e && is_none (timed O e.time (armed_behind O earlier))

  abbrev pub is_chord : (second first : KeyEvent) → (earlier : List KeyEvent) → Bool
  is_chord second first earlier =
      begins first earlier && ltb second.time (first.time + O.timeout_ms) && is_plain O second

  on_key_down-plain :
      (e : KeyEvent) (armed : Armed)
      → on_key_down O e armed
        ≡ (if is_plain O e then plain_key O e (timed O e.time armed) else (none, none))
  unfolding on_key_down
  on_key_down-plain e armed = elim (Bool-cases (has_modifier e)) [
    | inl h ↦ rw h refl
    | inr h ↦ elim (Bool-cases O.allow_in_inputs) [
      | inl a ↦ rw (h, a) refl
      | inr a ↦ elim (Bool-cases (is_editable_target e.target)) [
        | inl k ↦ rw (h, a, k) refl
        | inr k ↦ rw (h, a, k) refl
      ]
    ]
  ]

  plain_key-armed :
      (e : KeyEvent) (armed : Armed)
      → (plain_key O e armed).0
        ≡ (if is_prefix_key O e && is_none armed then some (e.time + O.timeout_ms) else none)
  plain_key-armed e none = elim (Bool-cases (is_prefix_key O e)) [
    | inl h ↦ rw h refl
    | inr h ↦ rw h refl
  ]
  plain_key-armed e (some due) = elim (Bool-cases (is_prefix_key O e)) [
    | inl h ↦ rw h refl
    | inr h ↦ rw h refl
  ]

  armed_behind-begins :
      (p : KeyEvent) (earlier : List KeyEvent)
      → armed_behind O (p ∷ earlier)
        ≡ (if begins p earlier then some (p.time + O.timeout_ms) else none)
  unfolding armed_behind
  armed_behind-begins p earlier =
      let before = timed O p.time (armed_behind O earlier) in
      ap (λ (r : Armed × Option Text). r.0) (on_key_down-plain p (armed_behind O earlier))
      ∙ elim (Bool-cases (is_plain O p)) [
        | inl h ↦ rw h (plain_key-armed p before)
        | inr h ↦ rw h refl
      ]

  plain_key-runs :
      (e : KeyEvent) (began : Bool) (due : ℕ)
      → (plain_key O e (timed O e.time (if began then some due else none))).1
        ≡ (if began && ltb e.time due then lookup (O.lower e.key) O.map else none)
  plain_key-runs e false due = refl
  plain_key-runs e true due = elim (Bool-cases (leb due e.time)) [
    | inl h ↦ rw (h, late due e.time h) refl
    | inr h ↦ rw (h, soon due e.time h) refl
  ]

  -- A key that follows another runs the handler of the map exactly where the two are a chord: the first
  -- is the prefix and does not end a chord itself, the second comes before the time is over, and
  -- neither has a modifier or, unless this is allowed, goes to an input.
  on_key_down-runs :
      (e p : KeyEvent) (earlier : List KeyEvent)
      → (on_key_down O e (armed_behind O (p ∷ earlier))).1
        ≡ (if is_chord e p earlier then lookup (O.lower e.key) O.map else none)
  on_key_down-runs e p earlier =
      ap (λ (r : Armed × Option Text). r.1)
        (on_key_down-plain e (armed_behind O (p ∷ earlier))
          ∙ ap (λ a. if is_plain O e then plain_key O e (timed O e.time a) else (none, none))
              (armed_behind-begins p earlier))
      ∙ elim (Bool-cases (is_plain O e)) [
        | inl h ↦ rw h (
            plain_key-runs e (begins p earlier) (p.time + O.timeout_ms)
            ∙ chord_plain (begins p earlier) _ _)
        | inr h ↦ rw h (chord_not_plain (begins p earlier) _ _)
      ]

  -- Behind any keys, the next one leads to another page exactly where it ends a chord: the key in
  -- front is the prefix and does not end a chord itself, this one follows before the time is over,
  -- and neither has a modifier or, unless this is allowed, goes to an input. It then leads to the
  -- page that the map has for it, if it has one and a guard of unsaved changes does not refuse.
  pub global_key-goes :
      (guard : Option Bool) (e p : KeyEvent) (earlier : List KeyEvent) (current : Text)
      → (global_key O guard e (armed_behind O (p ∷ earlier), current)).1 ≡ (
          if is_chord e p earlier
          then page_behind guard current (lookup (O.lower e.key) O.map)
          else current)
  unfolding global_key
  global_key-goes guard e p earlier current =
      ap (go guard current) (on_key_down-runs e p earlier)
      ∙ elim (Bool-cases (is_chord e p earlier)) [
        | inl h ↦ rw h (go-page_behind guard current (lookup (O.lower e.key) O.map))
        | inr h ↦ rw h refl
      ]
