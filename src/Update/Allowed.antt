-- ===== src/Update/Allowed.antt =====
-- What the update check reports.
use podlog.Base.{
  ℕ, ◌≡◌, refl, sym, ap, ◌∙◌, true, Option, Bool, false, ◌==◌, ◌||◌, ◌&&◌, ◌∷◌, ◌↔◌, none, some, [],
  Text, Bool-cases, arith, inl, inr,
}
use podlog.Semver.{SemverParts, parse_semver, newer_than, compare_semver}
use podlog.Semver.Order.{Precedes}
use podlog.Update.{Answer, Cache, enabled, latest_of, report, refreshed, get, text_of}

report-newer :
    (current latest : Option Text) (v : Text)
    → report current latest ≡ some v
    → (latest ≡ some v) × (newer_than (parse_semver v) (parse_semver (text_of current)) ≡ true)
report-newer current none v h =
    elim (Bool-cases (newer_than (parse_semver []) (parse_semver (text_of current)))) [
      | inl newer ↦ ground arith
      | inr older ↦ ground arith
    ]
report-newer current (some w) v h =
    elim (Bool-cases (newer_than (parse_semver w) (parse_semver (text_of current)))) [
      | inl newer ↦
          let e : some w ≡ some v = rw newer at h in
          (
            e,
            ap (λ o. newer_than (parse_semver (text_of o)) (parse_semver (text_of current))) (sym e)
                ∙ newer,
          )
      | inr older ↦ (let e : none ≡ some v = rw older at h in ground arith)
    ]

-- The letters of "true", in either case.
abbrev pub spells_true : Text → Bool
spells_true (a ∷ b ∷ c ∷ d ∷ []) =
    (a == b't' || a == b'T')
    && (b == b'r' || b == b'R')
    && (c == b'u' || c == b'U')
    && (d == b'e' || d == b'E')
spells_true _ = false

-- Two texts that are versions, the first lower than the second.
abbrev pub IsLower : Text → Text → Type 0
IsLower s t =
    (a : SemverParts) × (b : SemverParts) × (parse_semver s ≡ some a)
    × (parse_semver t ≡ some b)
    × Precedes a b

enabled-spells_true : (setting : Option Text) → enabled setting ≡ spells_true (text_of setting)
unfolding enabled
enabled-spells_true none = refl
enabled-spells_true (some []) = refl
enabled-spells_true (some (a ∷ [])) = ground arith
enabled-spells_true (some (a ∷ b ∷ [])) = ground arith
enabled-spells_true (some (a ∷ b ∷ c ∷ [])) = ground arith
enabled-spells_true (some (a ∷ b ∷ c ∷ d ∷ [])) = ground arith
enabled-spells_true (some (a ∷ b ∷ c ∷ d ∷ e ∷ s)) = ground arith

newer_than-Precedes : (a b : SemverParts) → (newer_than (some b) (some a) ≡ true) ↔ Precedes a b
unfolding newer_than compare_semver
newer_than-Precedes a b = (λ h. ground arith, λ h. ground arith)

newer_than-present :
    (a b : Option SemverParts)
    → newer_than b a ≡ true
    → (x : SemverParts) × (y : SemverParts) × (a ≡ some x) × (b ≡ some y) × Precedes x y
unfolding newer_than
newer_than-present none none h = (let e : false ≡ true = h in ground arith)
newer_than-present none (some y) h = (let e : false ≡ true = h in ground arith)
newer_than-present (some x) none h = (let e : false ≡ true = h in ground arith)
newer_than-present (some x) (some y) h = (x, y, refl, refl, (newer_than-Precedes x y).0 h)

IsLower-newer_than :
    (s t : Text) → IsLower s t → newer_than (parse_semver t) (parse_semver s) ≡ true
IsLower-newer_than s t (x, y, d, e, p) = rw (d, e) ((newer_than-Precedes x y).1 p)

report-some :
    (current latest : Option Text) (v : Text)
    → latest ≡ some v
    → IsLower (text_of current) v
    → report current latest ≡ some v
report-some current latest v e l = rw (e, IsLower-newer_than (text_of current) v l) refl

-- The update check reports a version exactly where the setting is the word true in whatever
-- case, the cache after the call holds this version, and it and the running one are versions of
-- which the running one is lower.
pub get-IsLower :
    (setting current : Option Text) (cache : Option Cache) (now at : ℕ) (answer : Answer) (v : Text)
    → let reply = get setting current cache now at answer in
      (reply.body.latest ≡ some v) ↔ (
        (spells_true (text_of setting) ≡ true)
        × (latest_of reply.cache ≡ some v)
        × IsLower (text_of current) v)
unfolding get
get-IsLower setting current cache now at answer v = (reports, reported)
  where
    reports :
        (get setting current cache now at answer).body.latest ≡ some v
        → (spells_true (text_of setting) ≡ true)
          × (latest_of (get setting current cache now at answer).cache ≡ some v)
          × IsLower (text_of current) v
    reports h = elim (Bool-cases (enabled setting)) [
      | inl on ↦
          let (e, newer) =
            report-newer current (latest_of (refreshed cache now at answer)) v (rw on at h) in
          rw on (sym (enabled-spells_true setting) ∙ on, e, newer_than-present _ _ newer)
      | inr off ↦ (let e : none ≡ some v = rw off at h in ground arith)
    ]

    reported :
        (spells_true (text_of setting) ≡ true)
          × (latest_of (get setting current cache now at answer).cache ≡ some v)
          × IsLower (text_of current) v
        → (get setting current cache now at answer).body.latest ≡ some v
    reported (o, e, l) =
        let on : enabled setting ≡ true = enabled-spells_true setting ∙ o in
        rw on (report-some current (latest_of (refreshed cache now at answer)) v (rw on at e) l)
