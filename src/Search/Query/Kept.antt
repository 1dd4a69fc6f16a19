-- ===== src/Search/Query/Kept.antt =====
-- Nothing that a reader typed is lost: a line that is not blank leaves free text or a filter.
use podlog.Base.{
  ℕ, zero, suc, ◌≤◌, ◌<◌, ◌≡◌, refl, ◌∙◌, Bool, true, false, not, ◌||◌, ◌&&◌, Option, none, some,
  List, [], ◌∷◌, ◌++◌, arith, Text, length, any, any-append, All, drop, take, slice, Bool-cases,
  inl, inr, if◌then◌else◌, codes, ◌⊎◌, is_empty, trim, join, keep, ltb,
}
use native.Mathlib.Nat.{zero-add}
use podlog.Search.Query.{
  Scope, title, description, speaker, ScopeMatch, ParseState, ParsedSearchQuery, transcript_hybrid,
  metadata_only, append_scoped_value, store, add_value, add_part, parse_round, parse_loop, finish,
  parse_search_query, parse_matches, truthy, next_scope_start, start_state,
}
use podlog.Search.Query.Ink.{ink, is_empty_of_ink, ink-trim, trim-of_ink, ink-join, any-ink-keep}
use podlog.Search.Query.Scan.{Begins, Placed, Stands, match_all-Placed}

any-ink-last : (ps : List Text) (p : Text) → any ink (ps ++ p ∷ []) ≡ (any ink ps || ink p)
any-ink-last ps p = ground (arith, any-append ink ps (p ∷ []))

truthy-append_scoped_value :
    (e n : Option Text) → truthy (append_scoped_value e n) ≡ (truthy e || truthy n)
unfolding append_scoped_value
truthy-append_scoped_value none none = refl
truthy-append_scoped_value none (some []) = refl
truthy-append_scoped_value none (some (c ∷ s)) = refl
truthy-append_scoped_value (some []) none = refl
truthy-append_scoped_value (some []) (some []) = refl
truthy-append_scoped_value (some []) (some (c ∷ s)) = refl
truthy-append_scoped_value (some (d ∷ t)) none = refl
truthy-append_scoped_value (some (d ∷ t)) (some []) = refl
truthy-append_scoped_value (some (d ∷ t)) (some (c ∷ s)) = refl

abbrev filtered : ParseState → Bool
filtered st = truthy st.title_filter || truthy st.description_filter || truthy st.speaker_filter

abbrev kept : ParseState → Bool
kept st = any ink st.free_text_parts || filtered st

kept-add_value :
    (scope : Scope) (v : Option Text) (st : ParseState)
    → kept (add_value scope v st) ≡ (kept st || truthy v)
kept-add_value title v st = ground (arith, truthy-append_scoped_value st.title_filter v)
kept-add_value description v st = ground (arith, truthy-append_scoped_value st.description_filter v)
kept-add_value speaker v st = ground (arith, truthy-append_scoped_value st.speaker_filter v)

kept-add_part : (p : Text) (st : ParseState) → kept (add_part p st) ≡ (kept st || ink p)
kept-add_part p st = ground (arith, any-ink-last st.free_text_parts p)

kept-store :
    (scope : Scope) (v : Option Text) (token : Text) (st : ParseState)
    → (kept st || ink token) ≡ true
    → kept (store scope v token st) ≡ true
unfolding store
kept-store scope none [] st h = ground arith
kept-store scope none (c ∷ s) st h = kept-add_part (c ∷ s) st ∙ h
kept-store scope (some []) [] st h = ground arith
kept-store scope (some []) (c ∷ s) st h = kept-add_part (c ∷ s) st ∙ h
kept-store scope (some (d ∷ t)) token st h = ground (arith, kept-add_value scope (some (d ∷ t)) st)

kept-if-add_part :
    (b : Bool) (p : Text) (st : ParseState) (x : Bool)
    → (kept st || x) ≡ true
    → (kept (if b then add_part p st else st) || x) ≡ true
kept-if-add_part true p st x h = ground (arith, kept-add_part p st)
kept-if-add_part false p st x h = h

-- A round keeps what was kept, and keeps something where its token is visible.
kept-parse_round :
    (input : Text) (m : ScopeMatch) (next : ℕ) (st : ParseState)
    → (kept st || ink (slice m.index next input)) ≡ true
    → kept (parse_round input m next st) ≡ true
unfolding parse_round
kept-parse_round input m next st h = kept-store m.scope _ (trim (slice m.index next input)) _ (
    rw (ink-trim (slice m.index next input))
      (kept-if-add_part (ltb st.cursor m.index) _ st (ink (slice m.index next input)) h))

kept-parse_loop :
    (input : Text) (ms : List ScopeMatch) (st : ParseState)
    → kept st ≡ true
    → kept (parse_loop input ms st) ≡ true
unfolding parse_loop
kept-parse_loop input [] st h = h
kept-parse_loop input (m ∷ ms) st h =
    kept-parse_loop input ms _
      (kept-parse_round input m (next_scope_start input ms) st (ground arith))

ink-take : (k : ℕ) (s : Text) → Begins s → 1 ≤ k → ink (take k s) ≡ true
ink-take zero s b h = absurd (omega arith)
ink-take (suc k) [] b h = absurd b
ink-take (suc k) (c ∷ s) b h = ground arith

next_scope_start-lt :
    (input : Text) (m : ScopeMatch) (ms : List ScopeMatch)
    → Placed 0 (length input) (m ∷ ms)
    → m.index < next_scope_start input ms
next_scope_start-lt input m [] (a, b, c) = omega arith
next_scope_start-lt input m (n ∷ ms) (a, b, (c, d, f)) = omega arith

-- The token of the first marker is visible, so the loop ends with something kept.
kept-first :
    (input : Text) (m : ScopeMatch) (ms : List ScopeMatch)
    → Placed 0 (length input) (m ∷ ms)
    → Stands 0 input m
    → kept (parse_loop input (m ∷ ms) start_state) ≡ true
unfolding parse_loop
kept-first input m ms placed (d, e, b) = kept-parse_loop input ms _ (
    kept-parse_round input m (next_scope_start input ms) start_state (
      ink-take _ (drop m.index input) (rw e (rw (zero-add d) b))
        (omega (arith, next_scope_start-lt input m ms placed))))

-- What a search line leaves behind: free text for the hybrid search, or a filter alone.
abbrev pub LeavesSomething : ParsedSearchQuery → Type 0
LeavesSomething p =
    ((p.mode ≡ transcript_hybrid) × (is_empty p.free_text ≡ false))
    ⊎ ((p.mode ≡ metadata_only)
        × (is_empty p.free_text ≡ true)
        × ((truthy p.title_filter || truthy p.description_filter || truthy p.speaker_filter)
            ≡ true))

mode-LeavesSomething :
    (free_empty filters : Bool)
    → (not free_empty || filters) ≡ true
    → let mode = if free_empty && filters then metadata_only else transcript_hybrid in
      ((mode ≡ transcript_hybrid) × (free_empty ≡ false))
      ⊎ ((mode ≡ metadata_only) × (free_empty ≡ true) × (filters ≡ true))
mode-LeavesSomething false filters h = inl (refl, refl)
mode-LeavesSomething true true h = inr (refl, refl, refl)
mode-LeavesSomething true false h = cc

any-ink-if :
    (b : Bool) (ps : List Text) (p : Text)
    → any ink ps ≡ true
    → any ink (if b then ps ++ p ∷ [] else ps) ≡ true
any-ink-if true ps p h = ground (arith, any-ink-last ps p)
any-ink-if false ps p h = h

joined-ink :
    (ps : List Text)
    → any ink ps ≡ true
    → is_empty (trim (join (codes " ") (keep (λ p. not (is_empty p)) ps))) ≡ false
joined-ink ps h =
    trim-of_ink _ (ink-join (codes " ") (keep (λ p. not (is_empty p)) ps) (any-ink-keep ps ∙ h))

finish-LeavesSomething :
    (raw input : Text) (st : ParseState) → kept st ≡ true → LeavesSomething (finish raw input st)
unfolding finish
finish-LeavesSomething raw input st h =
    mode-LeavesSomething _ (filtered st) (elim (Bool-cases (any ink st.free_text_parts)) [
      | inl e ↦
          rw (joined-ink _ (any-ink-if (ltb st.cursor (length input)) st.free_text_parts _ e)) refl
      | inr e ↦ ground arith
    ])

parse_matches-LeavesSomething :
    (raw input : Text) (ms : List ScopeMatch)
    → ink input ≡ true
    → Placed 0 (length input) ms
    → All (Stands 0 input) ms
    → LeavesSomething (parse_matches raw input ms)
unfolding parse_matches
parse_matches-LeavesSomething raw input [] h p s = inl (refl, is_empty_of_ink input h)
parse_matches-LeavesSomething raw input (m ∷ ms) h p s =
    finish-LeavesSomething raw input _ (kept-first input m ms p s.0)

-- A search line with a visible unit leaves free text, and is searched by it, or leaves no free
-- text but at least one filter, and is searched by metadata alone.
pub parse_search_query-LeavesSomething :
    (raw : Text) → ink raw ≡ true → LeavesSomething (parse_search_query raw)
unfolding parse_search_query
parse_search_query-LeavesSomething raw h =
    let (p, s) = match_all-Placed (trim raw) in
    parse_matches-LeavesSomething raw (trim raw) _ (ink-trim raw ∙ h) p s
