-- ===== src/Filename/Named.antt =====
-- The name of an exported file.
use podlog.Base.{
  ℕ, ◌≤◌, ◌≡◌, Bool, true, false, not, ◌&&◌, [], ◌∷◌, All, any, Text, is_space, leb, ◌==◌,
}
use podlog.Filename.{count_points}
use podlog.Filename.Safe.{begins, ends}

-- No control code, none of those that a file system reserves, and no white space.
abbrev pub is_fine : ℕ → Bool
is_fine e =
    leb 32 e
    && not (any (λ d. e == d) (b'<' ∷ b'>' ∷ b':' ∷ b'"' ∷ b'/' ∷ 92 ∷ b'|' ∷ b'?' ∷ b'*' ∷ []))
    && not (is_space e)

-- A dot, a space, a tab or the separator.
abbrev pub is_edge : (separator : ℕ) → ℕ → Bool
is_edge separator e = any (λ d. e == d) (b'.' ∷ 32 ∷ 9 ∷ separator ∷ [])

-- A text that may be a name: of fine codes, at most so many code points long, and with no edge at
-- its ends.
abbrev pub IsName : (max_length : ℕ) → (separator : ℕ) → Text → Type 0
IsName max_length separator s =
    All (λ e. is_fine e ≡ true) s
    × (count_points false s ≤ max_length)
    × (begins (is_edge separator) s ≡ false)
    × (ends (is_edge separator) s ≡ false)

-- A code from which a name can begin.
abbrev pub is_good : (separator : ℕ) → ℕ → Bool
is_good separator e = is_fine e && not (is_edge separator e)

module _ (separator : ℕ) where
  abbrev one : Text
  one = separator ∷ []

  abbrev some_good : Text → Bool
  some_good s = any (is_good separator) s
