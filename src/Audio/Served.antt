-- ===== src/Audio/Served.antt =====
-- What is served of the files.
use podlog.Base.{
  ℕ, ◌+◌, ◌-◌, ◌≤◌, ◌≡◌, refl, sym, Bool, true, false, ◌&&◌, Option, none, some, List, [], ◌∷◌,
  ◌++◌, Text, codes, is_prefix, present, arith, Bool-cases, inl, inr, ◌⊎◌,
}
use podlog.Base.Digits.{Whole, plus, parse_int}
use podlog.Audio.{
  archive_dir, raw_dir, Files, AudioReply, whole, part, chunk_size, usable, resolved, content_type,
  strip_bytes, first_piece, second_piece, stop_of, serve_part, serve, is_other, get_audio,
}

-- Two ends inside the numbers, in their order.
abbrev pub IsRange : (start stop : Option Whole) → Type 0
IsRange start stop = (a : ℕ) × (b : ℕ) × (start ≡ some (plus a)) × (stop ≡ some (plus b)) × (a ≤ b)

and_false : (b : Bool) → (b && false) ≡ false
and_false true = refl
and_false false = refl

some_inj : {p q : Text} → some p ≡ some q → p ≡ q
some_inj h = ground (arith, h)

abbrev pub is_served : AudioReply → Bool
is_served (whole path length content_type) = true
is_served (part path start stop length size content_type) = true
is_served _ = false

module _ (F : Files) (lower : Text → Text) where
  -- The file in the archive, or the raw one where the archive has none, inside its directory.
  abbrev pub IsAudioFile : (name path : Text) → Type 0
  IsAudioFile name path =
      (F.exists path ≡ true)
      × (((path ≡ F.resolve archive_dir name) × (is_prefix (archive_dir ++ codes "/") path ≡ true))
          ⊎ ((path ≡ F.resolve raw_dir name)
              × (is_prefix (raw_dir ++ codes "/") path ≡ true)
              × (usable F lower archive_dir name ≡ false)))

  abbrev pub IsServed : (name : Text) → AudioReply → Type 0
  IsServed name (whole path length content_type) = IsAudioFile name path × (length ≡ F.size path)
  IsServed name (part path start stop length size content_type) =
      IsAudioFile name path
      × (size ≡ F.size path)
      × ((a : ℕ) × (b : ℕ) × (start ≡ some (plus a))
          × (stop ≡ some (plus b))
          × (length ≡ some (plus (b - a + 1)))
          × (a ≤ b))
  IsServed name _ = Unit

  -- The episode is not there, or has another file.
  abbrev pub is_refused : (rows : List (Option Text)) (name : Text) → Bool
  is_refused [] name = true
  is_refused (episode_path ∷ rows) name = is_other F lower (present episode_path) name

  chunk_size-range :
      (a b : ℕ) → a ≤ b → chunk_size (some (plus a)) (some (plus b)) ≡ some (plus (b - a + 1))
  chunk_size-range a b h = ground arith

  module _
      (opens-IsRange : (start stop : Option Whole)
        → F.opens start stop ≡ true
        → IsRange start stop) where
    serve_part-IsServed :
        (name path range : Text)
        → IsAudioFile name path
        → IsServed name (serve_part F lower path range)
    serve_part-IsServed name path range h =
        let start = parse_int (first_piece (strip_bytes range)) in
        let stop = stop_of F lower (F.size path) (present (second_piece (strip_bytes range))) in
        elim (Bool-cases (F.opens start stop)) [
          | inl e ↦
              let (a, b, p, q, le) = opens-IsRange start stop e in
              rw e (h, refl, (a, b, p, q, rw (p, q) (chunk_size-range a b le), le))
          | inr e ↦ rw e tt
        ]

    serve-IsServed :
        (name : Text) (range path : Option Text)
        → ((p : Text) → path ≡ some p → IsAudioFile name p)
        → IsServed name (serve F lower range path)
    serve-IsServed name range none h = tt
    serve-IsServed name none (some p) h = (h p refl, refl)
    serve-IsServed name (some range) (some p) h = serve_part-IsServed name p range (h p refl)

    resolved-IsAudioFile : (name p : Text) → resolved F lower name ≡ some p → IsAudioFile name p
    resolved-IsAudioFile name p h = elim (Bool-cases (usable F lower archive_dir name)) [
      | inl e ↦
          let same : F.resolve archive_dir name ≡ p = some_inj (rw e at h) in
          rw (sym same) (ground (arith, e), inl (refl, ground (arith, e)))
      | inr e ↦ elim (Bool-cases (usable F lower raw_dir name)) [
        | inl k ↦
            let same : F.resolve raw_dir name ≡ p = some_inj (rw (e, k) at h) in
            rw (sym same) (ground (arith, k), inr (refl, ground (arith, k), e))
        | inr k ↦ (let contra : none ≡ some p = rw (e, k) at h in ground arith)
      ]
    ]

    -- Where a stream opens only between two ends inside the numbers and in their order, what is served
    -- is an existing file of the requested base name in one of the two directories, the archive's
    -- before the raw one; the episode is there, and its own file, if it has one, has this name. A part
    -- is announced with as many bytes as it has between its ends.
    pub get_audio-IsServed :
        (rows : List (Option Text)) (filename : Text) (range : Option Text)
        → let reply = get_audio F lower rows filename range in
          let name = F.basename filename in
          IsServed name reply × ((is_served reply && is_refused rows name) ≡ false)
    unfolding get_audio
    get_audio-IsServed [] filename range = (tt, refl)
    get_audio-IsServed (episode_path ∷ rows) filename range =
        let name = F.basename filename in
        elim (Bool-cases (is_other F lower (present episode_path) name)) [
          | inl e ↦ rw e (tt, refl)
          | inr e ↦ rw e (
            serve-IsServed name (present range) (resolved F lower name) (resolved-IsAudioFile name),
            and_false (is_served (serve F lower (present range) (resolved F lower name))),
          )
        ]
