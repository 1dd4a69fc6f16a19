-- ===== src/Keyboard/Tests.antt =====
-- G, and D within a second.
use podlog.Base.{ℕ, ◌≡◌, refl, true, false, none, some, [], ◌∷◌, Text, codes, if◌then◌else◌}
use podlog.Base.Assoc.{lookup}
use podlog.Keyboard.{KeyEvent, ChordOptions, armed_behind, on_key_down, global_map, global_key}
use podlog.Keyboard.Chords.{is_chord, page_behind, global_key-goes}

abbrev options : ChordOptions
options = record {
  lower = λ t. t;
  prefix = codes "g";
  map = global_map;
  timeout_ms = 1000;
  allow_in_inputs = false;
}

abbrev key_at : ℕ → Text → KeyEvent
key_at t k = record {
  time = t;
  key = k;
  ctrl_key = false;
  meta_key = false;
  alt_key = false;
  target = none;
}

global_key-goes_example :
    let first = key_at 5 (codes "g") in
    let second = key_at 700 (codes "d") in
    (global_key options (some true) second (armed_behind options (first ∷ []), codes "/ask")).1 ≡ (
      if is_chord options second first []
      then page_behind (some true) (codes "/ask") (lookup (codes "d") global_map)
      else codes "/ask")
global_key-goes_example =
    global_key-goes options (some true) (key_at 700 (codes "d")) (key_at 5 (codes "g")) []
      (codes "/ask")

-- The page that it leads to.
leads_to_docs :
    (global_key options none
      (key_at 700 (codes "d"))
      (armed_behind options (key_at 5 (codes "g") ∷ []), codes "/ask")).1
    ≡ codes "/docs"
unfolding global_key on_key_down armed_behind
leads_to_docs = refl
