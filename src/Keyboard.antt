-- ===== src/Keyboard.antt =====
-- apps/web/src/lib/useChordShortcut.ts: two keys, one behind the other, with the shortcuts that use
-- it (components/GlobalChordShortcuts.tsx) and the guard that they ask (lib/leaveGuard.ts).
pub mod Chords
mod Tests
use podlog.Base.{
  ℕ, ◌+◌, Bool, true, false, not, ◌&&◌, ◌||◌, Option, none, some, List, [], ◌∷◌, Text, codes,
  text_eq, ltb, leb, if◌then◌else◌,
}
use podlog.Base.Assoc.{lookup}

-- What an event's target says of itself: `none` is a target that is no element.
pub record Target : Type 0 where
  pub tag : Text
  pub is_content_editable : Bool
  pub contenteditable : Option Text

pub record KeyEvent : Type 0 where
  pub time : ℕ
  pub key : Text
  pub ctrl_key : Bool
  pub meta_key : Bool
  pub alt_key : Bool
  pub target : Option Target

abbrev is_true_or_empty : Option Text → Bool
is_true_or_empty none = false
is_true_or_empty (some attr) = text_eq attr [] || text_eq attr (codes "true")

-- `isEditableTarget`
abbrev pub is_editable_target : Option Target → Bool
is_editable_target none = false
is_editable_target (some t) =
    text_eq t.tag (codes "INPUT")
    || text_eq t.tag (codes "TEXTAREA")
    || text_eq t.tag (codes "SELECT")
    || t.is_content_editable
    || is_true_or_empty t.contenteditable

abbrev pub has_modifier : KeyEvent → Bool
has_modifier e = e.ctrl_key || e.meta_key || e.alt_key

-- The options of the hook. `lower` is `toLowerCase`, and `map` the paths of the second keys.
pub record ChordOptions : Type 0 where
  pub lower : Text → Text
  pub prefix : Text
  pub map : List (Text × Text)
  pub timeout_ms : ℕ
  pub allow_in_inputs : Bool

-- `armed` with its timer: the time at which this disarms, if it is armed.
abbrev pub Armed : Type 0
Armed = Option ℕ

module _ (O : ChordOptions) where
  abbrev pub is_plain : KeyEvent → Bool
  is_plain e = not (has_modifier e) && (O.allow_in_inputs || not (is_editable_target e.target))

  abbrev pub is_prefix_key : KeyEvent → Bool
  is_prefix_key e = text_eq (O.lower e.key) (O.lower O.prefix)

  -- The timer, up to a time.
  abbrev pub timed : (now : ℕ) → Armed → Armed
  timed now none = none
  timed now (some due) = if leb due now then none else some due

  -- A key with no modifier, outside of inputs; what is run is the path of the handler.
  abbrev pub plain_key : KeyEvent → Armed → Armed × Option Text
  plain_key e none = (if is_prefix_key e then some (e.time + O.timeout_ms) else none, none)
  plain_key e (some due) = (none, lookup (O.lower e.key) O.map)

  -- `onKeyDown`
  unfoldable pub on_key_down : KeyEvent → Armed → Armed × Option Text
  on_key_down e armed =
      if has_modifier e
      then (none, none)
      else if not O.allow_in_inputs && is_editable_target e.target
      then (none, none)
      else plain_key e (timed e.time armed)

  -- The hook behind the keys, the latest first.
  unfoldable pub armed_behind : List KeyEvent → Armed
  armed_behind [] = none
  armed_behind (e ∷ earlier) = (on_key_down e (armed_behind earlier)).0

-- GlobalChordShortcuts
abbrev pub global_map : List (Text × Text)
global_map =
    (codes "h", codes "/")
    ∷ (codes "q", codes "/queue")
    ∷ (codes "f", codes "/feeds")
    ∷ (codes "p", codes "/podcasts")
    ∷ (codes "a", codes "/ask")
    ∷ (codes "s", codes "/search")
    ∷ (codes "t", codes "/settings")
    ∷ (codes "d", codes "/docs")
    ∷ []

-- `confirmLeave`, with the answer of the guard, if one is installed.
abbrev pub confirm_leave : (guard : Option Bool) (path current : Text) → Bool
confirm_leave none path current = true
confirm_leave (some answer) path current = if text_eq current path then true else answer

abbrev pub go : (guard : Option Bool) (current : Text) → Option Text → Text
go guard current none = current
go guard current (some path) = if confirm_leave guard path current then path else current

-- The page behind a key.
unfoldable pub global_key :
    ChordOptions → (guard : Option Bool) → KeyEvent → Armed × Text → Armed × Text
global_key O guard e (armed, current) =
    let (armed_now, path) = on_key_down O e armed in (armed_now, go guard current path)
