-- ===== src/Merge/Accepted.antt =====
-- The requests to merge labels that are accepted.
use podlog.Base.{
  ◌≡◌, refl, sym, ap, ◌∙◌, false, none, some, List, [], ◌∷◌, map, Text, text_eq, any, is_empty,
  arith, Bool-cases, inl, inr, ◌↔◌, ◌||◌,
}
use podlog.Merge.{
  Element, label, no_text, Field, text, items, other, MergeRequest, is_blank, is_bad, is_label,
  validate_fields, validate_merge_request,
}

-- A request that merges at least one label, none of them blank, into a label that is not blank and
-- not among them.
pub record Mergeable (b : MergeRequest) : Type 0 where
  pub sources : List Text
  pub target : Text
  pub source_labels_are : b.source_labels ≡ items (map label sources)
  pub target_label_is : b.target_label ≡ text target
  pub some_source : is_empty sources ≡ false
  pub no_blank_source : any is_blank sources ≡ false
  pub no_blank_target : is_blank target ≡ false
  pub target_apart : any (λ s. text_eq s target) sources ≡ false

labels_of : (es : List Element) → any is_bad es ≡ false → (ts : List Text) × (es ≡ map label ts)
labels_of [] h = ([], refl)
labels_of (no_text ∷ es) h = ground arith
labels_of (label s ∷ es) h = elim (Bool-cases (is_blank s)) [
  | inl blank ↦ ground arith
  | inr full ↦ let (ts, e) = labels_of es (rw full at h) in (s ∷ ts, ap (◌∷◌ (label s)) e)
]

pub any-is_bad : (ts : List Text) → any is_bad (map label ts) ≡ any is_blank ts
any-is_bad [] = refl
any-is_bad (t ∷ ts) = ap (λ b. is_blank t || b) (any-is_bad ts)

any-is_label :
    (t : Text) (ts : List Text) → any (is_label t) (map label ts) ≡ any (λ s. text_eq s t) ts
any-is_label t [] = refl
any-is_label t (s ∷ ts) = ap (λ b. text_eq s t || b) (any-is_label t ts)

is_empty-map : (ts : List Text) → is_empty (map label ts) ≡ is_empty ts
is_empty-map [] = refl
is_empty-map (t ∷ ts) = refl

accepted :
    (sources : List Text) (target : Text)
    → is_empty sources ≡ false
    → any is_blank sources ≡ false
    → is_blank target ≡ false
    → any (λ s. text_eq s target) sources ≡ false
    → validate_fields (items (map label sources)) (text target) ≡ none
accepted [] target a b c d = ground arith
accepted (s ∷ sources) target a b c d =
    rw (any-is_bad (s ∷ sources) ∙ b, c, any-is_label target (s ∷ sources) ∙ d) refl

Mergeable-fields :
    (e : Element) (es : List Element) (target : Text)
    → validate_fields (items (e ∷ es)) (text target) ≡ none
    → Mergeable (record { source_labels = items (e ∷ es); target_label = text target })
Mergeable-fields e es target h = elim (Bool-cases (any is_bad (e ∷ es))) [
  | inl bad ↦ (let k : some _ ≡ none = rw bad at h in ground arith)
  | inr good ↦ elim (Bool-cases (is_blank target)) [
    | inl blank ↦ (let k : some _ ≡ none = rw (good, blank) at h in ground arith)
    | inr full ↦ elim (Bool-cases (any (is_label target) (e ∷ es))) [
      | inl among ↦ (let k : some _ ≡ none = rw (good, full, among) at h in ground arith)
      | inr apart ↦
          let (ts, eq) = labels_of (e ∷ es) good in
          record {
            sources = ts;
            target = target;
            source_labels_are = ap items eq;
            target_label_is = refl;
            some_source = sym (is_empty-map ts) ∙ ap is_empty (sym eq);
            no_blank_source = sym (any-is_bad ts) ∙ (ap (any is_bad) (sym eq) ∙ good);
            no_blank_target = full;
            target_apart =
                sym (any-is_label target ts) ∙ (ap (any (is_label target)) (sym eq) ∙ apart);
          }
    ]
  ]
]

Mergeable-any :
    (source_labels target_label : Field)
    → validate_fields source_labels target_label ≡ none
    → Mergeable (record { source_labels = source_labels; target_label = target_label })
Mergeable-any (items (e ∷ es)) (text target) h = Mergeable-fields e es target h
Mergeable-any (items (e ∷ es)) (items ts) h = elim (Bool-cases (any is_bad (e ∷ es))) [
  | inl bad ↦ (let k : some _ ≡ none = rw bad at h in ground arith)
  | inr good ↦ (let k : some _ ≡ none = rw good at h in ground arith)
]
Mergeable-any (items (e ∷ es)) (other b) h = elim (Bool-cases (any is_bad (e ∷ es))) [
  | inl bad ↦ (let k : some _ ≡ none = rw bad at h in ground arith)
  | inr good ↦ (let k : some _ ≡ none = rw good at h in ground arith)
]
Mergeable-any (items []) target h = ground arith
Mergeable-any (text s) target h = ground arith
Mergeable-any (other b) target h = ground arith

-- A request is accepted exactly where it merges at least one label, none of them blank, into a
-- label that is neither blank nor among them.
pub validate_merge_request-Mergeable :
    (b : MergeRequest) → (validate_merge_request b ≡ none) ↔ Mergeable b
unfolding validate_merge_request
validate_merge_request-Mergeable b = (
  Mergeable-any b.source_labels b.target_label,
  λ m.
      rw (m.source_labels_are, m.target_label_is)
        (accepted m.sources m.target m.some_source m.no_blank_source m.no_blank_target
          m.target_apart),
)
