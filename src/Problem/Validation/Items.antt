-- ===== src/Problem/Validation/Items.antt =====
-- What the loops over the tags and the samples of a request let through.
use vibe_coding.Prelude.{
  ℕ, suc, ◌+◌, ◌≤◌, ◌≡◌, refl, subst, true, false, not, inl, inr, List, [], ◌∷◌, ◌++◌, ◌==◌, arith,
  leb→le, length, all, All, All-append, length-append, trim_idem, Bool-cases,
}
use vibe_coding.Prelude.Text.{Bytes, text_eq, text_eq_iff, is_space}
use vibe_coding.Prelude.Result.{Holds, >>=-Holds, require-Holds, Holds-weaken}
use vibe_coding.Db.Tables.{count_rows}
use vibe_coding.Db.Rows.{count_rows-append}
use vibe_coding.Problem.Json.{Json}
use vibe_coding.Problem.Tags.{trim}
use vibe_coding.Problem.Tags.RoundTrip.{IsTag}
use vibe_coding.Problem.Validation.{
  SampleInput, is_among, push_tag, push_tags, parse_tags, push_sample, push_samples, parse_samples,
  sample_of, max_tags, max_tag_bytes, max_samples, max_sample_field_bytes,
}

-- The tags of a problem: each can be stored and is short, and none is there twice.
pub record AreTags (tags : List Bytes) : Type 0 where
  pub shapes : All IsTag tags
  pub short : All (λ tag. length tag ≤ max_tag_bytes) tags
  pub distinct : (tag : Bytes) → count_rows (λ other. text_eq other tag) tags ≤ 1

abbrev TagsOf : ℕ → List Bytes → Type 0
TagsOf n tags = AreTags tags × (length tags ≡ n)

pub AreTags-nil : AreTags []
unfolding count_rows
AreTags-nil = record { shapes = tt; short = tt; distinct = λ _. omega arith }

all-All :
    (tag : Bytes)
    → all (λ (c : ℕ). not (c == b',')) tag ≡ true
    → All (λ (c : ℕ). (c == b',') ≡ false) tag
all-All [] h = tt
all-All (c ∷ tag) h = (ground (arith, h), all-All tag (ground (arith, h)))

not-among :
    (tag : Bytes) (out : List Bytes)
    → is_among tag out ≡ false
    → count_rows (λ other. text_eq other tag) out ≡ 0
unfolding is_among count_rows
not-among tag [] h = refl
not-among tag (other ∷ out) h = ground (arith, h, not-among tag out)

AreTags-push :
    (out : List Bytes) (tag : Bytes)
    → AreTags out
    → IsTag tag
    → length tag ≤ max_tag_bytes
    → is_among tag out ≡ false
    → AreTags (out ++ tag ∷ [])
unfolding count_rows
AreTags-push out tag v shape short new = record {
  shapes = All-append IsTag out (tag ∷ []) v.shapes (shape, tt);
  short = All-append (λ t. length t ≤ max_tag_bytes) out (tag ∷ []) v.short (short, tt);
  distinct = λ t. elim (Bool-cases (text_eq tag t)) [
    | inl e ↦
        let same = (text_eq_iff tag t).0 e in
        let none_before =
          subst (λ u. count_rows (λ o. text_eq o u) out ≡ 0) same (not-among tag out new) in
        ground (arith, e, none_before, count_rows-append (λ o. text_eq o t) out (tag ∷ []))
    | inr e ↦ ground (arith, e, v.distinct t, count_rows-append (λ o. text_eq o t) out (tag ∷ []))
  ];
}

-- One more of what is as it should be.
push_tag-AreTags :
    (out : List Bytes) (tag : Bytes)
    → AreTags out
    → trim tag ≡ tag
    → Holds (TagsOf (length out + 1)) (push_tag out tag)
unfolding push_tag
push_tag-AreTags out tag v trimmed = require-Holds _ _ _ _ λ something.
    require-Holds _ _ _ _ λ short. require-Holds _ _ _ _ λ no_comma. require-Holds _ _ _ _ λ new. (
      AreTags-push out tag v (ground (arith, something), trimmed, all-All tag no_comma)
          (leb→le (length tag) max_tag_bytes short) (ground (arith, new)),
      length-append out (tag ∷ []),
    )

-- A sample of which both texts are within their bound.
abbrev pub IsShortSample : SampleInput → Type 0
IsShortSample sample =
    (length sample.input ≤ max_sample_field_bytes) × (length sample.output ≤ max_sample_field_bytes)

abbrev SamplesOf : ℕ → List SampleInput → Type 0
SamplesOf n samples = All IsShortSample samples × (length samples ≡ n)

abbrev pub AreSamples : List SampleInput → Type 0
AreSamples samples = All IsShortSample samples × (length samples ≤ max_samples)

push_sample-short :
    (out : List SampleInput) (sample : SampleInput)
    → All IsShortSample out
    → Holds (SamplesOf (length out + 1)) (push_sample out sample)
unfolding push_sample
push_sample-short out sample v = require-Holds _ _ _ _ λ short. (
  All-append IsShortSample out (sample ∷ []) v (ground (arith, short), tt),
  length-append out (sample ∷ []),
)

module _ (J : Json) where
  push_tags-AreTags :
      (out : List Bytes) (items : List J.Value)
      → AreTags out
      → Holds (TagsOf (length out + length items)) (push_tags J out items)
  unfolding push_tags
  push_tags-AreTags out [] v = (v, omega arith)
  push_tags-AreTags out (item ∷ items) v = require-Holds _ _ _ _ λ _.
      >>=-Holds (TagsOf (length out + 1)) _ _ _
        (push_tag-AreTags out (trim (J.get_string item)) v (trim_idem is_space (J.get_string item)))
        λ pushed h.
          Holds-weaken (TagsOf (length pushed + length items))
            (TagsOf (length out + suc (length items))) _ (λ tags k. (k.0, omega (arith, k.1, h.1)))
            (push_tags-AreTags pushed items h.0)

  pub parse_tags-AreTags :
      (value : J.Value)
      → Holds (λ tags. AreTags tags × (length tags ≤ max_tags)) (parse_tags J value)
  unfolding parse_tags
  parse_tags-AreTags value = require-Holds _ _ _ _ λ _. require-Holds _ _ _ _ λ few.
      Holds-weaken (TagsOf (0 + length (J.items value)))
        (λ tags. AreTags tags × (length tags ≤ max_tags)) _
        (λ tags k. (k.0, ground (arith, few, k.1)))
        (push_tags-AreTags [] (J.items value) AreTags-nil)

  push_samples-short :
      (out : List SampleInput) (items : List J.Value)
      → All IsShortSample out
      → Holds (SamplesOf (length out + length items)) (push_samples J out items)
  unfolding push_samples
  push_samples-short out [] v = (v, omega arith)
  push_samples-short out (item ∷ items) v = require-Holds _ _ _ _ λ _.
      >>=-Holds (SamplesOf (length out + 1)) (SamplesOf (length out + suc (length items))) _
        (λ pushed. push_samples J pushed items) (push_sample-short out (sample_of J item) v)
        λ pushed h.
          Holds-weaken (SamplesOf (length pushed + length items))
            (SamplesOf (length out + suc (length items))) _
            (λ samples k. (k.0, omega (arith, k.1, h.1))) (push_samples-short pushed items h.0)

  pub parse_samples-AreSamples : (value : J.Value) → Holds AreSamples (parse_samples J value)
  unfolding parse_samples
  parse_samples-AreSamples value = require-Holds _ _ _ _ λ _. require-Holds _ _ _ _ λ few.
      Holds-weaken (SamplesOf (0 + length (J.items value))) AreSamples _
        (λ samples k. (k.0, ground (arith, few, k.1))) (push_samples-short [] (J.items value) tt)
