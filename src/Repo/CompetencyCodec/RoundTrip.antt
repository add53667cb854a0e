-- ===== src/Repo/CompetencyCodec/RoundTrip.antt =====
-- repo/competencyCodec.ts: what is encoded can be decoded, and when encoding and decoding throw.
use ga_scheduler_v.Base.{
  ◌≡◌, refl, sym, subst, ap, ◌∙◌, inl, inr, false, Bool-cases, String, List, [], map, Option, none,
  some, All, ◌↔◌,
}
use ga_scheduler_v.Repo.CompetencyCodec.{
  Result, thrown, returned, is_empty, CompetencyTarget, postgres, sqlite, Value, text,
  validate_tags, Column, null, array, json, unsupported, not_array, Json, array_of, persist,
  encode_competencies, decode_json, decode_competencies,
}
use ga_scheduler_v.Repo.CompetencyCodec.Trim.{
  IsTag, trimmed, validate_tags_all, IsTag-trimmed, trimmed_again, validate_tags-returned,
}

module _ (json_parse : String → Option Json) (json_stringify : List String → String) where
  -- JSON.parse reads the array of texts that JSON.stringify wrote, which is never the empty text.
  pub record IsJson : Type 0 where
    pub parses : (ts : List String) → json_parse (json_stringify ts) ≡ some (array_of (map text ts))
    pub some_text : (ts : List String) → is_empty (json_stringify ts) ≡ false

  decode-tags :
      (vs : List Value)
      → All IsTag vs
      → validate_tags (map text (map trimmed vs)) ≡ returned (map trimmed vs)
  decode-tags vs tags =
      validate_tags_all (map text (map trimmed vs)) (IsTag-trimmed vs tags)
      ∙ ap returned (trimmed_again vs)

  -- For either target, competencies that are texts and not blank are encoded, and what is encoded is
  -- decoded to the trimmed texts, in order. JSON.parse reads what JSON.stringify writes.
  pub decode_competencies-encode_competencies :
      (vs : List Value) (target : CompetencyTarget)
      → IsJson
      → All IsTag vs
      → (column : Column) × (encode_competencies json_parse json_stringify vs target
          ≡ returned column)
        × (decode_competencies json_parse json_stringify column ≡ returned (map trimmed vs))
  unfolding encode_competencies decode_competencies
  decode_competencies-encode_competencies vs postgres laws tags = (
    array (map text (map trimmed vs)),
    rw (encode_competencies, validate_tags_all vs tags) refl,
    decode-tags vs tags,
  )
  decode_competencies-encode_competencies vs sqlite laws tags = (
    json (json_stringify (map trimmed vs)),
    rw (encode_competencies, validate_tags_all vs tags) refl,
    rw (decode_competencies, laws.some_text (map trimmed vs), laws.parses (map trimmed vs))
        (decode-tags vs tags),
  )

  persist-returned :
      (target : CompetencyTarget) (r : Result (List String)) (column : Column)
      → persist json_parse json_stringify target r ≡ returned column
      → (ts : List String) × (r ≡ returned ts)
  persist-returned target (thrown e) column h = cc
  persist-returned target (returned ts) column h = (ts, refl)

  -- Encoding returns a column exactly if every value is a text and none of them is blank; otherwise it
  -- throws, whatever the target is.
  pub encode_competencies_iff :
      (vs : List Value) (target : CompetencyTarget)
      → ((column : Column) × (encode_competencies json_parse json_stringify vs target
            ≡ returned column))
        ↔ All IsTag vs
  unfolding encode_competencies
  encode_competencies_iff vs target = (
    λ h.
        let (ts, e) = persist-returned target (validate_tags vs) h.0 h.1 in
        validate_tags-returned vs ts e,
    λ tags. encoded target tags,
  )
    where
      encoded :
          (t : CompetencyTarget)
          → All IsTag vs
          → (column : Column) × (encode_competencies json_parse json_stringify vs t
              ≡ returned column)
      encoded postgres tags = (
        array (map text (map trimmed vs)),
        rw (encode_competencies, validate_tags_all vs tags) refl,
      )
      encoded sqlite tags = (
        json (json_stringify (map trimmed vs)),
        rw (encode_competencies, validate_tags_all vs tags) refl,
      )

  abbrev Clean : List String → Type 0
  Clean ts = All IsTag (map text ts) × (map trimmed (map text ts) ≡ ts)

  clean : (vs : List Value) (ts : List String) → validate_tags vs ≡ returned ts → Clean ts
  clean vs ts h =
      let tags = validate_tags-returned vs ts h in
      let both = sym (validate_tags_all vs tags) ∙ h in
      let same : map trimmed vs ≡ ts = cc in
      subst Clean same (IsTag-trimmed vs tags, trimmed_again vs)

  decode_json-Clean :
      (o : Option Json) (ts : List String)
      → decode_json json_parse json_stringify o ≡ returned ts
      → Clean ts
  decode_json-Clean none ts h = cc
  decode_json-Clean (some not_array) ts h = cc
  decode_json-Clean (some (array_of vs)) ts h = clean vs ts h

  -- What comes out of a column is made of tags that are trimmed already and not blank, whatever the
  -- column holds and whatever JSON.parse returns for it.
  pub decode_competencies-IsTag :
      (column : Column) (ts : List String)
      → decode_competencies json_parse json_stringify column ≡ returned ts
      → All IsTag (map text ts) × (map trimmed (map text ts) ≡ ts)
  unfolding decode_competencies
  decode_competencies-IsTag null ts h = let empty : [] ≡ ts = cc in subst Clean empty (tt, refl)
  decode_competencies-IsTag (array vs) ts h = clean vs ts h
  decode_competencies-IsTag unsupported ts h = cc
  decode_competencies-IsTag (json raw) ts h = elim (Bool-cases (is_empty raw)) [
    | inl blank ↦
        let none_there = rw (decode_competencies, blank) at (h) in
        let empty : [] ≡ ts = cc in subst Clean empty (tt, refl)
    | inr written ↦ decode_json-Clean (json_parse raw) ts (rw (decode_competencies, written) at (h))
  ]
