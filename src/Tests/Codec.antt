-- ===== src/Tests/Codec.antt =====
-- Competencies through a small encoding of arrays of texts that stands for the JSON functions.
use Prim.Native.Char.{Char, code}
use ga_scheduler_v.Base.{
  ◌≡◌, refl, ap, Option, none, some, String, List, [], ◌∷◌, map, All, ◌↔◌, if◌then◌else◌, nat_beq,
}
use ga_scheduler_v.Repo.CompetencyCodec.{
  returned, thrown, empty_tag, postgres, sqlite, is_space, trim_start, trim_end, trim,
  get_competency_target, Value, text, other, validate_tag, validate_tags, Column, json, Json,
  array_of, encode_competencies, decode_competencies,
}
use ga_scheduler_v.Repo.CompetencyCodec.Trim.{IsTag, trimmed}
use ga_scheduler_v.Repo.CompetencyCodec.RoundTrip.{
  IsJson, decode_competencies-encode_competencies, encode_competencies_iff,
  decode_competencies-IsTag,
}

-- A comma before each character of a text and a semicolon after it.
abbrev write_text : String → String → String
write_text String.[] rest = String.◌∷◌ ";" rest
write_text (String.◌∷◌ c s) rest = String.◌∷◌ "," (String.◌∷◌ c (write_text s rest))

abbrev write_all : List String → String
write_all [] = String.[]
write_all (t ∷ ts) = write_text t (write_all ts)

abbrev stringify : List String → String
stringify ts = String.◌∷◌ "[" (write_all ts)

abbrev push : Char → List String → List String
push c [] = String.◌∷◌ c String.[] ∷ []
push c (t ∷ ts) = String.◌∷◌ c t ∷ ts

abbrev read_all : String → List String
read_all String.[] = []
read_all (String.◌∷◌ mark String.[]) = String.[] ∷ []
read_all (String.◌∷◌ mark (String.◌∷◌ c s)) =
    let more = read_all s in
    let next = read_all (String.◌∷◌ c s) in
    if nat_beq (code mark) 44 then push c more else String.[] ∷ next

abbrev parse : String → Option Json
parse String.[] = none
parse (String.◌∷◌ c s) = some (array_of (map text (read_all s)))

read_text :
    (t : String) (ts : List String)
    → read_all (write_all ts) ≡ ts
    → read_all (write_text t (write_all ts)) ≡ t ∷ ts
read_text String.[] [] h = refl
read_text String.[] (String.[] ∷ ts) h = ap (λ us. String.[] ∷ us) h
read_text String.[] (String.◌∷◌ c t ∷ ts) h = ap (λ us. String.[] ∷ us) h
read_text (String.◌∷◌ c t) ts h = ap (push c) (read_text t ts h)

read_back : (ts : List String) → read_all (write_all ts) ≡ ts
read_back [] = refl
read_back (t ∷ ts) = read_text t ts (read_back ts)

laws : IsJson parse stringify
laws = record {
  parses = λ ts. ap (λ us. some (array_of (map text us))) (read_back ts);
  some_text = λ ts. refl;
}

abbrev values : List Value
values = text " ai-ml" ∷ text "algorithms " ∷ []

program : Unit {0}
unfolding is_space trim_start trim_end trim validate_tag validate_tags get_competency_target
    encode_competencies decode_competencies
program = tt

provider : get_competency_target " SQLite " ≡ returned sqlite
unfolding program
provider = refl

blank : encode_competencies parse stringify (text "   " ∷ []) postgres ≡ thrown empty_tag
unfolding program
blank = refl

values_tags : All IsTag values
unfolding program
values_tags = (refl, (refl, tt))

decode_competencies-encode_competencies_example :
    (column : Column) × (encode_competencies parse stringify values sqlite ≡ returned column)
    × (decode_competencies parse stringify column ≡ returned (map trimmed values))
decode_competencies-encode_competencies_example =
    decode_competencies-encode_competencies parse stringify values sqlite laws values_tags

encode_competencies_iff_example :
    ((column : Column) × (encode_competencies parse stringify (text "ai" ∷ other ∷ []) sqlite
        ≡ returned column))
    ↔ All IsTag (text "ai" ∷ other ∷ [])
encode_competencies_iff_example =
    encode_competencies_iff parse stringify (text "ai" ∷ other ∷ []) sqlite

decoded : decode_competencies parse stringify (json "[,a,i;") ≡ returned ("ai" ∷ [])
unfolding program
decoded = refl

decode_competencies-IsTag_example :
    All IsTag (map text ("ai" ∷ [])) × (map trimmed (map text ("ai" ∷ [])) ≡ "ai" ∷ [])
decode_competencies-IsTag_example =
    decode_competencies-IsTag parse stringify (json "[,a,i;") ("ai" ∷ []) decoded
