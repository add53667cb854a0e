-- ===== src/Repo/CompetencyCodec.antt =====
-- repo/competencyCodec.ts. JSON.parse and JSON.stringify are parameters. A value of type `unknown` is a
-- text or something else, and the texts of the errors are left out.
pub mod Trim
pub mod RoundTrip
use Prim.Native.Char.{Char, code}
use ga_scheduler_v.Base.{
  ℕ, ◌+◌, Bool, true, false, ◌&&◌, ◌||◌, String, List, [], ◌∷◌, map, Option, none, some, leb,
  if◌then◌else◌, ◌==◌, nat_eq, list_eq, nat_beq, includes,
}

pub data CodecError : Type 0 where
  invalid_provider not_a_string empty_tag malformed_json json_not_an_array unsupported_type :
      CodecError

pub data Result {ℓ} (A : Type ℓ) : Type ℓ where
  thrown : CodecError → Result A
  returned : A → Result A

-- The white space and line terminators that String.prototype.trim removes.
unfoldable pub is_space : Char → Bool
is_space c =
    leb 9 (code c) && leb (code c) 13
    || leb 8192 (code c) && leb (code c) 8202
    || includes (32 ∷ 160 ∷ 5760 ∷ 8232 ∷ 8233 ∷ 8239 ∷ 8287 ∷ 12288 ∷ 65279 ∷ []) (code c)

abbrev pub is_empty : String → Bool
is_empty String.[] = true
is_empty (String.◌∷◌ c s) = false

unfoldable pub trim_start : String → String
unfolding is_space
trim_start String.[] = String.[]
trim_start (String.◌∷◌ c s) = let rest = trim_start s in if is_space c then rest else String.◌∷◌ c s

unfoldable pub trim_end : String → String
unfolding is_space
trim_end String.[] = String.[]
trim_end (String.◌∷◌ c s) =
    let rest = trim_end s in if is_space c && is_empty rest then String.[] else String.◌∷◌ c rest

unfoldable pub trim : String → String
unfolding trim_start trim_end
trim s = trim_end (trim_start s)

pub data CompetencyTarget : Type 0 where
  postgres sqlite : CompetencyTarget

-- String.prototype.toLowerCase on the letters that the names of the providers have.
abbrev lower : String → List ℕ
lower String.[] = []
lower (String.◌∷◌ c s) =
    (if leb 65 (code c) && leb (code c) 90 then code c + 32 else code c) ∷ lower s

-- getCompetencyTarget, on the value of DATABASE_PROVIDER or the empty text.
unfoldable pub get_competency_target : String → Result CompetencyTarget
unfolding trim lower
get_competency_target provider =
    let raw = lower (trim provider) in
    if raw == lower "sqlite"
    then returned sqlite
    else if raw == lower "postgres" || raw == lower "postgresql" || is_empty (trim provider)
    then returned postgres
    else thrown invalid_provider

pub data Value : Type 0 where
  text : String → Value
  other : Value

-- validateTag
unfoldable pub validate_tag : Value → Result String
unfolding trim
validate_tag other = thrown not_a_string
validate_tag (text s) =
    let trimmed = trim s in if is_empty trimmed then thrown empty_tag else returned trimmed

abbrev pub cons_tag : Result String → Result (List String) → Result (List String)
cons_tag (thrown e) rest = thrown e
cons_tag (returned t) (thrown e) = thrown e
cons_tag (returned t) (returned ts) = returned (t ∷ ts)

-- `values.map((v, i) => validateTag(v, ...))`
unfoldable pub validate_tags : List Value → Result (List String)
unfolding validate_tag
validate_tags [] = returned []
validate_tags (v ∷ vs) = cons_tag (validate_tag v) (validate_tags vs)

-- What a column holds.
pub data Column : Type 0 where
  null : Column
  array : List Value → Column
  json : String → Column
  unsupported : Column

-- What JSON.parse returns: an array of values, or something else.
pub data Json : Type 0 where
  array_of : List Value → Json
  not_array : Json

module _ (json_parse : String → Option Json) (json_stringify : List String → String) where
  abbrev pub persist : CompetencyTarget → Result (List String) → Result Column
  persist target (thrown e) = thrown e
  persist postgres (returned cleaned) = returned (array (map text cleaned))
  persist sqlite (returned cleaned) = returned (json (json_stringify cleaned))

  -- encodeCompetencies
  unfoldable pub encode_competencies : List Value → CompetencyTarget → Result Column
  unfolding validate_tags
  encode_competencies values target = persist target (validate_tags values)

  abbrev pub decode_json : Option Json → Result (List String)
  decode_json none = thrown malformed_json
  decode_json (some not_array) = thrown json_not_an_array
  decode_json (some (array_of values)) = validate_tags values

  -- decodeCompetencies
  unfoldable pub decode_competencies : Column → Result (List String)
  unfolding validate_tags
  decode_competencies null = returned []
  decode_competencies (array values) = validate_tags values
  decode_competencies unsupported = thrown unsupported_type
  decode_competencies (json raw) =
      if is_empty raw then returned [] else decode_json (json_parse raw)
