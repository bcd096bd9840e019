-- ===== src/Common/Kv.antt =====
-- apps/api/src/common/kv.service.ts and kv.util.ts: the key-value table and the readings of its
-- text values, which hold either the plain text or its JSON encoding. What the language itself
-- does with texts and dates (`JSON.parse`, `Number()`, `slice`, `trim`) enters as the record `Readers`.
use text.Mathlib.Text.{◌==◌ as str_eq}
use text.Mathlib.TextEquality.{eq_iff}
use open_neotrader.Base.{
  ℕ, String, ◌≡◌, refl, Bool, true, false, Option, none, some, List, [], ◌∷◌, arith, if◌then◌else◌,
}
use open_neotrader.Number.{Number, is_finite}

-- the table `configEntry`
abbrev pub Kv : Type 0
Kv = List (String × String)

-- `KvService.get`
abbrev pub kv_get : String → Kv → Option String
kv_get k [] = none
kv_get k ((j, v) ∷ m) = if str_eq j k then some v else kv_get k m

-- `KvService.set`, an upsert
unfoldable pub kv_put : String → String → Kv → Kv
kv_put k v [] = (k, v) ∷ []
kv_put k v ((j, w) ∷ m) = if str_eq j k then (k, v) ∷ m else (j, w) ∷ kv_put k v m

-- `KvService.delete`
unfoldable pub kv_remove : String → Kv → Kv
kv_remove k [] = []
kv_remove k ((j, w) ∷ m) = let rest = kv_remove k m in if str_eq j k then rest else (j, w) ∷ rest

-- What `JSON.parse` makes of a text: it throws, or gives a string, or something else.
pub data Json : Type 0 where
  unparsable : Json
  string : String → Json
  not_string : Json

pub record Readers : Type 0 where
  pub json_parse : String → Json
  pub to_number : String → Number
  -- `submitted < new Date(now - timeout)`
  pub is_older : ℕ → ℕ → Number → Bool
  -- `text.trim()` as an identifier, none where it is empty
  pub identifier : String → Option ℕ
  -- a text as an identifier, none where it is empty
  pub nonempty : String → Option ℕ
  -- `String(number)`
  pub show_number : Number → String
  -- `text.slice(0, 200)`
  pub first_200 : String → String

abbrev unwrap_json : Json → String → String
unwrap_json (string s) v = s
unwrap_json unparsable v = v
unwrap_json not_string v = v

-- `unwrapKv`
unfoldable pub unwrap_kv : Readers → Option String → Option String
unwrap_kv r none = none
unwrap_kv r (some v) = some (unwrap_json (r.json_parse v) v)

-- `kvStr`
unfoldable pub kv_str : Readers → Option String → Option String
unfolding unwrap_kv
kv_str r v = unwrap_kv r v

abbrev read_bool : Option String → Bool → Bool
read_bool none fallback = fallback
read_bool (some s) fallback =
    if str_eq s "true" then true else if str_eq s "false" then false else fallback

-- `kvBool`
unfoldable pub kv_bool : Readers → Option String → Bool → Bool
unfolding unwrap_kv
kv_bool r v fallback = read_bool (unwrap_kv r v) fallback

abbrev read_num : Readers → Option String → Number → Number
read_num r none fallback = fallback
read_num r (some s) fallback = let n = r.to_number s in if is_finite n then n else fallback

-- `kvNum`
unfoldable pub kv_num : Readers → Option String → Number → Number
unfolding unwrap_kv
kv_num r v fallback = read_num r (unwrap_kv r v) fallback

-- What is written under a key is read back under it, and every other key reads as before.
pub kv_get-kv_put :
    (k j : String) (v : String) (m : Kv)
    → kv_get j (kv_put k v m) ≡ (if str_eq k j then some v else kv_get j m)
unfolding kv_put
kv_get-kv_put k j v [] = refl
kv_get-kv_put k j v ((i, w) ∷ m) =
    ground (arith, eq_iff k j, eq_iff i k, eq_iff i j, kv_get-kv_put k j v m)

pub kv_get-kv_remove :
    (k j : String) (m : Kv) → kv_get j (kv_remove k m) ≡ (if str_eq k j then none else kv_get j m)
unfolding kv_remove
kv_get-kv_remove k j [] = ground arith
kv_get-kv_remove k j ((i, w) ∷ m) =
    ground (arith, kv_get-kv_remove k j m, eq_iff i k, eq_iff i j, eq_iff k j)

-- A number that is read from the table, whatever text it holds, is finite if the caller's default is.
pub kv_num-is_finite :
    (r : Readers) (v : Option String) (fallback : Number)
    → is_finite fallback ≡ true
    → is_finite (kv_num r v fallback) ≡ true
unfolding kv_num
kv_num-is_finite r none fallback h = h
kv_num-is_finite r (some v) fallback h = ground arith
