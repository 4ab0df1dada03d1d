-- ===== src/Ci/Json.antt =====
-- JSON documents as `json.loads` gives them, and what the policies of tool/ci ask of them: `get`, `[]`,
-- iteration, truth, and comparison with a text. A method that a value does not have raises.
use base_backend.Prelude.{
  ℕ, ◌≡◌, sym, ap, subst, Bool, true, false, not, Option, none, some, String, List, [], ◌∷◌, ◌==◌,
  nat_eq, string_eq, if◌then◌else◌,
}
use Prim.Native.String.{String as Text}
use base_backend.Errors.{Result, ok, err, key_error, type_error, attribute_error}
use base_backend.Ci.Results.{ok-injective}

-- `number n` is a number whose value is n, and any other number stands by its spelling. The keys of an object are distinct.
mutual
  pub data Json : Type 0 where
    null : Json
    boolean : Bool → Json
    number : ℕ → Json
    other_number : String → Json
    text : String → Json
    array : Items → Json
    object : Fields → Json

  pub data Items : Type 0 where
    no_items : Items
    item : Json → Items → Items

  pub data Fields : Type 0 where
    no_fields : Fields
    field : String → Json → Fields → Fields

abbrev pub list_of : Items → List Json
list_of no_items = []
list_of (item x xs) = x ∷ list_of xs

abbrev pub texts : List String → Items
texts [] = no_items
texts (s ∷ ss) = item (text s) (texts ss)

abbrev pub lookup : String → Fields → Option Json
lookup k no_fields = none
lookup k (field j x rest) = if k == j then some x else lookup k rest

abbrev pub keys : Fields → List Json
keys no_fields = []
keys (field k x rest) = text k ∷ keys rest

abbrev pub value_or : Json → Option Json → Json
value_or d none = d
value_or d (some x) = x

-- `value.get(key, default)`; the default is `null` where the source gives none.
abbrev pub get_or : String → Json → Json → Result Json
get_or k d (object fields) = ok (value_or d (lookup k fields))
get_or k d _ = err attribute_error

abbrev pub get : String → Json → Result Json
get k = get_or k null

abbrev pub or_missing : Option Json → Result Json
or_missing none = err key_error
or_missing (some x) = ok x

-- `value["key"]`
abbrev pub entry : String → Json → Result Json
entry k (object fields) = or_missing (lookup k fields)
entry k _ = err type_error

abbrev characters : String → List Json
characters Text.[] = []
characters (Text.◌∷◌ c s) = text (Text.◌∷◌ c Text.[]) ∷ characters s

-- `for x in value`
abbrev pub iterate : Json → Result (List Json)
iterate (array items) = ok (list_of items)
iterate (object fields) = ok (keys fields)
iterate (text s) = ok (characters s)
iterate _ = err type_error

-- `bool(value)`; a number that is not written as a natural number is not 0.
abbrev pub truthy : Json → Bool
truthy null = false
truthy (boolean b) = b
truthy (number n) = not (n == 0)
truthy (other_number _) = true
truthy (text s) = not (s == "")
truthy (array no_items) = false
truthy (array (item _ _)) = true
truthy (object no_fields) = false
truthy (object (field _ _ _)) = true

-- `value or default`
abbrev pub or_else : Json → Json → Json
or_else x d = if truthy x then x else d

-- `value == "text"`
abbrev pub is_text : String → Json → Bool
is_text t (text s) = s == t
is_text t _ = false

-- `value == n`, where `True` is 1 and `False` is 0.
abbrev pub is_number : ℕ → Json → Bool
is_number n (number m) = m == n
is_number n (boolean true) = 1 == n
is_number n (boolean false) = 0 == n
is_number n _ = false

-- `value in a set of texts`: a list or a dict has no hash.
abbrev pub is_member : (String → Bool) → Json → Result Bool
is_member members (text s) = ok (members s)
is_member members (array _) = err type_error
is_member members (object _) = err type_error
is_member members _ = ok false

-- A method of `str`.
abbrev pub as_str : Json → Result String
as_str (text s) = ok s
as_str _ = err attribute_error

-- A text that `get` gives is there, so that `[]` gives it too.
pub get-is_text :
    (k t : String) (value : Json) {x : Json}
    → get k value ≡ ok x
    → is_text t x ≡ true
    → entry k value ≡ ok (text t)
get-is_text k t (object fields) h is =
    there (lookup k fields) (subst (λ y. is_text t y ≡ true) (sym (ok-injective h)) is)
  where
    there : (o : Option Json) → is_text t (value_or null o) ≡ true → or_missing o ≡ ok (text t)
    there none e = absurd (cc)
    there (some (text s)) e = ap (λ v. ok (text v)) ((string_eq.equal_iff s t).0 e)
    there (some null) e = absurd (cc)
    there (some (boolean _)) e = absurd (cc)
    there (some (number _)) e = absurd (cc)
    there (some (other_number _)) e = absurd (cc)
    there (some (array _)) e = absurd (cc)
    there (some (object _)) e = absurd (cc)
get-is_text k t null h is = absurd (cc)
get-is_text k t (boolean _) h is = absurd (cc)
get-is_text k t (number _) h is = absurd (cc)
get-is_text k t (other_number _) h is = absurd (cc)
get-is_text k t (text _) h is = absurd (cc)
get-is_text k t (array _) h is = absurd (cc)

pub is_text-path : (t : String) (x : Json) → is_text t x ≡ true → x ≡ text t
is_text-path t (text s) h = ap text ((string_eq.equal_iff s t).0 h)
is_text-path t null h = absurd (cc)
is_text-path t (boolean _) h = absurd (cc)
is_text-path t (number _) h = absurd (cc)
is_text-path t (other_number _) h = absurd (cc)
is_text-path t (array _) h = absurd (cc)
is_text-path t (object _) h = absurd (cc)
