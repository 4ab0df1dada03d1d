-- ===== src/Ci/Patterns.antt =====
-- The regular expressions of tool/ci, each of which is matched against a whole text. A class of characters is
-- a test on their code points, and no class has the character that follows its repetition, so a match
-- takes the longest run.
pub mod Parts
use base_backend.Prelude.{
  ℕ, zero, suc, Bool, true, false, ◌&&◌, ◌||◌, Option, none, some, String, List, [], ◌∷◌, leb,
  contains, ◌==◌, nat_eq, if◌then◌else◌,
}
use Prim.Native.Char.{Char, code}
use Prim.Native.String.{String as Text, ◌++◌ as ◌<>◌}

-- `[0-9]`
abbrev pub is_digit : ℕ → Bool
is_digit c = leb b'0' c && leb c b'9'

-- `[0-9a-f]`
abbrev pub is_hex_digit : ℕ → Bool
is_hex_digit c = is_digit c || (leb b'a' c && leb c b'f')

-- `[a-z0-9-]`
abbrev pub is_region_character : ℕ → Bool
is_region_character c = is_digit c || ((leb b'a' c && leb c b'z') || c == b'-')

-- `[a-z0-9._/-]`
abbrev pub is_path_character : ℕ → Bool
is_path_character c = is_region_character c || (c == b'.' || (c == b'_' || c == b'/'))

-- The longest beginning in a class, and the rest.
abbrev pub cons_first : Char → String × String → String × String
cons_first c (run, rest) = (Text.◌∷◌ c run, rest)

abbrev pub span : (ℕ → Bool) → String → String × String
span p Text.[] = ("", "")
span p (Text.◌∷◌ c s) =
    let r = span p s in if p (code c) then cons_first c r else ("", Text.◌∷◌ c s)

-- `[...]{n}` and no more.
abbrev pub is_run : (ℕ → Bool) → ℕ → String → Bool
is_run p zero Text.[] = true
is_run p zero (Text.◌∷◌ c s) = false
is_run p (suc n) Text.[] = false
is_run p (suc n) (Text.◌∷◌ c s) = p (code c) && is_run p n s

-- The rest after a literal beginning.
abbrev pub drop_prefix : String → String → Option String
drop_prefix Text.[] s = some s
drop_prefix (Text.◌∷◌ a p) Text.[] = none
drop_prefix (Text.◌∷◌ a p) (Text.◌∷◌ c s) =
    let r = drop_prefix p s in if code a == code c then r else none

-- `^[0-9a-f]{40}$`
abbrev pub is_git_sha : String → Bool
is_git_sha = is_run is_hex_digit 40

abbrev pub is_hash : Option String → Bool
is_hash none = false
is_hash (some s) = is_run is_hex_digit 64 s

-- `^sha256:[0-9a-f]{64}$`
unfoldable pub is_digest : String → Bool
is_digest s = is_hash (drop_prefix "sha256:" s)
