-- ===== src/Uploads/Names.antt =====
-- Names of files, keys and addresses as lists of UTF-16 units: the functions of JavaScript's strings
-- and of Node's `path` that upload/ and utils/helpers.ts call on them.
use Prim.Native.Char.{code}
use thunderchat_server.Base.{
  ℕ, ◌+◌, String, Bool, true, false, ◌&&◌, ◌||◌, Option, none, some, [], ◌∷◌, ◌==◌, if◌then◌else◌,
  leb, nat_eq, list_eq, includes,
}
use thunderchat_server.Security.Utf16.{Text}

-- A literal of ASCII letters as its units.
abbrev pub units : String → Text
units String.[] = []
units (String.◌∷◌ c s) = code c ∷ units s

-- `toLowerCase`, as far as a comparison with ASCII letters tells: beyond the capital letters of
-- ASCII only the sign for Kelvin becomes a letter of ASCII.
abbrev lower_unit : ℕ → ℕ
lower_unit u = if leb 65 u && leb u 90 then u + 32 else (if u == 0x212a then 107 else u)

abbrev pub to_lower_case : Text → Text
to_lower_case [] = []
to_lower_case (u ∷ us) = lower_unit u ∷ to_lower_case us

-- What stands behind a prefix.
abbrev pub strip : Text → Text → Option Text
strip [] us = some us
strip (p ∷ ps) [] = none
strip (p ∷ ps) (u ∷ us) = if p == u then strip ps us else none

abbrev pub starts_with : Text → Text → Bool
starts_with us prefix = elim (strip prefix us) [ none ↦ false | some _ ↦ true ]

abbrev pub ends_with : Text → Text → Bool
ends_with [] suffix = suffix == []
ends_with (u ∷ us) suffix = (u ∷ us) == suffix || ends_with us suffix

-- `includes` of a string.
abbrev pub contains : Text → Text → Bool
contains [] part = part == []
contains (u ∷ us) part = starts_with (u ∷ us) part || contains us part

-- What stands in front of the first occurrence of a separator, and behind it.
abbrev pub cut : Text → Text → Text × Option Text
cut separator [] = ([], none)
cut separator (u ∷ us) =
    let (before, after) = cut separator us in
    elim (strip separator (u ∷ us)) [ some rest ↦ ([], some rest) | none ↦ (u ∷ before, after) ]

-- `split(separator)[1]`
unfoldable pub second_part : Text → Text → Option Text
second_part separator us =
    let (before, rest) = cut separator us in
    elim rest [ none ↦ none | some after ↦ some (cut separator after).0 ]

-- `split(separator).pop()` for a separator of one unit: what stands behind its last occurrence.
abbrev pub last_part : ℕ → Text → Text
last_part separator [] = []
last_part separator (u ∷ us) =
    if includes us separator
    then last_part separator us
    else (if u == separator then us else u ∷ us)

-- `path.basename` of a path that does not end with a slash.
abbrev pub basename : Text → Text
basename = last_part 47

-- What stands from the last dot on, with that dot; nothing where there is no dot.
abbrev from_last_dot : Text → Text
from_last_dot [] = []
from_last_dot (u ∷ us) =
    if includes us 46 then from_last_dot us else (if u == 46 then u ∷ us else [])

-- The extension of a last segment: a dot in front does not begin one.
abbrev extension_of : Text → Text
extension_of [] = []
extension_of (u ∷ us) = if (u ∷ us) == 46 ∷ 46 ∷ [] then [] else from_last_dot us

-- `path.extname`
abbrev pub extname : Text → Text
extname path = extension_of (basename path)

-- What is left of a text without a part that it ends with.
abbrev pub without_end : Text → Text → Text
without_end [] suffix = []
without_end (u ∷ us) suffix = if (u ∷ us) == suffix then [] else u ∷ without_end us suffix
